-- ===== src/Control/Worker/Stuck.antt =====
-- A worker whose miner has lost its firmware family (app/control/worker.py): what it leaves behind.
use open_asicmanager.Prelude.{
  ℕ, ◌≡◌, ◌≢◌, refl, ap, ◌∙◌, Bool, true, false, some, List, [], ◌∷◌, arith, ==_refl, Option-cases,
  inl, inr, first_row, first_row-In, last_row, count-pos_of_In, count_of_last_none, raised,
}
use open_asicmanager.Fleet.{Action, Miner, supported, get_miner}
use open_asicmanager.Control.{ControlJob, ControlState, running, invalid_action_or_driver}
use open_asicmanager.Control.Policy.{control_timeout}
use open_asicmanager.Control.Jobs.{
  JobField, update_control_job, set_status, set_started_at, set_fields, is_job, active_for,
  is_active, get_control_job, get_active_control_job,
}
use open_asicmanager.Control.Jobs.Invariant.{found-update, found-update_ne}
use open_asicmanager.Control.Queue.{QueueRuntime, queue_control, queue_reboot}
use open_asicmanager.Control.Queue.Kept.{queue_control-Kept, queue_reboot-Kept}
use open_asicmanager.Control.Queue.Others.{queue_reboot-accepts}
use open_asicmanager.Control.Queue.Outcomes.{accepted?, idle?, queue_control-accepts}
use open_asicmanager.Control.Worker.{
  Round, crashed, with_job, with_miner, with_timeout, verified_control_worker,
}

-- A row that is unfinished is an unfinished job of its miner.
unfinished-idle :
    (i : ℕ) (row : ControlJob) (s : ControlState)
    → get_control_job i s ≡ some row
    → is_active row.status ≡ true
    → idle? (get_active_control_job row.miner_id s) ≡ false
unfolding get_control_job get_active_control_job
unfinished-idle i row s found active =
    elim (Option-cases (last_row (active_for row.miner_id) s.jobs)) [
      | inl e ↦
          let matches : active_for row.miner_id row ≡ true = ground (arith, ==_refl row.miner_id) in
          let some_row =
            count-pos_of_In (active_for row.miner_id) row s.jobs
              (first_row-In (is_job i) s.jobs found).0 matches in
          let no_row = count_of_last_none (active_for row.miner_id) s.jobs e in absurd (omega arith)
      | inr (j, e) ↦ rw e refl
    ]

unknown_timeout :
    (a : Action) (m : Miner)
    → supported m.driver ≡ false
    → control_timeout a m ≡ raised invalid_action_or_driver
unfolding control_timeout supported
unknown_timeout a m h = ground arith

-- What may follow without the worker of a job: commands, the writes of workers to other jobs, and changes
-- elsewhere. A restart is not among them.
pub data Beside (job_id : ℕ) : ControlState → ControlState → Type 0 where
  start : (s : ControlState) → Beside job_id s s
  commanded :
      (s t : ControlState) (runtime : QueueRuntime) (now miner_id : ℕ) (action : Action)
      (manual : Bool)
      → Beside job_id s t
      → Beside job_id s (queue_control runtime now miner_id action manual t).1
  rebooted :
      (s t : ControlState) (runtime : QueueRuntime) (now miner_id : ℕ)
      → Beside job_id s t
      → Beside job_id s (queue_reboot runtime now miner_id t).1
  wrote_other :
      (s t : ControlState) (other : ℕ) (fields : List JobField)
      → Beside job_id s t
      → other ≢ job_id
      → Beside job_id s (update_control_job other fields t)
  changed_elsewhere :
      (s t u : ControlState)
      → Beside job_id s t
      → u.jobs ≡ t.jobs
      → u.next_job ≡ t.next_job
      → Beside job_id s u

row_same :
    (i : ℕ) (row : ControlJob) (s t : ControlState)
    → t.jobs ≡ s.jobs
    → get_control_job i s ≡ some row
    → get_control_job i t ≡ some row
unfolding get_control_job
row_same i row s t e h = ap (first_row (is_job i)) e ∙ h

row-Beside :
    (i : ℕ) (row : ControlJob) (s t : ControlState)
    → Beside i s t
    → get_control_job i s ≡ some row
    → get_control_job i t ≡ some row
row-Beside i row _ _ (start s) h = h
row-Beside i row _ _ (commanded s t rt now k a manual before) h =
    queue_control-Kept i row rt now k a manual t (row-Beside i row s t before h)
row-Beside i row _ _ (rebooted s t rt now k before) h =
    queue_reboot-Kept i row rt now k t (row-Beside i row s t before h)
row-Beside i row _ _ (wrote_other s t k fields before ne) h =
    found-update_ne k i fields t ne ∙ row-Beside i row s t before h
row-Beside i row _ _ (changed_elsewhere s t u before e f) h =
    row_same i row t u e (row-Beside i row s t before h)

crash :
    (job : ControlJob) (m : Miner) (now started : ℕ) (rounds : List Round) (s : ControlState)
    → get_control_job job.id s ≡ some job
    → get_miner job.miner_id s.miners ≡ some m
    → supported m.driver ≡ false
    → let out = verified_control_worker job.id now started rounds s in
      (out.0 ≡ crashed)
      × (get_control_job job.id out.1
          ≡ some (set_fields (set_status running ∷ set_started_at now ∷ []) job))
unfolding verified_control_worker with_job with_miner with_timeout
crash job m now started rounds s found known lost = rw found (
    rw known (
      rw (unknown_timeout job.action m lost)
        (refl, found-update job.id (set_status running ∷ set_started_at now ∷ []) s found)))

-- A worker whose miner no longer has one of the two firmware families raises after it has marked its
-- job as RUNNING. From then on, whatever commands come, whatever other workers write to their jobs and
-- whatever changes elsewhere, until a restart: the row stays RUNNING without an end, and no pause, resume
-- or reboot of that miner is accepted.
pub lost_driver_blocks :
    (job : ControlJob) (m : Miner) (now started : ℕ) (rounds : List Round) (s t : ControlState)
    (runtime : QueueRuntime) (later : ℕ) (action : Action) (manual : Bool)
    → get_control_job job.id s ≡ some job
    → get_miner job.miner_id s.miners ≡ some m
    → supported m.driver ≡ false
    → Beside job.id (verified_control_worker job.id now started rounds s).1 t
    → ((verified_control_worker job.id now started rounds s).0 ≡ crashed)
      × (get_control_job job.id t
          ≡ some (set_fields (set_status running ∷ set_started_at now ∷ []) job))
      × (accepted? (queue_control runtime later job.miner_id action manual t) ≡ false)
      × (accepted? (queue_reboot runtime later job.miner_id t) ≡ false)
lost_driver_blocks job m now started rounds s t runtime later action manual found known lost after =
    let row = set_fields (set_status running ∷ set_started_at now ∷ []) job in
    let (raised_then, there) = crash job m now started rounds s found known lost in
    let here = row-Beside job.id row _ t after there in
    let busy : idle? (get_active_control_job job.miner_id t) ≡ false =
      unfold set_fields in unfinished-idle job.id row t here refl in
    (
      raised_then,
      here,
      queue_control-accepts runtime later job.miner_id action manual t ∙ ground arith,
      queue_reboot-accepts runtime later job.miner_id t ∙ ground arith,
    )
