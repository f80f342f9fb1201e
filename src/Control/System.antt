-- ===== src/Control/System.antt =====
-- The control pipeline as a step relation (app/control, app/db.py): commands are queued, workers write
-- to the rows of their unfinished jobs, in any order and interleaving, other tables change, and a
-- restart ends what was unfinished.
use mathlib.Core.Option.{some-injective}
use open_asicmanager.Prelude.{
  ℕ, ◌≡◌, ◌≢◌, refl, sym, ap, ◌∙◌, Bool, true, false, some, List, first_row, first-update, map_row,
}
use open_asicmanager.Fleet.{Action}
use open_asicmanager.Control.{ControlJob, ControlState}
use open_asicmanager.Control.Jobs.{
  JobField, is_job, is_active, active_job, get_control_job, update_control_job, abort_job,
  abort_unfinished_jobs,
}
use open_asicmanager.Control.Jobs.Invariant.{
  WellFormed, same-WellFormed, update-WellFormed, KeepsEnded-of_active, found-update_ne,
  abort-WellFormed,
}
use open_asicmanager.Control.Queue.{QueueRuntime, queue_control, queue_reboot}
use open_asicmanager.Control.Queue.Kept.{queue_control-Kept, queue_reboot-Kept}
use open_asicmanager.Control.Queue.OneActive.{queue_control-WellFormed, queue_reboot-WellFormed}

pub data Step : ControlState → ControlState → Type 0 where
  command :
      (runtime : QueueRuntime) (now miner_id : ℕ) (action : Action) (manual : Bool)
      (s : ControlState)
      → Step s (queue_control runtime now miner_id action manual s).1
  reboot_command :
      (runtime : QueueRuntime) (now miner_id : ℕ) (s : ControlState)
      → Step s (queue_reboot runtime now miner_id s).1
  -- A worker updates its own job while the job is unfinished.
  write :
      (job_id : ℕ) (fields : List JobField) (s : ControlState) (job : ControlJob)
      → get_control_job job_id s ≡ some job
      → is_active job.status ≡ true
      → Step s (update_control_job job_id fields s)
  -- Polls, the audit log, submissions and commands sent: everything but the jobs.
  elsewhere : (s t : ControlState) → t.jobs ≡ s.jobs → t.next_job ≡ s.next_job → Step s t
  restart : (now : ℕ) (s : ControlState) → Step s (abort_unfinished_jobs now s)

pub data Steps : ControlState → ControlState → Type 0 where
  done : (s : ControlState) → Steps s s
  next : (s t u : ControlState) → Steps s t → Step t u → Steps s u

-- The steps of the worker of one job: writes to its row while the job is unfinished, and writes elsewhere.
pub data WorkerSteps (job_id : ℕ) : ControlState → ControlState → Type 0 where
  begin : (s : ControlState) → WorkerSteps job_id s s
  write_own :
      (s t : ControlState) (fields : List JobField) (job : ControlJob)
      → WorkerSteps job_id s t
      → get_control_job job_id t ≡ some job
      → is_active job.status ≡ true
      → WorkerSteps job_id s (update_control_job job_id fields t)
  write_elsewhere :
      (s t u : ControlState)
      → WorkerSteps job_id s t
      → u.jobs ≡ t.jobs
      → u.next_job ≡ t.next_job
      → WorkerSteps job_id s u

-- They are steps of the pipeline.
pub WorkerSteps-Steps : (job_id : ℕ) (s t : ControlState) → WorkerSteps job_id s t → Steps s t
WorkerSteps-Steps job_id _ _ (begin s) = done s
WorkerSteps-Steps job_id _ _ (write_own s t fields job before found active) =
    next s t (update_control_job job_id fields t) (WorkerSteps-Steps job_id s t before)
      (write job_id fields t job found active)
WorkerSteps-Steps job_id _ _ (write_elsewhere s t u before e f) =
    next s t u (WorkerSteps-Steps job_id s t before) (elsewhere t u e f)

Step-WellFormed : (s t : ControlState) → Step s t → WellFormed s → WellFormed t
Step-WellFormed _ _ (command runtime now i a manual s) w =
    queue_control-WellFormed runtime now i a manual s w
Step-WellFormed _ _ (reboot_command runtime now i s) w = queue_reboot-WellFormed runtime now i s w
Step-WellFormed _ _ (write job_id fields s job found active) w =
    update-WellFormed job_id fields s (KeepsEnded-of_active job_id fields s w found active) w
Step-WellFormed _ _ (elsewhere s t e f) w = same-WellFormed s t e f w
Step-WellFormed _ _ (restart now s) w = abort-WellFormed now s w

-- A row of a job that has ended.
abbrev pub EndedRow : ℕ → ControlJob → ControlState → Type 0
EndedRow i row s = (get_control_job i s ≡ some row) × (is_active row.status ≡ false)

abort_kept :
    (now i : ℕ) (row : ControlJob) (s : ControlState)
    → EndedRow i row s
    → get_control_job i (abort_unfinished_jobs now s) ≡ some row
unfolding get_control_job abort_unfinished_jobs
abort_kept now i row s (found, ended) =
    first-update (is_job i) active_job (abort_job now) s.jobs (λ j h. refl)
    ∙ ap (map_row active_job (abort_job now)) found
    ∙ rw ended refl

true-false : true ≡ false → ⊥
true-false h = cc

other_row :
    (i job_id : ℕ) (row job : ControlJob) (s : ControlState)
    → EndedRow i row s
    → get_control_job job_id s ≡ some job
    → is_active job.status ≡ true
    → job_id ≢ i
other_row i job_id row job s (found, ended) h active e =
    let same = some-injective job row (sym h ∙ ap (λ k. get_control_job k s) e ∙ found) in
    true-false (sym active ∙ ap (λ j. is_active j.status) same ∙ ended)

Step-EndedRow :
    (i : ℕ) (row : ControlJob) (s t : ControlState) → Step s t → EndedRow i row s → EndedRow i row t
Step-EndedRow i row _ _ (command rt now k a manual s) (h, e) =
    (queue_control-Kept i row rt now k a manual s h, e)
Step-EndedRow i row _ _ (reboot_command rt now k s) (h, e) =
    (queue_reboot-Kept i row rt now k s h, e)
Step-EndedRow i row _ _ (write job_id fields s job found active) (h, e) =
    (found-update_ne job_id i fields s (other_row i job_id row job s (h, e) found active) ∙ h, e)
Step-EndedRow i row _ _ (elsewhere s t same f) (h, e) =
    (unfold get_control_job in ap (first_row (is_job i)) same ∙ h, e)
Step-EndedRow i row _ _ (restart now s) h = (abort_kept now i row s h, h.1)

-- From a well formed table, however commands, workers, other writes and restarts follow each
-- other, the control jobs stay well formed, with at most one unfinished job for each miner and ids
-- used once; and a job that has ended keeps its row.
pub pipeline_keeps :
    (s t : ControlState)
    → WellFormed s
    → Steps s t
    → WellFormed t × ((i : ℕ) (row : ControlJob) → EndedRow i row s → EndedRow i row t)
pipeline_keeps _ _ w (done s) = (w, λ i row h. h)
pipeline_keeps _ _ w (next s t u before step) =
    let (v, keeps) = pipeline_keeps s t w before in
    (Step-WellFormed t u step v, λ i row h. Step-EndedRow i row t u step (keeps i row h))
