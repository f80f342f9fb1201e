-- ===== src/Control/Reboot/Row.antt =====
-- What the job's row says when a reboot ends (`reboot_worker`, app/control/worker.py).
use open_asicmanager.Prelude.{
  ℕ, ◌≡◌, ◌∙◌, ap, refl, Bool, true, false, Option, some, String, [], ◌∷◌, first_row, arith,
}
use open_asicmanager.Fleet.{reboot, Miner, MinerState, get_miner}
use open_asicmanager.Control.{ControlJob, JobStatus, running, sending_reboot, Message, ControlState}
use open_asicmanager.Control.Jobs.{
  is_job, get_control_job, set_fields, set_started_at, set_attempts, set_status, set_final_state,
  set_message, update_control_job,
}
use open_asicmanager.Control.Jobs.Invariant.{found-update}
use open_asicmanager.Control.Worker.{
  end_status, issue, log_event, finish_control_job, WorkerEnd, finished,
}
use open_asicmanager.Control.Worker.Row.{found-finish}
use open_asicmanager.Control.Reboot.{
  RebootRun, state_of, note_transition, note_return, reboot_of, begin_reboot, reboot_worker,
}
use open_asicmanager.Control.Reboot.Rule.{after_send-Ends}

-- The job's row, with the one attempt.
pub record JobRow (job_id : ℕ) (status : JobStatus) (s : ControlState) : Type 0 where
  pub row : ControlJob
  pub found : get_control_job job_id s ≡ some row
  pub has_status : row.status ≡ status
  pub attempted : row.attempts ≡ 1

abbrev pub status_after : WorkerEnd → JobStatus
status_after (finished success) = end_status success
status_after _ = running

note-JobRow :
    (i : ℕ) (final : Option MinerState) (text : Message) (s : ControlState)
    → JobRow i running s
    → JobRow i running (update_control_job i (set_final_state final ∷ set_message text ∷ []) s)
unfolding set_fields
note-JobRow i final text s w = record {
  row = record w.row { final_state = final; message = some text };
  found = found-update i (set_final_state final ∷ set_message text ∷ []) s w.found;
  has_status = w.has_status;
  attempted = w.attempted;
}

finish-JobRow :
    (i now : ℕ) (m : Option Miner) (source : String) (success : Bool) (final : Option MinerState)
    (text : Message) (s : ControlState)
    → JobRow i running s
    → JobRow i (end_status success) (finish_control_job now i m source reboot success final text s)
finish-JobRow i now m source success final text s w = record {
  row = record w.row {
    status = end_status success;
    completed_at = some now;
    final_state = final;
    message = some text;
  };
  found = found-finish now i m source reboot success final text s w.found;
  has_status = refl;
  attempted = w.attempted;
}

same-JobRow :
    (i : ℕ) (st : JobStatus) (s t : ControlState) → t.jobs ≡ s.jobs → JobRow i st s → JobRow i st t
unfolding get_control_job
same-JobRow i st s t e w = record {
  row = w.row;
  found = ap (first_row (is_job i)) e ∙ w.found;
  has_status = w.has_status;
  attempted = w.attempted;
}

begin-JobRow :
    (job : ControlJob) (m : Miner) (now : ℕ) (s : ControlState)
    → get_control_job job.id s ≡ some job
    → JobRow job.id running (begin_reboot (reboot_of job m) now s)
unfolding begin_reboot set_fields
begin-JobRow job m now s found = record {
  row = record job {
    status = running;
    started_at = some now;
    attempts = 1;
    final_state = some (state_of m);
    message = some sending_reboot;
  };
  found =
      found-update job.id
        (set_status running
          ∷ set_started_at now
          ∷ set_attempts 1
          ∷ set_final_state (some (state_of m))
          ∷ set_message sending_reboot
          ∷ [])
        s found;
  has_status = refl;
  attempted = refl;
}

issued_jobs : (m : Option Miner) (i : ℕ) (s : ControlState) → (issue m i reboot s).jobs ≡ s.jobs
unfolding issue
issued_jobs m i s = ground arith

-- A reboot job of a known miner, in any environment: its row can be read back with exactly one
-- attempt, and is VERIFIED or FAILED when the worker has finished it, RUNNING when the worker
-- returned without (a shutdown) or has passes still to make.
pub reboot_worker-JobRow :
    (job : ControlJob) (m : Miner) (run : RebootRun) (s : ControlState)
    → get_control_job job.id s ≡ some job
    → get_miner job.miner_id s.miners ≡ some m
    → let out = reboot_worker job.id run s in JobRow job.id (status_after out.0) out.1
unfolding reboot_worker
reboot_worker-JobRow job m run s found known = rw found (
    rw known (
      after_send-Ends (reboot_of job m) (JobRow job.id running)
        (λ ms t w. same-JobRow job.id running t _ refl w)
        (λ st t w. unfold note_transition in note-JobRow job.id (some st) _ t w)
        (λ st n t w. unfold note_return in note-JobRow job.id (some st) _ t w)
        (λ e t. JobRow job.id (status_after e) t) (λ t w. w) (λ t w. w)
        (λ now k final text t w. finish-JobRow job.id now k job.source false final text t w)
        (λ now k final text t w. finish-JobRow job.id now k job.source true final text t w)
        (λ source e k ok text t w. unfold log_event in same-JobRow job.id running t _ refl w) run _
        _
        (same-JobRow job.id running (begin_reboot (reboot_of job m) run.now s) _
          (issued_jobs (some m) job.miner_id _) (begin-JobRow job m run.now s found))))
