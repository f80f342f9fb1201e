-- ===== src/Control/Worker/Row.antt =====
-- The row of a job while its worker runs and once it has ended (app/control/worker.py).
use open_asicmanager.Prelude.{
  ℕ, ◌+◌, ◌≤◌, ◌<◌, String, ◌≡◌, refl, ap, ◌∙◌, Bool, true, false, Option, some, [], ◌∷◌, arith,
  get_or, is_some, first_row,
}
use open_asicmanager.Fleet.{Action, Miner, MinerState, unknown, get_miner}
use open_asicmanager.Control.{ControlJob, running, verified, failed, Message, ControlState}
use open_asicmanager.Control.Jobs.{
  is_job, get_control_job, set_fields, update_control_job, set_attempts, set_final_state,
  set_message, set_status, set_completed_at,
}
use open_asicmanager.Control.Jobs.Invariant.{found-update}
use open_asicmanager.Control.Queue.{control_max_attempts}
use open_asicmanager.Control.Worker.{
  end_status, finish_control_job, Verification, Loop, WorkerEnd, finished, Progress, going, ended,
}

-- Between two passes: the job is RUNNING, and its row counts the attempts, at most three.
pub record RunningAs (v : Verification) (attempts : ℕ) (s : ControlState) : Type 0 where
  pub row : ControlJob
  pub found : get_control_job v.job_id s ≡ some row
  pub unfinished : row.status ≡ running
  pub counted : row.attempts ≡ attempts
  pub bounded : attempts ≤ control_max_attempts

abbrev pub Running : Verification → Loop → Type 0
Running v l = RunningAs v l.attempts l.state

-- The miner's state as the worker reads it.
abbrev pub Reads : ℕ → MinerState → ControlState → Type 0
Reads miner_id st s =
    (m : Miner) × (get_miner miner_id s.miners ≡ some m) × (get_or m.last_state unknown ≡ st)

-- The job has ended, with its result.
pub record Finished (v : Verification) (success : Bool) (s : ControlState) : Type 0 where
  pub row : ControlJob
  pub found : get_control_job v.job_id s ≡ some row
  pub status : row.status ≡ end_status success
  pub completed : is_some row.completed_at ≡ true
  pub bounded : row.attempts ≤ control_max_attempts
  pub final : success ≡ true → row.final_state ≡ some v.target
  pub observed : success ≡ true → Reads v.miner_id v.target s

-- The job was left RUNNING.
pub record Left (v : Verification) (s : ControlState) : Type 0 where
  pub row : ControlJob
  pub found : get_control_job v.job_id s ≡ some row
  pub unfinished : row.status ≡ running
  pub bounded : row.attempts ≤ control_max_attempts

abbrev pub EndsWell : Verification → WorkerEnd → ControlState → Type 0
EndsWell v (finished success) s = Finished v success s
EndsWell v _ s = Left v s

abbrev pub After : Verification → Progress → Type 0
After v (going l) = Running v l
After v (ended e s) = EndsWell v e s

pub found-finish :
    (now : ℕ) (i : ℕ) (m : Option Miner) (source : String) (a : Action) (success : Bool)
    (final : Option MinerState) (text : Message) (s : ControlState) {row : ControlJob}
    → get_control_job i s ≡ some row
    → get_control_job i (finish_control_job now i m source a success final text s)
      ≡ some (record row {
        status = end_status success;
        completed_at = some now;
        final_state = final;
        message = some text;
      })
unfolding finish_control_job get_control_job
found-finish now i m source a success final text s h =
    unfold set_fields in
    found-update i
      (set_status (end_status success)
        ∷ set_completed_at now
        ∷ set_final_state final
        ∷ set_message text
        ∷ [])
      s h

found_same :
    (i : ℕ) (s t : ControlState) {row : ControlJob}
    → t.jobs ≡ s.jobs
    → get_control_job i s ≡ some row
    → get_control_job i t ≡ some row
unfolding get_control_job
found_same i s t e h = ap (first_row (is_job i)) e ∙ h

pub Running-same :
    (v : Verification) (n : ℕ) (s t : ControlState)
    → t.jobs ≡ s.jobs
    → RunningAs v n s
    → RunningAs v n t
Running-same v n s t e w = record {
  row = w.row;
  found = found_same v.job_id s t e w.found;
  unfinished = w.unfinished;
  counted = w.counted;
  bounded = w.bounded;
}

pub Left-of_Running : (v : Verification) (n : ℕ) (s : ControlState) → RunningAs v n s → Left v s
Left-of_Running v n s w = record {
  row = w.row;
  found = w.found;
  unfinished = w.unfinished;
  bounded = omega (arith, w.counted, w.bounded);
}

pub failed_finish :
    (v : Verification) (n now : ℕ) (m : Option Miner) (final : Option MinerState) (text : Message)
    (s : ControlState)
    → RunningAs v n s
    → Finished v false (finish_control_job now v.job_id m v.source v.action false final text s)
failed_finish v n now m final text s w = record {
  row = record w.row {
    status = failed;
    completed_at = some now;
    final_state = final;
    message = some text;
  };
  found = found-finish now v.job_id m v.source v.action false final text s w.found;
  status = refl;
  completed = refl;
  bounded = omega (arith, w.counted, w.bounded);
  final = λ e. cc;
  observed = λ e. absurd (cc);
}

pub verified_finish :
    (v : Verification) (n now : ℕ) (m : Miner) (st : MinerState) (text : Message) (s : ControlState)
    → RunningAs v n s
    → st ≡ v.target
    → Reads v.miner_id st s
    → Finished v true
        (finish_control_job now v.job_id (some m) v.source v.action true (some st) text s)
unfolding finish_control_job
verified_finish v n now m st text s w e (k, found, reads) = record {
  row = record w.row {
    status = verified;
    completed_at = some now;
    final_state = some st;
    message = some text;
  };
  found = found-finish now v.job_id (some m) v.source v.action true (some st) text s w.found;
  status = refl;
  completed = refl;
  bounded = omega (arith, w.counted, w.bounded);
  final = λ h. ap some e;
  observed = λ h. (k, found, reads ∙ e);
}

-- The UPDATE of final_state and message while the worker waits.
pub waiting-Running :
    (v : Verification) (n : ℕ) (final : Option MinerState) (text : Message) (s : ControlState)
    → RunningAs v n s
    → RunningAs v n (update_control_job v.job_id (set_final_state final ∷ set_message text ∷ []) s)
unfolding set_fields
waiting-Running v n final text s w = record {
  row = record w.row { final_state = final; message = some text };
  found = found-update v.job_id (set_final_state final ∷ set_message text ∷ []) s w.found;
  unfinished = w.unfinished;
  counted = w.counted;
  bounded = w.bounded;
}

pub attempt-Running :
    (v : Verification) (n : ℕ) (s : ControlState)
    → n < control_max_attempts
    → RunningAs v n s
    → RunningAs v (n + 1) (update_control_job v.job_id (set_attempts (n + 1) ∷ []) s)
unfolding set_fields
attempt-Running v n s lt w = record {
  row = record w.row { attempts = n + 1 };
  found = found-update v.job_id (set_attempts (n + 1) ∷ []) s w.found;
  unfinished = w.unfinished;
  counted = refl;
  bounded = omega arith;
}
