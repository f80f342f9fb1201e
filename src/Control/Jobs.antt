-- ===== src/Control/Jobs.antt =====
-- The control_jobs table (app/control/repository.py), and the recovery of unfinished jobs when the
-- application starts (`init_db`, app/db.py). The module below has the invariant of the table.
pub mod Invariant
use mathlib.Core.List.{reverse}
use open_asicmanager.Prelude.{
  ℕ, ◌+◌, String, Bool, true, false, ◌&&◌, Option, none, some, List, [], ◌∷◌, ◌++◌, ◌==◌, ltb,
  if◌then◌else◌, select, first_row, last_row, update_rows, take,
}
use open_asicmanager.Fleet.{Action, Miner, MinerState, update_miner}
use open_asicmanager.Control.{
  ControlJob, JobStatus, queued, running, aborted, Message, restarted, ControlState,
}

abbrev pub is_job : ℕ → ControlJob → Bool
is_job job_id j = j.id == job_id

-- status IN ('QUEUED', 'RUNNING')
abbrev pub is_active : JobStatus → Bool
is_active queued = true
is_active running = true
is_active _ = false

abbrev pub active_job : ControlJob → Bool
active_job j = is_active j.status

abbrev pub active_for : ℕ → ControlJob → Bool
active_for miner_id j = j.miner_id == miner_id && is_active j.status

unfoldable pub get_control_job : ℕ → ControlState → Option ControlJob
get_control_job job_id s = first_row (is_job job_id) s.jobs

unfoldable pub list_active_control_jobs : ControlState → List ControlJob
list_active_control_jobs s = reverse (select active_job s.jobs)

unfoldable pub get_active_control_job : ℕ → ControlState → Option ControlJob
get_active_control_job miner_id s = last_row (active_for miner_id) s.jobs

-- `limit = max(1, int(limit))`
unfoldable pub list_control_jobs : ℕ → ControlState → List ControlJob
list_control_jobs limit s = take (if ltb limit 1 then 1 else limit) (reverse s.jobs)

-- The keyword arguments that `update_control_job` allows; another name is refused there, and
-- cannot be written here.
pub data JobField : Type 0 where
  set_started_at set_completed_at set_attempts : ℕ → JobField
  set_status : JobStatus → JobField
  set_final_state : Option MinerState → JobField
  set_message : Message → JobField

set_field : JobField → ControlJob → ControlJob
set_field (set_started_at t) j = record j { started_at = some t }
set_field (set_completed_at t) j = record j { completed_at = some t }
set_field (set_attempts n) j = record j { attempts = n }
set_field (set_status st) j = record j { status = st }
set_field (set_final_state f) j = record j { final_state = f }
set_field (set_message m) j = record j { message = some m }

unfoldable pub set_fields : List JobField → ControlJob → ControlJob
unfolding set_field
set_fields [] j = j
set_fields (x ∷ xs) j = set_fields xs (set_field x j)

unfoldable pub update_control_job : ℕ → List JobField → ControlState → ControlState
unfolding set_fields
update_control_job job_id fields s = record s {
  jobs = update_rows (is_job job_id) (set_fields fields) s.jobs;
}

unfoldable pub set_last_command : ℕ → Action → ℕ → ControlState → ControlState
set_last_command miner_id action now s = record s {
  miners =
      update_miner miner_id (λ m. record m { last_action = some action; last_action_at = some now })
        s.miners;
}

unfoldable pub set_manual_override : ℕ → ℕ → ControlState → ControlState
set_manual_override miner_id override_until s = record s {
  miners =
      update_miner miner_id (λ m. record m { manual_override_until = some override_until })
        s.miners;
}

abbrev pub new_job : Miner → String → Action → MinerState → ℕ → ℕ → ℕ → ControlJob
new_job miner source action target max_attempts now job_id = record {
  id = job_id;
  created_at = now;
  started_at = none;
  completed_at = none;
  miner_id = miner.id;
  ip = miner.ip;
  name = miner.name;
  source = source;
  action = action;
  target_state = target;
  status = queued;
  attempts = 0;
  max_attempts = max_attempts;
  final_state = none;
  message = none;
}

-- The new state; the id of the new row is the old `next_job`.
unfoldable pub create_control_job :
    Miner → String → Action → MinerState → ℕ → ℕ → ControlState → ControlState
create_control_job miner source action target max_attempts now s = record s {
  jobs = s.jobs ++ new_job miner source action target max_attempts now s.next_job ∷ [];
  next_job = s.next_job + 1;
}

abbrev pub abort_job : ℕ → ControlJob → ControlJob
abort_job now j = record j { status = aborted; completed_at = some now; message = some restarted }

-- The UPDATE of control_jobs in `init_db`.
unfoldable pub abort_unfinished_jobs : ℕ → ControlState → ControlState
abort_unfinished_jobs now s = record s { jobs = update_rows active_job (abort_job now) s.jobs }
