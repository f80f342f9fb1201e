-- ===== src/Control/Bulk/Execution.antt =====
-- The run of a bulk command (app/control/bulk.py, execute_bulk_control). The functions `queue_control`
-- and `queue_reboot` that it is given are those of `Control.Queue`; `now` is the time at which the turn
-- of a target comes.
pub mod Frame
pub mod Keeps
pub mod Delivery
use open_asicmanager.Prelude.{
  ℕ, ◌+◌, ◌-◌, String, Bool, true, false, not, ◌&&◌, Option, none, some, List, [], ◌∷◌, ◌++◌,
  if◌then◌else◌, length, count_rows, Result, ok, raised, raise_if, ◌>>=◌, ◌>>◌,
}
use open_asicmanager.Fleet.{Action, pause, resume, reboot, Miner, MinerState}
use open_asicmanager.Groups.{Group}
use open_asicmanager.Values.{Json}
use open_asicmanager.Control.{
  ControlState, JobStatus, LogEvent, bulk_action_rejected, Message, bulk_rejected,
  bulk_queue_failure, Rejection, has_active_job, not_accepted, queue_error, Fault,
}
use open_asicmanager.Control.Queue.{QueueRuntime, QueueReply, Outcome, queue_control, queue_reboot}
use open_asicmanager.Control.Bulk.{BulkError, confirm_required}
use open_asicmanager.Control.Bulk.Requests.{normalize_bulk_control_action}
use open_asicmanager.Control.Bulk.Selection.{
  ActiveJob, Target, Internal, public_of, Resolved, resolve_bulk_control_selection,
}

-- What is reported of a target. `job` holds job_status, job_action and target_state of an accepted one.
pub record BulkResult : Type 0 where
  pub target : Target
  pub accepted : Bool
  pub queued : Bool
  pub job_id : Option ℕ
  pub job : Option ActiveJob

job_id_of : Option ActiveJob → Option ℕ
job_id_of none = none
job_id_of (some j) = some j.job_id

rejected_result : Target → BulkResult
unfolding job_id_of
rejected_result target = record {
  target = target;
  accepted = false;
  queued = false;
  job_id = job_id_of target.active_job;
  job = none;
}

abbrev pub rejected_event : Action → Option Miner → Message → LogEvent
rejected_event action miner text = record {
  source = "MANUAL";
  event = bulk_action_rejected action;
  miner = miner;
  success = false;
  text = text;
}

abbrev pub logged : LogEvent → ControlState → ControlState
logged e s = record s { log = s.log ++ e ∷ [] }

-- The id is told for an unknown miner.
told_id : Target → Option ℕ
told_id target = elim target.miner [ none ↦ some target.miner_id | some m ↦ none ]

abbrev pub reply_job : QueueReply → ActiveJob
reply_job reply = record {
  job_id = reply.job_id;
  status = reply.status;
  action = reply.action;
  target_state = reply.target_state;
}

already_active_result : Target → QueueReply → BulkResult
already_active_result target reply = record {
  target = record target {
    eligible = false;
    rejection = some has_active_job;
    active_job = some (reply_job reply);
  };
  accepted = false;
  queued = false;
  job_id = some reply.job_id;
  job = none;
}

accepted_result : Target → QueueReply → BulkResult
accepted_result target reply = record {
  target = target;
  accepted = true;
  queued = true;
  job_id = some reply.job_id;
  job = some (reply_job reply);
}

failed_result : Target → Rejection → BulkResult
failed_result target failure = record {
  target = record target { rejection = some failure };
  accepted = false;
  queued = false;
  job_id = none;
  job = none;
}

-- `except Exception`
failure : Action → Target → Rejection → ControlState → BulkResult × ControlState
unfolding failed_result
failure action target why s = (
  failed_result target why,
  logged (rejected_event action target.miner (bulk_queue_failure why)) s,
)

-- What follows the call of the queue.
after_queue : Action → Target → Outcome → BulkResult × ControlState
unfolding already_active_result accepted_result failure
after_queue action target (raised e, s) = failure action target (queue_error e) s
after_queue action target (ok reply, s) =
    if reply.already_active
    then (
      already_active_result target reply,
      logged (rejected_event action target.miner (bulk_rejected has_active_job none)) s,
    )
    else if reply.accepted
    then (accepted_result target reply, s)
    else failure action target not_accepted s

unfoldable pub call_queue : QueueRuntime → ℕ → Action → ℕ → ControlState → Outcome
call_queue runtime now reboot miner_id s = queue_reboot runtime now miner_id s
call_queue runtime now pause miner_id s = queue_control runtime now miner_id pause true s
call_queue runtime now resume miner_id s = queue_control runtime now miner_id resume true s

-- One pass of the loop.
pub serve_public :
    QueueRuntime
    → (ℕ → ℕ)
    → Action
    → Target
    → Option Rejection
    → ControlState
    → BulkResult × ControlState
unfolding rejected_result told_id after_queue call_queue
serve_public runtime now action target (some why) s = (
  rejected_result target,
  logged (rejected_event action target.miner (bulk_rejected why (told_id target))) s,
)
serve_public runtime now action target none s =
    after_queue action target (call_queue runtime (now target.miner_id) action target.miner_id s)

unfoldable pub serve :
    QueueRuntime → (ℕ → ℕ) → Action → Internal → ControlState → BulkResult × ControlState
unfolding serve_public
serve runtime now action internal s =
    serve_public runtime now action (public_of internal) (public_of internal).rejection s

unfoldable pub serve_all :
    QueueRuntime → (ℕ → ℕ) → Action → List Internal → ControlState → List BulkResult × ControlState
unfolding serve
serve_all runtime now action [] s = ([], s)
serve_all runtime now action (internal ∷ rest) s =
    let first = serve runtime now action internal s in
    let later = serve_all runtime now action rest first.1 in (first.0 ∷ later.0, later.1)

pub record BulkReport : Type 0 where
  pub action : Action
  pub selection : Option Group
  pub requested_count : ℕ
  pub accepted_count : ℕ
  pub rejected_count : ℕ
  pub results : List BulkResult

abbrev pub was_accepted : BulkResult → Bool
was_accepted r = r.accepted

report : Action → Resolved → List BulkResult → BulkReport
report action resolved results =
    let accepted_count = count_rows was_accepted results in
    record {
      action = action;
      selection = resolved.selection;
      requested_count = length results;
      accepted_count = accepted_count;
      rejected_count = length results - accepted_count;
      results = results;
    }

is_reboot : Action → Bool
is_reboot reboot = true
is_reboot _ = false

execute_checks : String → Json → List Group → ControlState → Result BulkError (Action × Resolved)
unfolding is_reboot
execute_checks word payload groups s = do
  action ← normalize_bulk_control_action word
  resolved ← resolve_bulk_control_selection payload groups s
  raise_if (is_reboot action && not resolved.normalized.confirm_reboot) confirm_required
  ok (action, resolved)

run_checked :
    QueueRuntime
    → (ℕ → ℕ)
    → Result BulkError (Action × Resolved)
    → ControlState
    → Result BulkError BulkReport × ControlState
unfolding report
run_checked runtime now (raised e) s = (raised e, s)
run_checked runtime now (ok (action, resolved)) s =
    let served = serve_all runtime now action resolved.targets s in
    (ok (report action resolved served.0), served.1)

unfoldable pub execute_bulk_control :
    QueueRuntime
    → (ℕ → ℕ)
    → String
    → Json
    → List Group
    → ControlState
    → Result BulkError BulkReport × ControlState
unfolding execute_checks run_checked
execute_bulk_control runtime now word payload groups s =
    run_checked runtime now (execute_checks word payload groups s) s
