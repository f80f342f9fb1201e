-- ===== src/Control/Queue.antt =====
-- The control queue (app/control/queue.py). The part under `control_queue_lock` is one step of the
-- model, and the callbacks of `QueueRuntime` that the module is given are parameters. The laws are
-- in the modules below.
pub mod Outcomes
pub mod OneActive
pub mod Kept
pub mod Others
use open_asicmanager.Prelude.{
  ℕ, String, Bool, true, false, not, Option, none, some, List, [], ◌∷◌, ◌++◌, if◌then◌else◌, Result,
  ok, raised, raise_if, ◌>>=◌, ◌>>◌,
}
use open_asicmanager.Fleet.{
  Action, pause, resume, reboot, Miner, MinerState, rebooted, supported, get_miner,
}
use open_asicmanager.Control.{
  ControlJob, JobStatus, queued, Fault, invalid_action, no_such_miner, asic_disabled,
  firmware_not_configured, reboot_unsupported, LogEvent, EventName, action_queued, Message,
  job_target, job_reboot, Submission, verified_control_worker, reboot_worker, ControlState,
}
use open_asicmanager.Control.Policy.{control_target}
use open_asicmanager.Control.Jobs.{get_active_control_job, set_manual_override, create_control_job}

abbrev pub control_max_attempts : ℕ
control_max_attempts = 3

-- The callbacks: the name of the acting user behind a source, and the time (an epoch) of the next
-- schedule transition of a miner.
pub record QueueRuntime : Type 0 where
  pub audit_source : String → String
  pub next_transition : ℕ → Option ℕ

pub record QueueReply : Type 0 where
  pub accepted : Bool
  pub already_active : Bool
  pub job_id : ℕ
  pub status : JobStatus
  pub action : Action
  pub target_state : MinerState

found_miner : Option Miner → Result Fault Miner
found_miner none = raised no_such_miner
found_miner (some m) = ok m

-- The checks on the miner, the same in both functions but for the last error.
pub controllable_miner : ℕ → Fault → ControlState → Result Fault Miner
unfolding found_miner get_miner supported
controllable_miner miner_id unsupported s = do
  miner ← found_miner (get_miner miner_id s.miners)
  raise_if (not miner.enabled) asic_disabled
  raise_if (not (supported miner.driver)) unsupported
  ok miner

is_reboot : Action → Bool
is_reboot reboot = true
is_reboot _ = false

active_reply : ControlJob → QueueReply
active_reply active = record {
  accepted = false;
  already_active = true;
  job_id = active.id;
  status = active.status;
  action = active.action;
  target_state = active.target_state;
}

queued_reply : ℕ → Action → MinerState → QueueReply
queued_reply job_id action target = record {
  accepted = true;
  already_active = false;
  job_id = job_id;
  status = queued;
  action = action;
  target_state = target;
}

abbrev pub override_until : Option ℕ → ℕ
override_until none = 0
override_until (some epoch) = epoch

-- `runtime.log_event` and `control_executor.submit`.
log_and_submit : LogEvent → Submission → ControlState → ControlState
log_and_submit e w s = record s { log = s.log ++ e ∷ []; submitted = s.submitted ++ w ∷ [] }

abbrev pub queued_event : String → Action → Miner → Message → LogEvent
queued_event source action miner text = record {
  source = source;
  event = action_queued action;
  miner = some miner;
  success = true;
  text = text;
}

-- What follows the checks of `queue_reboot`, by the active job.
enqueue_reboot :
    QueueRuntime → ℕ → Miner → Option ControlJob → ControlState → QueueReply × ControlState
unfolding active_reply queued_reply log_and_submit create_control_job
enqueue_reboot runtime now miner (some active) s = (active_reply active, s)
enqueue_reboot runtime now miner none s =
    let job_id = s.next_job in
    let source = runtime.audit_source "MANUAL" in
    (
      queued_reply job_id reboot rebooted,
      log_and_submit (queued_event "MANUAL" reboot miner (job_reboot job_id)) (reboot_worker job_id)
          (create_control_job miner source reboot rebooted 1 now s),
    )

-- What follows the checks of `queue_control`, by the active job.
enqueue_control :
    QueueRuntime
    → ℕ
    → ℕ
    → Miner
    → Action
    → MinerState
    → Bool
    → Option ControlJob
    → ControlState
    → QueueReply × ControlState
unfolding active_reply queued_reply log_and_submit create_control_job set_manual_override
enqueue_control runtime now miner_id miner action target manual (some active) s =
    (active_reply active, s)
enqueue_control runtime now miner_id miner action target manual none s =
    let job_id = s.next_job in
    let source = if manual then runtime.audit_source "MANUAL" else "SCHEDULER" in
    let t =
      if manual
      then set_manual_override miner_id (override_until (runtime.next_transition miner_id)) s
      else s in
    (
      queued_reply job_id action target,
      log_and_submit (queued_event source action miner (job_target job_id target))
          (verified_control_worker job_id)
          (create_control_job miner source action target control_max_attempts now t),
    )

-- A call that may raise, with the state that it leaves.
abbrev pub Outcome : Type 0
Outcome = Result Fault QueueReply × ControlState

returns : QueueReply × ControlState → Outcome
returns (reply, s) = (ok reply, s)

after_reboot_checks : QueueRuntime → ℕ → ℕ → Result Fault Miner → ControlState → Outcome
unfolding returns enqueue_reboot get_active_control_job
after_reboot_checks runtime now miner_id (raised e) s = (raised e, s)
after_reboot_checks runtime now miner_id (ok miner) s =
    returns (enqueue_reboot runtime now miner (get_active_control_job miner_id s) s)

unfoldable pub queue_reboot : QueueRuntime → ℕ → ℕ → ControlState → Outcome
unfolding controllable_miner after_reboot_checks
queue_reboot runtime now miner_id s =
    after_reboot_checks runtime now miner_id (controllable_miner miner_id reboot_unsupported s) s

pub control_checks : ℕ → Action → ControlState → Result Fault (Miner × MinerState)
unfolding controllable_miner is_reboot control_target
control_checks miner_id action s = do
  raise_if (is_reboot action) invalid_action
  miner ← controllable_miner miner_id firmware_not_configured s
  target ← control_target action
  ok (miner, target)

after_control_checks :
    QueueRuntime
    → ℕ
    → ℕ
    → Action
    → Bool
    → Result Fault (Miner × MinerState)
    → ControlState
    → Outcome
unfolding returns enqueue_control get_active_control_job
after_control_checks runtime now miner_id action manual (raised e) s = (raised e, s)
after_control_checks runtime now miner_id action manual (ok (miner, target)) s = returns (
    enqueue_control runtime now miner_id miner action target manual
      (get_active_control_job miner_id s) s)

unfoldable pub queue_control : QueueRuntime → ℕ → ℕ → Action → Bool → ControlState → Outcome
unfolding control_checks after_control_checks
queue_control runtime now miner_id action manual s =
    after_control_checks runtime now miner_id action manual (control_checks miner_id action s) s
