-- ===== src/Control/Worker.antt =====
-- Verified pause and resume (app/control/worker.py). The clock, the stop flag, the firmware's reply
-- and the poll are the worker's environment: the model takes them as a list of rounds, one for each
-- pass of the loop, so that a run over any rounds is a run of the worker. `time.monotonic()` is read
-- in milliseconds and `time.time()` in seconds. The theorems are in the modules below.
mod Rule
pub mod Row
pub mod Ends
pub mod Sends
pub mod Keeps
pub mod Stuck
pub mod Halts
use open_asicmanager.Prelude.{
  ℕ, zero, suc, ◌+◌, ◌-◌, ◌*◌, String, Bool, true, false, ◌&&◌, not, Option, none, some, List, [],
  ◌∷◌, ◌++◌, ◌==◌, ltb, leb, if◌then◌else◌, get_or, Result, ok, raised,
}
use open_asicmanager.Fleet.{Action, Miner, MinerState, unknown, state_eq, supported, get_miner}
use open_asicmanager.Control.{
  ControlJob, JobStatus, running, verified, failed, Fault, LogEvent, EventName, action_sent,
  action_retry, action_send_failed, action_verified, action_failed, Message, miner_not_found,
  waiting_for, verified_target, not_sent, verification_timeout, attempt_sent, attempt_raised,
  ControlState,
}
use open_asicmanager.Control.Policy.{control_timeout, control_retry_after, should_retry_command}
use open_asicmanager.Control.Jobs.{
  get_control_job, JobField, set_started_at, set_completed_at, set_attempts, set_status,
  set_final_state, set_message, update_control_job, set_last_command,
}
use open_asicmanager.Control.Queue.{control_max_attempts}

-- Milliseconds.
abbrev pub seconds : ℕ → ℕ
seconds n = 1000 * n

-- What a driver's call does: it returns the device's response, or raises.
pub data Reply : Type 0 where
  answered : Option String → Reply
  refused : String → Reply

-- `control` and `send_reboot_command` of app/control/dispatch.py: `device` is what the driver's
-- transport would do. A missing miner is a TypeError, another firmware a RuntimeError.
unfoldable pub dispatch : Option Miner → String → Reply → Reply
dispatch none unsupported device = refused "TypeError: 'NoneType' object is not subscriptable"
dispatch (some m) unsupported device = if supported m.driver then device else refused unsupported

reaches_driver : Option Miner → Bool
reaches_driver none = false
reaches_driver (some m) = supported m.driver

-- The command is on its way to the device, whatever comes back.
unfoldable pub issue : Option Miner → ℕ → Action → ControlState → ControlState
unfolding reaches_driver
issue found miner_id action s =
    if reaches_driver found then record s { issued = s.issued ++ (miner_id, action) ∷ [] } else s

unfoldable pub log_event :
    String → EventName → Option Miner → Bool → Message → ControlState → ControlState
log_event source event miner success text s = record s {
  log =
      s.log
      ++ record { source = source; event = event; miner = miner; success = success; text = text }
        ∷ [];
}

abbrev pub end_status : Bool → JobStatus
end_status success = if success then verified else failed

abbrev pub end_event : Bool → Action → EventName
end_event success action = if success then action_verified action else action_failed action

unfoldable pub finish_control_job :
    ℕ
    → ℕ
    → Option Miner
    → String
    → Action
    → Bool
    → Option MinerState
    → Message
    → ControlState
    → ControlState
unfolding update_control_job log_event
finish_control_job now job_id miner source action success final message s =
    log_event source (end_event success action) miner success message (
      update_control_job job_id
        (set_status (end_status success)
          ∷ set_completed_at now
          ∷ set_final_state final
          ∷ set_message message
          ∷ [])
        s)

-- One pass of the loop, as the environment makes it.
pub record Round : Type 0 where
  pub stop_set : Bool  -- stop_event.is_set()
  pub head_time : ℕ  -- monotonic, in the test of the loop
  pub retry_time : ℕ  -- monotonic, in the test for another attempt
  pub device : Reply  -- the firmware's reply, if a command is sent
  pub sent_time : ℕ  -- monotonic, after the call
  pub wait_stopped : Bool  -- stop_event.wait(CONTROL_VERIFY_INTERVAL)
  pub poll : List Miner → List Miner  -- poll_miner, and what others wrote to the miners meanwhile
  pub now : ℕ  -- the wall clock

-- The local variables that stay the same in the loop.
pub record Verification : Type 0 where
  pub job_id : ℕ
  pub miner_id : ℕ
  pub action : Action
  pub source : String
  pub target : MinerState
  pub timeout_seconds : ℕ
  pub retry_after : ℕ
  pub deadline : ℕ

-- Those that change, with the state that is shared.
pub record Loop : Type 0 where
  pub attempts : ℕ
  pub last_send : ℕ
  pub last_state : MinerState
  pub state : ControlState

-- `finished b`: the job ended as VERIFIED or FAILED. `abandoned`: the worker returned and left the
-- job as it was. `crashed`: an exception left the worker. `waiting`: the rounds are used up.
pub data WorkerEnd : Type 0 where
  finished : Bool → WorkerEnd
  no_job no_miner abandoned crashed waiting : WorkerEnd

pub data Progress : Type 0 where
  going : Loop → Progress
  ended : WorkerEnd → ControlState → Progress

unfoldable pub need_send : Verification → Round → Loop → Bool
unfolding should_retry_command
need_send v r l =
    if l.attempts == 0
    then true
    else ltb l.attempts control_max_attempts
      && leb (seconds v.retry_after) (r.retry_time - l.last_send)
      && should_retry_command v.action l.last_state

-- The command was sent: `set_last_command` and the event.
after_answer : Verification → Round → Option Miner → Option String → Loop → Loop
unfolding log_event
after_answer v r miner response l = record l {
  last_send = r.sent_time;
  state =
      log_event v.source (if l.attempts == 1 then action_sent v.action else action_retry v.action)
        miner true (attempt_sent l.attempts response)
        (set_last_command v.miner_id v.action r.now l.state);
}

-- The call raised: the event, and the end of the job if that was the last attempt. The other case
-- waits CONTROL_RETRY_DELAY_ON_ERROR seconds and goes on with the next pass.
after_error : Verification → Round → Option Miner → String → Loop → Progress
unfolding log_event finish_control_job
after_error v r miner error l =
    let s =
      log_event v.source (action_send_failed v.action) miner false (attempt_raised l.attempts error)
        l.state in
    if leb control_max_attempts l.attempts
    then ended (finished false) (
        finish_control_job r.now v.job_id miner v.source v.action false (some l.last_state)
          (not_sent l.attempts error) s)
    else going (record l { last_send = r.sent_time; state = s })

-- VERIFY REAL ASIC STATE, once the row is read again.
check_state : Verification → Round → Option Miner → Loop → ControlState → Progress
unfolding finish_control_job state_eq
check_state v r none l s = ended abandoned s
check_state v r (some fresh) l s =
    let last_state = get_or fresh.last_state unknown in
    let t =
      update_control_job v.job_id
        (set_final_state (some last_state)
          ∷ set_message (waiting_for v.target last_state l.attempts v.timeout_seconds)
          ∷ [])
        s in
    if state_eq last_state v.target
    then ended (finished true) (
        finish_control_job r.now v.job_id (some fresh) v.source v.action true (some last_state)
          (verified_target v.target l.attempts) t)
    else going (record l { last_state = last_state; state = t })

verify_state : Verification → Round → Loop → Progress
unfolding check_state get_miner
verify_state v r l =
    let s = record l.state { miners = r.poll l.state.miners } in
    if r.wait_stopped
    then ended abandoned l.state
    else check_state v r (get_miner v.miner_id s.miners) l s

send_reply : Verification → Round → Option Miner → Reply → Loop → Progress
unfolding after_answer after_error verify_state
send_reply v r miner (answered response) l = verify_state v r (after_answer v r miner response l)
send_reply v r miner (refused error) l = after_error v r miner error l

abbrev pub not_configured : String
not_configured = "RuntimeError: ASIC firmware is not configured"

-- SEND / RETRY
send_command : Verification → Round → Loop → Progress
unfolding send_reply dispatch issue update_control_job
send_command v r l =
    let attempts = l.attempts + 1 in
    let s = update_control_job v.job_id (set_attempts attempts ∷ []) l.state in
    let miner = get_miner v.miner_id s.miners in
    send_reply v r miner (dispatch miner not_configured r.device)
      (record l { attempts = attempts; state = issue miner v.miner_id v.action s })

-- The body of the loop.
unfoldable pub pass : Verification → Round → Loop → Progress
unfolding need_send send_command verify_state
pass v r l = if need_send v r l then send_command v r l else verify_state v r l

state_or : Option Miner → MinerState → MinerState
state_or none last = last
state_or (some m) last = get_or m.last_state last

-- TIMEOUT; also reached when the stop flag is seen at the head of the loop.
unfoldable pub time_out : Verification → Round → Loop → ControlState
unfolding state_or finish_control_job get_miner
time_out v r l =
    let miner = get_miner v.miner_id l.state.miners in
    let last_state = state_or miner l.last_state in
    finish_control_job r.now v.job_id miner v.source v.action false (some last_state)
      (verification_timeout v.target last_state l.attempts) l.state

-- The test of the loop.
unfoldable pub in_time : Verification → Round → Bool
in_time v r = not r.stop_set && ltb r.head_time v.deadline

unfoldable pub verify_loop : Verification → List Round → Loop → WorkerEnd × ControlState
verify_loop v [] l = (waiting, l.state)
verify_loop v (r ∷ rs) l = elim (in_time v r) [
  | false ↦ (finished false, time_out v r l)
  | true ↦ elim (pass v r l) [ going l' ↦ verify_loop v rs l' | ended e s ↦ (e, s) ]
]

abbrev pub verification : ControlJob → Miner → ℕ → ℕ → Verification
verification job miner timeout started = record {
  job_id = job.id;
  miner_id = job.miner_id;
  action = job.action;
  source = job.source;
  target = job.target_state;
  timeout_seconds = timeout;
  retry_after = control_retry_after miner;
  deadline = started + seconds timeout;
}

abbrev pub first_loop : Miner → ControlState → Loop
first_loop miner s = record {
  attempts = 0;
  last_send = 0;
  last_state = get_or miner.last_state unknown;
  state = s;
}

with_timeout :
    ControlJob → Miner → ℕ → Result Fault ℕ → List Round → ControlState → WorkerEnd × ControlState
unfolding verify_loop control_retry_after
with_timeout job miner started (raised e) rounds s = (crashed, s)
with_timeout job miner started (ok timeout) rounds s =
    verify_loop (verification job miner timeout started) rounds (first_loop miner s)

with_miner :
    ControlJob → Option Miner → ℕ → ℕ → List Round → ControlState → WorkerEnd × ControlState
unfolding with_timeout update_control_job control_timeout
with_miner job none now started rounds s = (
  no_miner,
  update_control_job job.id
      (set_status failed ∷ set_completed_at now ∷ set_message miner_not_found ∷ []) s,
)
with_miner job (some miner) now started rounds s =
    with_timeout job miner started (control_timeout job.action miner) rounds
      (update_control_job job.id (set_status running ∷ set_started_at now ∷ []) s)

with_job : Option ControlJob → ℕ → ℕ → List Round → ControlState → WorkerEnd × ControlState
unfolding with_miner get_miner
with_job none now started rounds s = (no_job, s)
with_job (some job) now started rounds s =
    with_miner job (get_miner job.miner_id s.miners) now started rounds s

-- `now` and `started` are the wall clock and the monotonic clock when the worker begins.
unfoldable pub verified_control_worker :
    ℕ → ℕ → ℕ → List Round → ControlState → WorkerEnd × ControlState
unfolding with_job get_control_job
verified_control_worker job_id now started rounds s =
    with_job (get_control_job job_id s) now started rounds s
