-- ===== src/Control/Reboot.antt =====
-- Verified reboot (`reboot_worker`, app/control/worker.py). The environment is given as in
-- `Control.Worker`, with one list of rounds for each of the two phases. The theorems are in the
-- modules below.
pub mod Phases
mod Rule
pub mod Ends
pub mod Row
use open_asicmanager.Prelude.{
  ℕ, zero, suc, ◌+◌, String, Bool, true, false, ◌&&◌, ◌||◌, not, Option, none, some, List, [], ◌∷◌,
  ltb, leb, if◌then◌else◌, get_or,
}
use open_asicmanager.Fleet.{
  reboot, Miner, MinerState, mining, paused, starting, restarting, offline, unknown, state_eq,
  get_miner,
}
use open_asicmanager.Control.{
  ControlJob, running, failed, action_sent, reboot_transition, Message, miner_not_found,
  sending_reboot, reboot_not_sent, reboot_sent, waiting_transition, transition_not_observed,
  transition_observed, waiting_return, reboot_verified, return_timeout, ControlState,
}
use open_asicmanager.Control.Jobs.{
  get_control_job, set_started_at, set_completed_at, set_attempts, set_status, set_final_state,
  set_message, update_control_job, set_last_command,
}
use open_asicmanager.Control.Worker.{
  seconds, Reply, answered, refused, dispatch, issue, log_event, finish_control_job, WorkerEnd,
  finished, no_job, no_miner, abandoned, waiting,
}

abbrev pub reboot_transition_timeout : ℕ
reboot_transition_timeout = 120

abbrev pub reboot_return_timeout : ℕ
reboot_return_timeout = 600

abbrev pub reboot_stable_polls : ℕ
reboot_stable_polls = 2

-- One pass of either loop.
pub record RebootRound : Type 0 where
  pub stop_set : Bool  -- stop_event.is_set()
  pub head_time : ℕ  -- monotonic, in the test of the loop
  pub wait_stopped : Bool  -- stop_event.wait(REBOOT_POLL_INTERVAL)
  pub poll : List Miner → List Miner  -- poll_miner, and what others wrote to the miners meanwhile
  pub now : ℕ  -- the wall clock

-- What the two loops read and do not change. `miner` is the row read at the start.
pub record Reboot : Type 0 where
  pub job_id : ℕ
  pub miner_id : ℕ
  pub source : String
  pub miner : Miner
  pub initial_state : MinerState

-- The environment of a whole run.
pub record RebootRun : Type 0 where
  pub now : ℕ  -- the wall clock when the worker begins
  pub device : Reply  -- the firmware's reply to the command
  pub sent_time : ℕ  -- monotonic, when the first loop begins
  pub transition_rounds : List RebootRound
  pub seen_time : ℕ  -- monotonic, when the second loop begins
  pub return_rounds : List RebootRound

unfoldable pub before_deadline : ℕ → RebootRound → Bool
before_deadline deadline r = not r.stop_set && ltb r.head_time deadline

-- state in ("OFFLINE", "UNKNOWN"), or a start that was not there before
unfoldable pub shows_reboot : MinerState → MinerState → Bool
unfolding state_eq
shows_reboot initial state =
    state_eq state offline
    || state_eq state unknown
    || ((state_eq state starting || state_eq state restarting) && not (state_eq state initial))

-- state in ("MINING", "PAUSED")
unfoldable pub operational : MinerState → Bool
operational mining = true
operational paused = true
operational _ = false

abbrev pub state_of : Miner → MinerState
state_of m = get_or m.last_state unknown

-- PHASE 1. How the loop ends: a transition was seen, its time is over, the worker returned, or
-- the rounds are used up.
pub data Transition : Type 0 where
  seen : MinerState → ControlState → Transition
  unseen : ℕ → ControlState → Transition
  cut short : ControlState → Transition

unfoldable pub note_transition : Reboot → MinerState → ControlState → ControlState
unfolding update_control_job
note_transition b state s =
    update_control_job b.job_id
      (set_final_state (some state) ∷ set_message (waiting_transition state) ∷ []) s

pub data TransitionStep : Type 0 where
  onward : ControlState → TransitionStep
  stops : Transition → TransitionStep

-- Once the row is read again.
unfoldable pub check_transition : Reboot → Option Miner → ControlState → TransitionStep
unfolding note_transition shows_reboot
check_transition b none s = onward s
check_transition b (some fresh) s =
    let t = note_transition b (state_of fresh) s in
    if shows_reboot b.initial_state (state_of fresh)
    then stops (seen (state_of fresh) t)
    else onward t

unfoldable pub transition_pass : Reboot → ℕ → RebootRound → ControlState → TransitionStep
unfolding before_deadline check_transition get_miner
transition_pass b deadline r s =
    if not (before_deadline deadline r)
    then stops (unseen r.now s)
    else if r.wait_stopped
    then stops (cut s)
    else check_transition b (get_miner b.miner_id (r.poll s.miners))
        (record s { miners = r.poll s.miners })

unfoldable pub transition_loop : Reboot → ℕ → List RebootRound → ControlState → Transition
transition_loop b deadline [] s = short s
transition_loop b deadline (r ∷ rs) s = elim (transition_pass b deadline r s) [
  | onward t ↦ transition_loop b deadline rs t
  | stops out ↦ out
]

-- PHASE 2. The local variables.
pub record Return : Type 0 where
  pub stable_polls : ℕ
  pub final_state : MinerState
  pub state : ControlState

unfoldable pub note_return : Reboot → MinerState → ℕ → ControlState → ControlState
unfolding update_control_job
note_return b state stable s =
    update_control_job b.job_id
      (set_final_state (some state) ∷ set_message (waiting_return state stable) ∷ []) s

abbrev pub next_stable : MinerState → ℕ → ℕ
next_stable state stable = if operational state then stable + 1 else 0

state_or_none : Option Miner → Option MinerState → Option MinerState
state_or_none none last = last
state_or_none (some m) last = m.last_state

miner_or : Option Miner → Miner → Miner
miner_or none m = m
miner_or (some fresh) m = fresh

-- RETURN TIMEOUT
unfoldable pub return_late : Reboot → ℕ → Return → ControlState
unfolding get_miner finish_control_job state_or_none miner_or
return_late b now l =
    let fresh = get_miner b.miner_id l.state.miners in
    finish_control_job now b.job_id (some (miner_or fresh b.miner)) b.source reboot false
      (some (get_or (state_or_none fresh (some l.final_state)) unknown)) return_timeout l.state

unfoldable pub return_verified :
    Reboot → MinerState → ℕ → Miner → MinerState → ℕ → ControlState → ControlState
unfolding finish_control_job
return_verified b transition now fresh state stable s =
    finish_control_job now b.job_id (some fresh) b.source reboot true (some state)
      (reboot_verified transition state stable) s

pub data ReturnStep : Type 0 where
  again : Return → ReturnStep
  over : WorkerEnd → ControlState → ReturnStep

-- Once the row is read again.
unfoldable pub check_return :
    Reboot → MinerState → ℕ → Option Miner → ℕ → MinerState → ControlState → ReturnStep
unfolding operational note_return return_verified
check_return b transition now none stable final s =
    again (record { stable_polls = 0; final_state = final; state = s })
check_return b transition now (some fresh) stable final s =
    let state = state_of fresh in
    let t = note_return b state stable s in
    if leb reboot_stable_polls (next_stable state stable)
    then over (finished true)
        (return_verified b transition now fresh state (next_stable state stable) t)
    else again (record { stable_polls = next_stable state stable; final_state = state; state = t })

unfoldable pub return_pass : Reboot → MinerState → ℕ → RebootRound → Return → ReturnStep
unfolding before_deadline check_return return_late get_miner
return_pass b transition deadline r l =
    if not (before_deadline deadline r)
    then over (finished false) (return_late b r.now l)
    else if r.wait_stopped
    then over abandoned l.state
    else check_return b transition r.now (get_miner b.miner_id (r.poll l.state.miners))
        l.stable_polls l.final_state (record l.state { miners = r.poll l.state.miners })

unfoldable pub return_loop :
    Reboot → MinerState → ℕ → List RebootRound → Return → WorkerEnd × ControlState
return_loop b transition deadline [] l = (waiting, l.state)
return_loop b transition deadline (r ∷ rs) l = elim (return_pass b transition deadline r l) [
  | again l' ↦ return_loop b transition deadline rs l'
  | over e s ↦ (e, s)
]

-- From the end of the first phase on.
unfoldable pub after_transition : Reboot → RebootRun → Transition → WorkerEnd × ControlState
unfolding get_miner log_event finish_control_job state_or_none miner_or
after_transition b run (cut s) = (abandoned, s)
after_transition b run (short s) = (waiting, s)
after_transition b run (unseen now s) =
    let fresh = get_miner b.miner_id s.miners in
    (
      finished false,
      finish_control_job now b.job_id (some (miner_or fresh b.miner)) b.source reboot false
          (state_or_none fresh (some b.initial_state)) transition_not_observed s,
    )
after_transition b run (seen transition s) =
    return_loop b transition (run.seen_time + seconds reboot_return_timeout) run.return_rounds
      (record {
        stable_polls = 0;
        final_state = transition;
        state =
            log_event b.source reboot_transition
              (some (miner_or (get_miner b.miner_id s.miners) b.miner)) true
              (transition_observed transition) s;
      })

abbrev pub reboot_of : ControlJob → Miner → Reboot
reboot_of job miner = record {
  job_id = job.id;
  miner_id = job.miner_id;
  source = job.source;
  miner = miner;
  initial_state = state_of miner;
}

-- SEND EXACTLY ONCE
unfoldable pub after_send : Reboot → RebootRun → Reply → ControlState → WorkerEnd × ControlState
unfolding log_event set_last_command finish_control_job
after_send b run (refused error) s = (
  finished false,
  finish_control_job run.now b.job_id (some b.miner) b.source reboot false (some b.initial_state)
      (reboot_not_sent error) s,
)
after_send b run (answered response) s = after_transition b run (
    transition_loop b (run.sent_time + seconds reboot_transition_timeout) run.transition_rounds (
      log_event b.source (action_sent reboot) (some b.miner) true (reboot_sent response)
        (set_last_command b.miner_id reboot run.now s)))

abbrev pub reboot_not_supported : String
reboot_not_supported = "RuntimeError: Reboot unsupported for this firmware"

unfoldable pub begin_reboot : Reboot → ℕ → ControlState → ControlState
unfolding update_control_job
begin_reboot b now s =
    update_control_job b.job_id
      (set_status running
        ∷ set_started_at now
        ∷ set_attempts 1
        ∷ set_final_state (some b.initial_state)
        ∷ set_message sending_reboot
        ∷ [])
      s

reboot_miner : ControlJob → Option Miner → RebootRun → ControlState → WorkerEnd × ControlState
unfolding begin_reboot dispatch issue update_control_job
reboot_miner job none run s = (
  no_miner,
  update_control_job job.id
      (set_status failed ∷ set_completed_at run.now ∷ set_message miner_not_found ∷ []) s,
)
reboot_miner job (some miner) run s =
    let b = reboot_of job miner in
    after_send b run (dispatch (some miner) reboot_not_supported run.device)
      (issue (some miner) b.miner_id reboot (begin_reboot b run.now s))

reboot_job : Option ControlJob → RebootRun → ControlState → WorkerEnd × ControlState
unfolding reboot_miner get_miner
reboot_job none run s = (no_job, s)
reboot_job (some job) run s = reboot_miner job (get_miner job.miner_id s.miners) run s

unfoldable pub reboot_worker : ℕ → RebootRun → ControlState → WorkerEnd × ControlState
unfolding reboot_job get_control_job
reboot_worker job_id run s = reboot_job (get_control_job job_id s) run s
