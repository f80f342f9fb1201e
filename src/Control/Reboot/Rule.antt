-- ===== src/Control/Reboot/Rule.antt =====
-- The rule for `reboot_worker` (app/control/worker.py): what polls and UPDATEs keep, and what every
-- way out then has, holds of the whole run.
use open_asicmanager.Prelude.{
  ℕ, Bool, true, false, Option, none, some, String, List, [], ◌∷◌, leb, Bool-cases, inl, inr,
}
use open_asicmanager.Fleet.{reboot, Miner, MinerState, get_miner}
use open_asicmanager.Control.{Message, EventName, ControlState}
use open_asicmanager.Control.Jobs.{set_last_command}
use open_asicmanager.Control.Worker.{
  Reply, answered, refused, log_event, finish_control_job, WorkerEnd, finished, abandoned, waiting,
}
use open_asicmanager.Control.Reboot.{
  RebootRound, Reboot, RebootRun, reboot_stable_polls, next_stable, shows_reboot, before_deadline,
  state_of, Transition, seen, unseen, cut, short, note_transition, TransitionStep, onward, stops,
  check_transition, transition_pass, transition_loop, Return, note_return, ReturnStep, again, over,
  check_return, return_pass, return_loop, after_transition, after_send,
}

-- What both loops keep: a property of the shared state that the polls and the UPDATEs keep.
module _ (b : Reboot) (P : ControlState → Type 0)
    (polled : (ms : List Miner) (s : ControlState) → P s → P (record s { miners = ms }))
    (seen_noted : (st : MinerState) (s : ControlState) → P s → P (note_transition b st s))
    (back_noted : (st : MinerState) (n : ℕ) (s : ControlState) → P s → P (note_return b st n s))
    (R : WorkerEnd → ControlState → Type 0)
    (left_abandoned : (s : ControlState) → P s → R abandoned s)
    (left_waiting : (s : ControlState) → P s → R waiting s)
    (failed : (now : ℕ) (m : Option Miner) (final : Option MinerState) (text : Message)
        (s : ControlState)
      → P s
      → R (finished false) (finish_control_job now b.job_id m b.source reboot false final text s))
    (succeeded : (now : ℕ) (m : Option Miner) (final : Option MinerState) (text : Message)
        (s : ControlState)
      → P s
      → R (finished true) (finish_control_job now b.job_id m b.source reboot true final text s))
    (logged : (source : String) (e : EventName) (m : Option Miner) (ok : Bool) (text : Message)
        (s : ControlState)
      → P s
      → P (log_event source e m ok text s)) where
  abbrev Leaves : Transition → Type 0
  Leaves (seen st s) = P s
  Leaves (unseen now s) = P s
  Leaves (cut s) = P s
  Leaves (short s) = P s

  abbrev StepLeaves : TransitionStep → Type 0
  StepLeaves (onward s) = P s
  StepLeaves (stops out) = Leaves out

  check-Leaves : (o : Option Miner) (s : ControlState) → P s → StepLeaves (check_transition b o s)
  unfolding check_transition
  check-Leaves none s p = p
  check-Leaves (some m) s p = elim (Bool-cases (shows_reboot b.initial_state (state_of m))) [
    | inl e ↦ rw e (seen_noted (state_of m) s p)
    | inr e ↦ rw e (seen_noted (state_of m) s p)
  ]

  transition_pass-Leaves :
      (deadline : ℕ) (r : RebootRound) (s : ControlState)
      → P s
      → StepLeaves (transition_pass b deadline r s)
  unfolding transition_pass
  transition_pass-Leaves deadline r s p = elim (Bool-cases (before_deadline deadline r)) [
    | inr e ↦ rw e p
    | inl e ↦ elim (Bool-cases r.wait_stopped) [
      | inl w ↦ rw e (simp w p)
      | inr w ↦ rw e (simp w (check-Leaves _ _ (polled (r.poll s.miners) s p)))
    ]
  ]

  step-Leaves :
      (deadline : ℕ) (rs : List RebootRound) (p : TransitionStep)
      → StepLeaves p
      → ((s : ControlState) → P s → Leaves (transition_loop b deadline rs s))
      → Leaves (elim p [ onward t ↦ transition_loop b deadline rs t | stops out ↦ out ])
  step-Leaves deadline rs (onward t) h ih = ih t h
  step-Leaves deadline rs (stops out) h ih = h

  transition_loop-Leaves :
      (deadline : ℕ) (rs : List RebootRound) (s : ControlState)
      → P s
      → Leaves (transition_loop b deadline rs s)
  unfolding transition_loop
  transition_loop-Leaves deadline [] s p = p
  transition_loop-Leaves deadline (r ∷ rs) s p =
      step-Leaves deadline rs (transition_pass b deadline r s)
        (transition_pass-Leaves deadline r s p) (transition_loop-Leaves deadline rs)

  abbrev StepEnds : ReturnStep → Type 0
  StepEnds (again l) = P l.state
  StepEnds (over e s) = R e s

  check-Ends :
      (st : MinerState) (now : ℕ) (o : Option Miner) (n : ℕ) (final : MinerState) (s : ControlState)
      → P s
      → StepEnds (check_return b st now o n final s)
  unfolding check_return
  check-Ends st now none n final s p = p
  check-Ends st now (some m) n final s p =
      elim (Bool-cases (leb reboot_stable_polls (next_stable (state_of m) n))) [
        | inl e ↦ rw e (succeeded now (some m) _ _ _ (back_noted (state_of m) n s p))
        | inr e ↦ rw e (back_noted (state_of m) n s p)
      ]

  return_pass-Ends :
      (st : MinerState) (deadline : ℕ) (r : RebootRound) (l : Return)
      → P l.state
      → StepEnds (return_pass b st deadline r l)
  unfolding return_pass
  return_pass-Ends st deadline r l p = elim (Bool-cases (before_deadline deadline r)) [
    | inr e ↦ rw e (failed r.now _ _ _ l.state p)
    | inl e ↦ elim (Bool-cases r.wait_stopped) [
      | inl w ↦ rw e (simp w (left_abandoned l.state p))
      | inr w ↦ rw e (
          simp w (
            check-Ends st r.now (get_miner b.miner_id (r.poll l.state.miners)) l.stable_polls
              l.final_state _ (polled (r.poll l.state.miners) l.state p)))
    ]
  ]

  step-Ends :
      (st : MinerState) (deadline : ℕ) (rs : List RebootRound) (p : ReturnStep)
      → StepEnds p
      → ((l : Return)
          → P l.state
          → R (return_loop b st deadline rs l).0 (return_loop b st deadline rs l).1)
      → let out : WorkerEnd × ControlState = elim p [
        | again l ↦ return_loop b st deadline rs l
        | over e s ↦ (e, s)
      ] in
        R out.0 out.1
  step-Ends st deadline rs (again l) h ih = ih l h
  step-Ends st deadline rs (over e s) h ih = h

  return_loop-Ends :
      (st : MinerState) (deadline : ℕ) (rs : List RebootRound) (l : Return)
      → P l.state
      → R (return_loop b st deadline rs l).0 (return_loop b st deadline rs l).1
  unfolding return_loop
  return_loop-Ends st deadline [] l p = left_waiting l.state p
  return_loop-Ends st deadline (r ∷ rs) l p =
      step-Ends st deadline rs (return_pass b st deadline r l) (return_pass-Ends st deadline r l p)
        (return_loop-Ends st deadline rs)

  after_transition-Ends :
      (run : RebootRun) (t : Transition)
      → Leaves t
      → R (after_transition b run t).0 (after_transition b run t).1
  unfolding after_transition
  after_transition-Ends run (seen st s) p =
      return_loop-Ends st _ run.return_rounds _ (logged _ _ _ _ _ s p)
  after_transition-Ends run (unseen now s) p = failed now _ _ _ s p
  after_transition-Ends run (cut s) p = left_abandoned s p
  after_transition-Ends run (short s) p = left_waiting s p

  pub after_send-Ends :
      (run : RebootRun) (reply : Reply) (s : ControlState)
      → P s
      → R (after_send b run reply s).0 (after_send b run reply s).1
  unfolding after_send set_last_command
  after_send-Ends run (refused error) s p = failed run.now _ _ _ s p
  after_send-Ends run (answered response) s p =
      after_transition-Ends run _
        (transition_loop-Leaves _ run.transition_rounds _ (logged _ _ _ _ _ _ (polled _ s p)))
