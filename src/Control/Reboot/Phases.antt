-- ===== src/Control/Reboot/Phases.antt =====
-- What the two phases of a reboot see of the miner (app/control/worker.py): an independent account
-- of the states that the polls show, and that a reboot is verified exactly on that evidence.
use mathlib.Core.Path.{subst}
use open_asicmanager.Prelude.{
  sym, ap, ◌∙◌, ℕ, zero, suc, ◌≤◌, ◌≡◌, inl, inr, refl, Bool, true, false, ◌&&◌, ◌||◌, not, Option,
  none, some, List, [], ◌∷◌, arith, if◌then◌else◌, Bool-cases,
}
use open_asicmanager.Fleet.{Miner, MinerState, get_miner}
use open_asicmanager.Control.{ControlState}
use open_asicmanager.Control.Worker.{WorkerEnd, finished}
use open_asicmanager.Control.Reboot.{
  RebootRound, Reboot, before_deadline, shows_reboot, operational, state_of, Transition, seen,
  TransitionStep, onward, stops, check_transition, transition_pass, transition_loop, Return,
  ReturnStep, again, over, check_return, return_pass, return_loop,
}

abbrev pub state? : Option Miner → Option MinerState
state? none = none
state? (some m) = some (state_of m)

-- What each poll shows of the miner, when its row is there.
abbrev pub observations : ℕ → List Miner → List RebootRound → List (Option MinerState)
observations i ms [] = []
observations i ms (r ∷ rs) = state? (get_miner i (r.poll ms)) ∷ observations i (r.poll ms) rs

-- The passes before the deadline and before a shutdown.
abbrev pub live : ℕ → List RebootRound → List RebootRound
live deadline [] = []
live deadline (r ∷ rs) =
    let rest = live deadline rs in
    if before_deadline deadline r && not r.wait_stopped then r ∷ rest else []

abbrev pub operational? : Option MinerState → Bool
operational? none = false
operational? (some st) = operational st

abbrev pub starts_operational : List (Option MinerState) → Bool
starts_operational [] = false
starts_operational (o ∷ os) = operational? o

-- Two polls in a row show the miner mining or paused.
abbrev pub two_operational : List (Option MinerState) → Bool
two_operational [] = false
two_operational (o ∷ os) = (operational? o && starts_operational os) || two_operational os

-- What a loop with `stable` good polls behind it still waits for.
abbrev pub awaited : ℕ → List (Option MinerState) → Bool
awaited zero os = two_operational os
awaited (suc n) os = starts_operational os || two_operational os

abbrev pub verified? : WorkerEnd → Bool
verified? (finished true) = true
verified? _ = false

-- What the rest of the loop makes of the outcome of a pass.
abbrev after_step : (Return → Bool) → ReturnStep → Bool
after_step rest (again l) = rest l
after_step rest (over e s) = verified? e

abbrev StableBelow : Return → Type 0
StableBelow l = l.stable_polls ≤ 1

-- A pass leaves the loop waiting for the rest of what it waited for, at the polled miners.
check_return_lem :
    (b : Reboot) (seen_state : MinerState) (now : ℕ) (o : Option Miner) (stable : ℕ)
    (final : MinerState) (s : ControlState) (rest : Return → Bool) (os : List (Option MinerState))
    → stable ≤ 1
    → ((l : Return)
        → l.stable_polls ≤ 1
        → l.state.miners ≡ s.miners
        → rest l ≡ awaited l.stable_polls os)
    → after_step rest (check_return b seen_state now o stable final s)
      ≡ awaited stable (state? o ∷ os)
unfolding check_return
check_return_lem b seen_state now none zero final s rest os le h = h _ (omega arith) refl
check_return_lem b seen_state now none (suc n) final s rest os le h = h _ (omega arith) refl
check_return_lem b seen_state now (some m) zero final s rest os le h =
    elim (Bool-cases (operational (state_of m))) [
      | inl e ↦ rw e (h _ (omega arith) refl)
      | inr e ↦ rw e (h _ (omega arith) refl)
    ]
check_return_lem b seen_state now (some m) (suc zero) final s rest os le h =
    elim (Bool-cases (operational (state_of m))) [
      | inl e ↦ rw e
      | inr e ↦ rw e (h _ (omega arith) refl)
    ]
check_return_lem b seen_state now (some m) (suc (suc n)) final s rest os le h = absurd (omega arith)

nothing_awaited : (n : ℕ) → awaited n [] ≡ false
nothing_awaited zero = refl
nothing_awaited (suc n) = refl

after_step_lem :
    (b : Reboot) (seen_state : MinerState) (deadline : ℕ) (rs : List RebootRound) (p : ReturnStep)
    → verified? (
        let out : WorkerEnd × ControlState = elim p [
          | again l ↦ return_loop b seen_state deadline rs l
          | over e s ↦ (e, s)
        ] in
        out.0)
      ≡ after_step (λ t. verified? (return_loop b seen_state deadline rs t).0) p
after_step_lem b seen_state deadline rs (again l) = refl
after_step_lem b seen_state deadline rs (over e s) = refl

return_pass_lem :
    (b : Reboot) (seen_state : MinerState) (deadline : ℕ) (r : RebootRound) (rs : List RebootRound)
    (l : Return) (rest : Return → Bool)
    → l.stable_polls ≤ 1
    → ((t : Return)
        → t.stable_polls ≤ 1
        → t.state.miners ≡ r.poll l.state.miners
        → rest t
          ≡ awaited t.stable_polls
              (observations b.miner_id (r.poll l.state.miners) (live deadline rs)))
    → after_step rest (return_pass b seen_state deadline r l)
      ≡ awaited l.stable_polls (observations b.miner_id l.state.miners (live deadline (r ∷ rs)))
unfolding return_pass
return_pass_lem b seen_state deadline r rs l rest le h =
    elim (Bool-cases (before_deadline deadline r)) [
      | inr e ↦ rw e (sym (nothing_awaited l.stable_polls))
      | inl e ↦ elim (Bool-cases r.wait_stopped) [
        | inl w ↦ rw e (simp w (sym (nothing_awaited l.stable_polls)))
        | inr w ↦ rw e (
            rw w (
              check_return_lem b seen_state r.now _ l.stable_polls l.final_state _ rest
                (observations b.miner_id (r.poll l.state.miners) (live deadline rs)) le h))
      ]
    ]

-- The second phase of a reboot verifies it exactly when, among the polls before the deadline and
-- before a shutdown, two in a row show the miner mining or paused.
pub return_loop_lem :
    (b : Reboot) (seen_state : MinerState) (deadline : ℕ) (rs : List RebootRound) (l : Return)
    → l.stable_polls ≤ 1
    → verified? (return_loop b seen_state deadline rs l).0
      ≡ awaited l.stable_polls (observations b.miner_id l.state.miners (live deadline rs))
unfolding return_loop
return_loop_lem b seen_state deadline [] l le = sym (nothing_awaited l.stable_polls)
return_loop_lem b seen_state deadline (r ∷ rs) l le =
    after_step_lem b seen_state deadline rs (return_pass b seen_state deadline r l)
    ∙ return_pass_lem b seen_state deadline r rs l
        (λ t. verified? (return_loop b seen_state deadline rs t).0) le
        (λ t le' e.
          return_loop_lem b seen_state deadline rs t le'
          ∙ ap (λ ms. awaited t.stable_polls (observations b.miner_id ms (live deadline rs))) e)

abbrev pub shows? : MinerState → Option MinerState → Bool
shows? initial none = false
shows? initial (some st) = shows_reboot initial st

-- Some poll shows the reboot.
abbrev pub reboot_shown : MinerState → List (Option MinerState) → Bool
reboot_shown initial [] = false
reboot_shown initial (o ∷ os) = shows? initial o || reboot_shown initial os

-- The miners when the first such poll is made.
abbrev pub miners_when_shown : ℕ → MinerState → List Miner → List RebootRound → List Miner
miners_when_shown i initial ms [] = ms
miners_when_shown i initial ms (r ∷ rs) =
    let later = miners_when_shown i initial (r.poll ms) rs in
    if shows? initial (state? (get_miner i (r.poll ms))) then r.poll ms else later

-- How the first phase ends, as the account of the polls has it.
abbrev pub Shown : Transition → Bool → List Miner → Type 0
Shown (seen st s) shown ms = (shown ≡ true) × (s.miners ≡ ms)
Shown _ shown ms = shown ≡ false

abbrev after_transition_step : (ControlState → Transition) → TransitionStep → Transition
after_transition_step rest (onward s) = rest s
after_transition_step rest (stops out) = out

check_transition_lem :
    (b : Reboot) (o : Option Miner) (s : ControlState) (rest : ControlState → Transition)
    (shown : Bool) (later : List Miner)
    → ((t : ControlState) → t.miners ≡ s.miners → Shown (rest t) shown later)
    → Shown
        (after_transition_step rest (check_transition b o s))
        (shows? b.initial_state (state? o) || shown)
        (if shows? b.initial_state (state? o) then s.miners else later)
unfolding check_transition
check_transition_lem b none s rest shown later h = h s refl
check_transition_lem b (some m) s rest shown later h =
    elim (Bool-cases (shows_reboot b.initial_state (state_of m))) [
      | inl e ↦ rw e (refl, refl)
      | inr e ↦ rw e (h _ refl)
    ]

transition_step_lem :
    (b : Reboot) (deadline : ℕ) (rs : List RebootRound) (p : TransitionStep)
    → (let out : Transition = elim p [
      | onward t ↦ transition_loop b deadline rs t
      | stops out ↦ out
    ] in
        out)
      ≡ after_transition_step (transition_loop b deadline rs) p
transition_step_lem b deadline rs (onward s) = refl
transition_step_lem b deadline rs (stops out) = refl

transition_pass_lem :
    (b : Reboot) (deadline : ℕ) (r : RebootRound) (rs : List RebootRound) (s : ControlState)
    (rest : ControlState → Transition)
    → ((t : ControlState)
        → t.miners ≡ r.poll s.miners
        → Shown
            (rest t)
            (reboot_shown b.initial_state
              (observations b.miner_id (r.poll s.miners) (live deadline rs)))
            (miners_when_shown b.miner_id b.initial_state (r.poll s.miners) (live deadline rs)))
    → Shown
        (after_transition_step rest (transition_pass b deadline r s))
        (reboot_shown b.initial_state (observations b.miner_id s.miners (live deadline (r ∷ rs))))
        (miners_when_shown b.miner_id b.initial_state s.miners (live deadline (r ∷ rs)))
unfolding transition_pass
transition_pass_lem b deadline r rs s rest h = elim (Bool-cases (before_deadline deadline r)) [
  | inr e ↦ rw e refl
  | inl e ↦ elim (Bool-cases r.wait_stopped) [
    | inl w ↦ rw e (simp w refl)
    | inr w ↦ rw e (
        simp w (
          check_transition_lem b _ (record s { miners = r.poll s.miners }) rest
            (reboot_shown b.initial_state
              (observations b.miner_id (r.poll s.miners) (live deadline rs)))
            (miners_when_shown b.miner_id b.initial_state (r.poll s.miners) (live deadline rs)) h))
  ]
]

pub transition_loop_lem :
    (b : Reboot) (deadline : ℕ) (rs : List RebootRound) (s : ControlState)
    → Shown
        (transition_loop b deadline rs s)
        (reboot_shown b.initial_state (observations b.miner_id s.miners (live deadline rs)))
        (miners_when_shown b.miner_id b.initial_state s.miners (live deadline rs))
unfolding transition_loop
transition_loop_lem b deadline [] s = refl
transition_loop_lem b deadline (r ∷ rs) s =
    subst
      (λ t.
        Shown t
          (reboot_shown b.initial_state (observations b.miner_id s.miners (live deadline (r ∷ rs))))
          (miners_when_shown b.miner_id b.initial_state s.miners (live deadline (r ∷ rs))))
      (sym (transition_step_lem b deadline rs (transition_pass b deadline r s)))
      (transition_pass_lem b deadline r rs s (transition_loop b deadline rs)
        (λ t e. rw (← e) (transition_loop_lem b deadline rs t)))
