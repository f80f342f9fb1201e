-- ===== src/Scheduler/Iteration/Commands.antt =====
-- What a pass of the scheduler (app/scheduler/service.py) asks of the control queue.
use open_asicmanager.Prelude.{
  ℕ, ◌+◌, ◌≤◌, ◌≡◌, ◌≢◌, refl, sym, subst, Bool, true, false, Option, none, some, List, [], ◌∷◌,
  arith, Bool-cases, inl, inr, if◌then◌else◌, get_or, ok, In, In-select, All, All-append,
}
use open_asicmanager.Fleet.{Miner, MinerState, unknown, Action}
use open_asicmanager.Control.Policy.{control_target}
use open_asicmanager.Control.Jobs.Invariant.{WellFormed}
use open_asicmanager.Control.Queue.{QueueRuntime}
use open_asicmanager.Control.Queue.OneActive.{queue_control-WellFormed}
use open_asicmanager.Scheduler.{Local, Winner}
use open_asicmanager.Scheduler.Iteration.{
  SchedulerState, Pass, details_of, schedulable, list_schedulable_miners, schedule_mark_rule_seen,
  may_act, action_for, scheduler_action, request, visit, visit_all, pass_over, scheduler_iteration,
}

marked-control :
    (w : Option Winner) (s : SchedulerState) → (schedule_mark_rule_seen w s).control ≡ s.control
unfolding schedule_mark_rule_seen
marked-control none s = refl
marked-control (some w) s = refl

marked-calls :
    (w : Option Winner) (s : SchedulerState) → (schedule_mark_rule_seen w s).calls ≡ s.calls
unfolding schedule_mark_rule_seen
marked-calls none s = refl
marked-calls (some w) s = refl

request-WellFormed :
    (p : Pass) (i : ℕ) (a : Option Action) (s : SchedulerState)
    → WellFormed s.control
    → WellFormed (request p i a s).control
unfolding request
request-WellFormed p i none s w = w
request-WellFormed p i (some a) s w =
    queue_control-WellFormed p.queue p.now_epoch i a false s.control w

visit_all-WellFormed :
    (p : Pass) (ms : List Miner) (s : SchedulerState)
    → WellFormed s.control
    → WellFormed (visit_all p ms s).control
unfolding visit_all visit
visit_all-WellFormed p [] s w = w
visit_all-WellFormed p (m ∷ ms) s w = visit_all-WellFormed p ms _ (
    request-WellFormed p m.id _ _
      (subst WellFormed (sym (marked-control (details_of p m).rule s)) w))

-- A call that the rules justify: it is for a miner that the scheduler manages, by the command whose
-- control target is the state that the rules want; the miner is not in that state, no manual override
-- is in force, it was seen in the last minute, and nothing was sent to it for thirty seconds.
abbrev pub Justified : Pass → List Miner → ℕ × Action → Type 0
Justified p miners (miner_id, action) =
    (m : Miner) × ((target : MinerState) × (In m miners
        × ((schedulable m ≡ true)
            × ((m.id ≡ miner_id)
                × (((details_of p m).desired_state ≡ some target)
                    × ((control_target action ≡ ok target)
                        × ((get_or m.last_state unknown ≢ target)
                            × ((get_or m.manual_override_until 0 ≤ p.now_epoch)
                                × ((p.now_epoch ≤ get_or m.last_seen 0 + 60)
                                    × (get_or m.last_action_at 0 + 30 ≤ p.now_epoch))))))))))

action_for-target :
    (target state : MinerState) {a : Action}
    → action_for target state ≡ some a
    → (control_target a ≡ ok target) × (state ≢ target)
unfolding action_for control_target
action_for-target target state h = ground arith

nothing : {a : Action} → none ≡ some a → ⊥
nothing h = cc

action-Justified :
    (p : Pass) (miners : List Miner) (m : Miner) (wanted : Option MinerState) {a : Action}
    → In m miners
    → schedulable m ≡ true
    → (details_of p m).desired_state ≡ wanted
    → scheduler_action p.now_epoch wanted m ≡ some a
    → Justified p miners (m.id, a)
unfolding scheduler_action
action-Justified p miners m none i t e h = cc
action-Justified p miners m (some target) {a} i t e h = elim (Bool-cases (may_act p.now_epoch m)) [
  | inl k ↦
      let (aim, away) = action_for-target target (get_or m.last_state unknown) {a = a} (
        subst (λ b. (if b then action_for target (get_or m.last_state unknown) else none) ≡ some a)
          k h) in
      (
        m,
        (
          target,
          (i, (t, (refl, (e, (aim, (away, (ground arith, (ground arith, ground arith)))))))),
        ),
      )
  | inr k ↦ absurd (
      nothing (
        subst (λ b. (if b then action_for target (get_or m.last_state unknown) else none) ≡ some a)
          k h))
]

request-Justified :
    (p : Pass) (miners : List Miner) (m : Miner) (s : SchedulerState) (a : Option Action)
    → In m miners
    → schedulable m ≡ true
    → scheduler_action p.now_epoch (details_of p m).desired_state m ≡ a
    → All (Justified p miners) s.calls
    → All (Justified p miners) (request p m.id a s).calls
unfolding request
request-Justified p miners m s none i t e h = h
request-Justified p miners m s (some a) i t e h =
    All-append (Justified p miners) s.calls ((m.id, a) ∷ []) h
      (action-Justified p miners m _ i t refl e, tt)

visit_all-Justified :
    (p : Pass) (miners ms : List Miner) (s : SchedulerState)
    → ((m : Miner) → In m ms → In m miners × (schedulable m ≡ true))
    → All (Justified p miners) s.calls
    → All (Justified p miners) (visit_all p ms s).calls
unfolding visit_all visit
visit_all-Justified p miners [] s k h = h
visit_all-Justified p miners (m ∷ ms) s k h =
    let (i, t) = k m (inl refl) in
    visit_all-Justified p miners ms _ (λ x j. k x (inr j))
      (request-Justified p miners m _ _ i t refl
        (subst (All (Justified p miners)) (sym (marked-calls (details_of p m).rule s)) h))

-- A pass of the scheduler, from no calls, asks the control queue only for justified commands: each
-- call is for a miner under the scheduler (enabled, scheduled, of a supported firmware), with the
-- command whose target is the state that the rules want of it now; the miner's last known state is
-- another, its manual override is over, it was seen in the last minute, and nothing was sent to it
-- for thirty seconds. When the scheduler is switched off a pass changes nothing.
pub scheduler_iteration-Justified :
    (timestamp : Local → ℕ) (now : Local) (queue : QueueRuntime) (s : SchedulerState)
    → s.calls ≡ []
    → All
        (Justified (pass_over timestamp now (timestamp now) queue s.rules) s.control.miners)
        (scheduler_iteration true timestamp now queue s).calls
      × (scheduler_iteration false timestamp now queue s ≡ s)
unfolding scheduler_iteration list_schedulable_miners
scheduler_iteration-Justified timestamp now queue s e =
    let p = pass_over timestamp now (timestamp now) queue s.rules in
    (
      visit_all-Justified p s.control.miners _ s (λ m i. In-select schedulable s.control.miners i)
          (subst (All (Justified p s.control.miners)) (sym e) tt),
      refl,
    )

-- A pass keeps the invariant of the control jobs: at most one unfinished job for each miner.
pub scheduler_iteration-WellFormed :
    (scheduler_enabled : Bool) (timestamp : Local → ℕ) (now : Local) (queue : QueueRuntime)
    (s : SchedulerState)
    → WellFormed s.control
    → WellFormed (scheduler_iteration scheduler_enabled timestamp now queue s).control
unfolding scheduler_iteration
scheduler_iteration-WellFormed true timestamp now queue s w =
    visit_all-WellFormed (pass_over timestamp now (timestamp now) queue s.rules)
      (list_schedulable_miners s.control.miners) s w
scheduler_iteration-WellFormed false timestamp now queue s w = w
