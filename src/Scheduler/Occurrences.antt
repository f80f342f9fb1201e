-- ===== src/Scheduler/Occurrences.antt =====
-- The next run of a rule (app/scheduler/policy.py), and the search that both occurrences use.
use open_asicmanager.Prelude.{
  ℕ, zero, suc, ◌+◌, ◌-◌, ◌*◌, ◌/◌, ◌%◌, ◌^◌, ◌≤◌, ◌<◌, ◌≡◌, refl, ap, ◌∙◌, Bool, true, false,
  Option, none, some, arith, ◌==◌, ltb, Bool-cases, inl, inr,
}
use open_asicmanager.Scheduler.{
  Local, before, minute_ticks, Rule, weekday, selects, first_offset, at_offset, next_test,
  schedule_rule_next_run,
}

abbrev pub Found : (ℕ → Bool) → ℕ → ℕ → Option ℕ → Type 0
Found p left offset none = (o : ℕ) → offset ≤ o → o < offset + left → p o ≡ false
Found p left offset (some n) =
    (p n ≡ true) × ((offset ≤ n) × ((o : ℕ) → offset ≤ o → o < n → p o ≡ false))

Found-later :
    (p : ℕ → Bool) (left offset : ℕ) (r : Option ℕ)
    → p offset ≡ false
    → Found p left (offset + 1) r
    → Found p (suc left) offset r
Found-later p left offset none e h = λ o a b. elim (Bool-cases (o == offset)) [
  | inl t ↦ ap p (ground arith) ∙ e
  | inr t ↦ h o (ground arith) (omega arith)
]
Found-later p left offset (some n) e (t, (le, h)) = (
  t,
  (
    omega arith,
    λ o a b. elim (Bool-cases (o == offset)) [
      | inl s ↦ ap p (ground arith) ∙ e
      | inr s ↦ h o (ground arith) b
    ],
  ),
)

pub first_offset-Found :
    (p : ℕ → Bool) (left offset : ℕ) → Found p left offset (first_offset p left offset)
unfolding first_offset
first_offset-Found p zero offset = λ o a b. absurd (omega arith)
first_offset-Found p (suc left) offset = elim (Bool-cases (p offset)) [
  | inl e ↦ rw e (e, (omega arith, λ o a b. absurd (omega arith)))
  | inr e ↦ rw e (Found-later p left offset _ e (first_offset-Found p left (offset + 1)))
]

-- A time at which the rule acts.
abbrev pub Due : Rule → Local → Type 0
Due rule c = (selects rule.days_mask c.day ≡ true) × (c.ticks ≡ rule.time_minutes * minute_ticks)

pub same_weekday : (mask a b : ℕ) → weekday a ≡ weekday b → selects mask a ≡ selects mask b
unfolding selects
same_weekday mask a b e = ap (λ w. mask / 2 ^ w % 2 == 1) e

-- Within a week from a day, each weekday comes.
week_ahead : (a b : ℕ) → (o : ℕ) × ((1 ≤ o) × ((o ≤ 7) × (weekday (a + o) ≡ weekday b)))
week_ahead a b = ((b + 6 + 6 * a) % 7 + 1, (omega arith, (omega arith, omega arith)))

-- The next time after `now` at which the rule acts, or none.
abbrev pub IsNext : Rule → Local → Option Local → Type 0
IsNext rule now none = (d : Local) → Due rule d → before now d ≡ true → ⊥
IsNext rule now (some c) =
    Due rule c
    × ((before now c ≡ true)
        × ((d : Local) → Due rule d → before now d ≡ true → before d c ≡ false))

IsNext-Found :
    (rule : Rule) (now : Local) (found : Option ℕ)
    → Found (next_test rule now) 9 0 found
    → IsNext rule now (at_offset rule (λ o. now.day + o) found)
unfolding next_test before
IsNext-Found rule now none h = λ d due later.
    let (o, (low, (high, same))) = week_ahead now.day d.day in
    let picked = same_weekday rule.days_mask (now.day + o) d.day same in
    absurd (ground (arith, h o (omega arith) (omega arith)))
IsNext-Found rule now (some n) (t, (le, h)) = (
  (ground arith, refl),
  (
    ground arith,
    λ d due later. elim (Bool-cases (ltb d.day (now.day + n))) [
      | inl e ↦
          let same : now.day + (d.day - now.day) ≡ d.day = ground arith in
          let picked = ap (selects rule.days_mask) same ∙ due.0 in
          absurd (ground (arith, h (d.day - now.day) (omega arith) (ground arith)))
      | inr e ↦ ground (arith, due.1)
    ],
  ),
)

-- An enabled rule's next run is the first time strictly after `now`, on the wall clock, that has a
-- selected weekday and the rule's time; it is missing only if there is no such time at all, so the
-- nine days that are looked at are enough. A rule that is not enabled has no next run.
pub schedule_rule_next_run-IsNext :
    (rule : Rule) (now : Local)
    → (rule.enabled ≡ true → IsNext rule now (schedule_rule_next_run rule now))
      × (rule.enabled ≡ false → schedule_rule_next_run rule now ≡ none)
unfolding schedule_rule_next_run
schedule_rule_next_run-IsNext rule now = (
  λ e. simp e (IsNext-Found rule now _ (first_offset-Found (next_test rule now) 9 0)),
  λ e. simp e refl,
)
