-- ===== src/Scheduler/LastRun.antt =====
-- The last occurrence of a rule (app/scheduler/repository.py).
use open_asicmanager.Prelude.{
  ℕ, ◌+◌, ◌-◌, ◌*◌, ◌%◌, ◌≤◌, ◌<◌, ◌≡◌, refl, sym, ap, ◌∙◌, true, false, Option, none, some, arith,
  ltb, Bool-cases, inl, inr,
}
use open_asicmanager.Scheduler.{
  Local, before, minute_ticks, Rule, weekday, selects, on_day, at_offset, is_effective, last_test,
  rule_last_occurrence,
}
use open_asicmanager.Scheduler.Occurrences.{Found, first_offset-Found, Due, same_weekday}

true-false : true ≡ false → ⊥
true-false h = cc

-- A past time at which the rule acts, and since when it counts.
abbrev pub Counts : (Local → ℕ) → Rule → Local → Local → Type 0
Counts timestamp rule now c =
    Due rule c × ((before now c ≡ false) × (is_effective timestamp rule c ≡ true))

-- The last such time, or none.
abbrev pub IsLast : (Local → ℕ) → Rule → Local → Option Local → Type 0
IsLast timestamp rule now none = (d : Local) → Counts timestamp rule now d → ⊥
IsLast timestamp rule now (some c) =
    Counts timestamp rule now c × ((d : Local) → Counts timestamp rule now d → before c d ≡ false)

-- The same time of the day is not earlier on a later day.
abbrev pub IsMonotone : (Local → ℕ) → Type 0
IsMonotone timestamp =
    (a b t : ℕ)
    → a ≤ b
    → timestamp (record { day = a; ticks = t }) ≤ timestamp (record { day = b; ticks = t })

-- Within the last week there is a day with the weekday of any earlier day.
week_behind :
    (a b : ℕ)
    → b < a
    → (o : ℕ) × ((1 ≤ o) × ((o ≤ 7) × ((b ≤ a - o) × (weekday (a - o) ≡ weekday b))))
week_behind a b h = ((a - b - 1) % 7 + 1, (omega arith, (omega arith, (omega arith, omega arith))))

Due-form : (rule : Rule) (d : Local) → Due rule d → d ≡ on_day rule d.day
Due-form rule d due = ap (λ k. record { day = d.day; ticks = k }) due.1

still_effective :
    (timestamp : Local → ℕ) (rule : Rule) (d : Local) (day : ℕ)
    → IsMonotone timestamp
    → Due rule d
    → d.day ≤ day
    → is_effective timestamp rule d ≡ true
    → is_effective timestamp rule (on_day rule day) ≡ true
still_effective timestamp rule d day mono due le e =
    let grows = mono d.day day (rule.time_minutes * minute_ticks) le in
    let same = ap timestamp (Due-form rule d due) in ground arith

passes_on :
    (timestamp : Local → ℕ) (rule : Rule) (now : Local) (o : ℕ)
    → selects rule.days_mask (now.day - o) ≡ true
    → before now (on_day rule (now.day - o)) ≡ false
    → is_effective timestamp rule (on_day rule (now.day - o)) ≡ true
    → last_test timestamp rule now o ≡ true
unfolding last_test
passes_on timestamp rule now o a b c = rw a (rw b (rw c refl))

-- The offset of a time that counts passes.
passes_same :
    (timestamp : Local → ℕ) (rule : Rule) (now : Local) (o : ℕ) (d : Local)
    → now.day - o ≡ d.day
    → Counts timestamp rule now d
    → last_test timestamp rule now o ≡ true
passes_same timestamp rule now o d same (due, (past, e)) =
    let form : on_day rule (now.day - o) ≡ d = ap (on_day rule) same ∙ sym (Due-form rule d due) in
    passes_on timestamp rule now o (ap (selects rule.days_mask) same ∙ due.0)
      (ap (before now) form ∙ past) (ap (is_effective timestamp rule) form ∙ e)

past_day :
    (rule : Rule) (now : Local) (o : ℕ)
    → 1 ≤ o
    → 1 ≤ now.day
    → before now (on_day rule (now.day - o)) ≡ false
unfolding before
past_day rule now o h k = ground arith

-- A day of the range that passes, for a time that counts.
passing :
    (timestamp : Local → ℕ) (rule : Rule) (now : Local) (d : Local)
    → IsMonotone timestamp
    → Counts timestamp rule now d
    → (o : ℕ) × ((o < 8) × (last_test timestamp rule now o ≡ true))
unfolding before
passing timestamp rule now d mono (due, (past, e)) = elim (Bool-cases (ltb d.day now.day)) [
  | inl h ↦
      let earlier : d.day < now.day = ground arith in
      let (o, (low, (high, (le, same)))) = week_behind now.day d.day earlier in
      (
        o,
        (
          omega arith,
          passes_on timestamp rule now o
              (same_weekday rule.days_mask (now.day - o) d.day same ∙ due.0)
              (past_day rule now o low (omega arith))
              (still_effective timestamp rule d (now.day - o) mono due le e),
        ),
      )
  | inr h ↦ (0, (omega arith, passes_same timestamp rule now 0 d (ground arith) (due, (past, e))))
]

IsLast-Found :
    (timestamp : Local → ℕ) (rule : Rule) (now : Local) (found : Option ℕ)
    → IsMonotone timestamp
    → Found (last_test timestamp rule now) 8 0 found
    → IsLast timestamp rule now (at_offset rule (λ o. now.day - o) found)
unfolding last_test before
IsLast-Found timestamp rule now none mono h = λ d counts.
    let (o, (lt, t)) = passing timestamp rule now d mono counts in
    absurd (true-false (sym t ∙ h o (omega arith) lt))
IsLast-Found timestamp rule now (some n) mono (t, (le, h)) = (
  ((ground arith, refl), (ground arith, ground arith)),
  λ d counts. elim (Bool-cases (ltb (now.day - n) d.day)) [
    | inl f ↦
        let past = counts.1.0 in
        let within : d.day ≤ now.day = ground arith in
        let newer : now.day - n < d.day = ground arith in
        absurd (
          true-false (
            sym (passes_same timestamp rule now (now.day - d.day) d (omega arith) counts)
            ∙ h (now.day - d.day) (omega arith) (omega arith)))
    | inr f ↦ ground (arith, counts.0.1)
  ],
)

-- A rule's last occurrence is the latest time, on the wall clock, that is not after `now`, has a
-- selected weekday and the rule's time, and is not before the rule became effective; it is missing
-- only if there is none, so the eight days that are looked at are enough. This is for a zone in which
-- the same time of the day is never earlier on a later day.
pub rule_last_occurrence-IsLast :
    (timestamp : Local → ℕ) (rule : Rule) (now : Local)
    → IsMonotone timestamp
    → IsLast timestamp rule now (rule_last_occurrence timestamp rule now)
unfolding rule_last_occurrence
rule_last_occurrence-IsLast timestamp rule now mono =
    IsLast-Found timestamp rule now _ mono (first_offset-Found (last_test timestamp rule now) 8 0)
