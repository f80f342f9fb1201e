-- ===== src/Scheduler/Table/Days.antt =====
-- The day masks of two rules have a bit in common where a weekday is selected by both
-- (app/scheduler/repository.py, the test `days_mask & ?`).
use native.Mathlib.Nat.{div-div-eq-div-mul}
use open_asicmanager.Prelude.{
  ℕ, zero, suc, ◌*◌, ◌/◌, ◌%◌, ◌^◌, ◌<◌, ◌≡◌, ◌∙◌, true, not, ap, ◌==◌, ==_iff, arith,
}
use open_asicmanager.Scheduler.{weekday, selects}
use open_asicmanager.Scheduler.Table.{bit_and, integer_bits, shares_day}

doubled : (k : ℕ) → 2 * 2 ^ k ≡ 2 ^ suc k
doubled k = omega arith

half_power : (a k : ℕ) → a / 2 / 2 ^ k ≡ a / 2 ^ suc k
half_power a k = div-div-eq-div-mul a 2 (2 ^ k) ∙ ap (λ d. a / d) (doubled k)

bit_and-pos :
    (bits k a b : ℕ) → k < bits → a / 2 ^ k % 2 ≡ 1 → b / 2 ^ k % 2 ≡ 1 → 0 < bit_and bits a b
unfolding bit_and
bit_and-pos zero k a b lt h g = absurd (omega arith)
bit_and-pos (suc bits) zero a b lt h g = ground arith
bit_and-pos (suc bits) (suc k) a b lt h g =
    let more =
      bit_and-pos bits k (a / 2) (b / 2) (omega arith) (rw (half_power a k) h)
        (rw (half_power b k) g) in
    ground arith

nonzero : (n : ℕ) → 0 < n → not (n == 0) ≡ true
nonzero n h = ground arith

-- Masks that select one weekday both are seen to have a day in common.
pub common_day : (a b day : ℕ) → selects a day ≡ true → selects b day ≡ true → shares_day a b ≡ true
unfolding shares_day selects
common_day a b day h g =
    nonzero (bit_and integer_bits a b) (
      bit_and-pos integer_bits (weekday day) a b (omega arith) ((==_iff _ 1).0 h)
        ((==_iff _ 1).0 g))
