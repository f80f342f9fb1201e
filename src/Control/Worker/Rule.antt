-- ===== src/Control/Worker/Rule.antt =====
-- The rule for the loop of `verified_control_worker` (app/control/worker.py): what every pass keeps,
-- and what every way out then has, holds of the whole run.
use open_asicmanager.Prelude.{false, List, [], ◌∷◌, Bool-cases, inl, inr}
use open_asicmanager.Control.{ControlState}
use open_asicmanager.Control.Worker.{
  Round, Verification, Loop, WorkerEnd, finished, waiting, Progress, going, ended, pass, time_out,
  in_time, verify_loop,
}

abbrev pub AfterPass {ℓ} : (Loop → Type ℓ) → (WorkerEnd → ControlState → Type ℓ) → Progress → Type ℓ
AfterPass P Q (going l) = P l
AfterPass P Q (ended e s) = Q e s

module _ {ℓ} (v : Verification) (P : Loop → Type ℓ) (Q : WorkerEnd → ControlState → Type ℓ)
    (keep : (r : Round) (l : Loop) → P l → AfterPass P Q (pass v r l))
    (late : (r : Round) (l : Loop) → P l → Q (finished false) (time_out v r l))
    (more : (l : Loop) → P l → Q waiting l.state) where
  next_pass :
      (p : Progress) (rs : List Round)
      → AfterPass P Q p
      → ((l : Loop) → P l → Q (verify_loop v rs l).0 (verify_loop v rs l).1)
      → let out : WorkerEnd × ControlState = elim p [
        | going l ↦ verify_loop v rs l
        | ended e s ↦ (e, s)
      ] in
        Q out.0 out.1
  next_pass (going l) rs h ih = ih l h
  next_pass (ended e s) rs h ih = h

  pub loop_rule :
      (rounds : List Round) (l : Loop)
      → P l
      → Q (verify_loop v rounds l).0 (verify_loop v rounds l).1
  unfolding verify_loop
  loop_rule [] l h = more l h
  loop_rule (r ∷ rs) l h = elim (Bool-cases (in_time v r)) [
    | inl e ↦ rw (e, verify_loop) (next_pass (pass v r l) rs (keep r l h) (loop_rule rs))
    | inr e ↦ rw (e, verify_loop) (late r l h)
  ]
