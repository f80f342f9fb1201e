-- ===== src/Control/Worker/Halts.antt =====
-- The worker's loop ends (app/control/worker.py): how many passes the timeout leaves room for, and
-- when the job is finished for certain.
use mathlib.Core.Path.{subst}
use open_asicmanager.Prelude.{
  ℕ, ◌+◌, ◌*◌, ◌≤◌, ◌<◌, ◌≡◌, ◌≢◌, ◌⊎◌, refl, sym, ◌∙◌, Bool, true, false, Option, none, some, List,
  [], ◌∷◌, arith, leb, Bool-cases, inl, inr, length, All, get_or, is_some, ok, first-update_self,
}
use open_asicmanager.Fleet.{Action, Miner, unknown, state_eq, get_miner, has_id, update_miner}
use open_asicmanager.Control.{ControlJob, ControlState}
use open_asicmanager.Control.Jobs.{
  get_control_job, set_attempts, update_control_job, set_last_command,
}
use open_asicmanager.Control.Policy.{control_timeout}
use open_asicmanager.Control.Queue.{control_max_attempts}
use open_asicmanager.Control.Worker.Rule.{AfterPass}
use open_asicmanager.Control.Worker.{
  seconds, not_configured, dispatch, Reply, answered, refused, issue, Round, Verification, Loop,
  WorkerEnd, finished, abandoned, waiting, Progress, going, ended, need_send, check_state,
  verify_state, send_reply, send_command, pass, in_time, verify_loop, verification,
  verified_control_worker,
}

abbrev pub control_verify_interval : ℕ
control_verify_interval = 5

-- `Event.wait(n)` comes back after n seconds, or because the flag is set, and the monotonic clock
-- does not go back: so a pass begins five seconds after the one before, or sees the flag.
abbrev pub Paced : ℕ → List Round → Type 0
Paced t [] = Unit
Paced t (r ∷ rs) =
    ((t ≤ r.head_time) ⊎ (r.stop_set ≡ true))
    × Paced (r.head_time + seconds control_verify_interval) rs

in_time_time :
    (v : Verification) (r : Round)
    → in_time v r ≡ true
    → (r.head_time < v.deadline) × (r.stop_set ≡ false)
unfolding in_time
in_time_time v r h = ground arith

-- Room for the passes: what is left of the time, and one more pass.
abbrev Room : Verification → ℕ → List Round → Type 0
Room v t rs =
    v.deadline + seconds control_verify_interval ≤ t + seconds control_verify_interval * length rs

next-Room :
    (v : Verification) (t : ℕ) (r : Round) (rs : List Round)
    → Room v t (r ∷ rs)
    → Paced t (r ∷ rs)
    → in_time v r ≡ true
    → Room v (r.head_time + seconds control_verify_interval) rs × (r.head_time < v.deadline)
next-Room v t r rs room (pace, _) h = ground (arith, in_time_time v r h)

commanded_miners : Verification → Round → List Miner → List Miner
commanded_miners v r ms =
    update_miner v.miner_id
      (λ m. record m { last_action = some v.action; last_action_at = some r.now }) ms

issue-miners :
    (m : Option Miner) (i : ℕ) (a : Action) (s : ControlState) → (issue m i a s).miners ≡ s.miners
unfolding issue
issue-miners m i a s = ground arith

-- With room for the passes, the loop comes to an end that the passes lead to.
module _ (v : Verification) (E : Round → Type 0) (P : Loop → Type 0) (R : WorkerEnd → Type 0)
    (keep : (r : Round) (l : Loop) → E r → P l → AfterPass P (λ e s. R e) (pass v r l))
    (late : R (finished false)) where
  next_end :
      (p : Progress) (rs : List Round)
      → AfterPass P (λ e s. R e) p
      → ((l : Loop) → P l → R (verify_loop v rs l).0)
      → let out : WorkerEnd × ControlState = elim p [
        | going l ↦ verify_loop v rs l
        | ended e s ↦ (e, s)
      ] in
        R out.0
  next_end (going l) rs h ih = ih l h
  next_end (ended e s) rs h ih = h

  settles :
      (t : ℕ) (rs : List Round) (l : Loop)
      → t < v.deadline + seconds control_verify_interval
      → Room v t rs
      → Paced t rs
      → All E rs
      → P l
      → R (verify_loop v rs l).0
  unfolding verify_loop
  settles t [] l h room pace env p = absurd (omega arith)
  settles t (r ∷ rs) l h room pace env p = elim (Bool-cases (in_time v r)) [
    | inl e ↦
        rw (e, verify_loop)
          (next_end (pass v r l) rs (keep r l env.0 p) (λ l' p'.
            let (room', early) = next-Room v t r rs room pace e in
            settles (r.head_time + seconds control_verify_interval) rs l' (omega arith) room' pace.1
              env.1 p'))
    | inr e ↦ rw (e, verify_loop) late
  ]

-- The ways out of a pass, for a property of the miners table that sending and polling keep.
module _ (v : Verification) (r : Round) (R : WorkerEnd → Type 0) (M : List Miner → Type 0)
    (done : (b : Bool) → R (finished b)) (stopped : r.wait_stopped ≡ true → R abandoned)
    (gone : (ms : List Miner) → M ms → get_miner v.miner_id ms ≡ none → R abandoned)
    (commanded : (ms : List Miner) → M ms → M (commanded_miners v r ms))
    (polled : (ms : List Miner) → M ms → M (r.poll ms)) where
  abbrev Goes : Progress → Type 0
  Goes = AfterPass (λ l. M l.state.miners) (λ e s. R e)

  check-Goes :
      (l : Loop) (o : Option Miner) (s : ControlState)
      → M s.miners
      → get_miner v.miner_id s.miners ≡ o
      → Goes (check_state v r o l s)
  unfolding check_state
  check-Goes l none s m e = gone s.miners m e
  check-Goes l (some fresh) s m e =
      elim (Bool-cases (state_eq (get_or fresh.last_state unknown) v.target)) [
        | inl t ↦ rw t (done true)
        | inr t ↦ rw t m
      ]

  verify-Goes : (l : Loop) → M l.state.miners → Goes (verify_state v r l)
  unfolding verify_state
  verify-Goes l m = elim (Bool-cases r.wait_stopped) [
    | inl e ↦ rw e (stopped e)
    | inr e ↦ rw e (check-Goes l _ _ (polled l.state.miners m) refl)
  ]

  reply-Goes :
      (found : Option Miner) (reply : Reply) (l : Loop)
      → M l.state.miners
      → Goes (send_reply v r found reply l)
  unfolding send_reply set_last_command commanded_miners
  reply-Goes found (answered response) l m = verify-Goes _ (commanded l.state.miners m)
  reply-Goes found (refused error) l m = elim (Bool-cases (leb control_max_attempts l.attempts)) [
    | inl e ↦ rw e (done false)
    | inr e ↦ rw e m
  ]

  send-Goes : (l : Loop) → M l.state.miners → Goes (send_command v r l)
  unfolding send_command
  send-Goes l m =
      let s = update_control_job v.job_id (set_attempts (l.attempts + 1) ∷ []) l.state in
      let found = get_miner v.miner_id s.miners in
      let t = issue found v.miner_id v.action s in
      reply-Goes found (dispatch found not_configured r.device)
        (record l { attempts = l.attempts + 1; state = t })
        (subst M (sym (issue-miners found v.miner_id v.action s)) m)

  pass-Goes : (l : Loop) → M l.state.miners → Goes (pass v r l)
  unfolding pass
  pass-Goes l m = elim (Bool-cases (need_send v r l)) [
    | inl e ↦ rw e (send-Goes l m)
    | inr e ↦ rw e (verify-Goes l m)
  ]

abbrev pub Present : ℕ → List Miner → Type 0
Present miner_id ms = is_some (get_miner miner_id ms) ≡ true

-- Nothing interrupts the pass: no shutdown while it waits, and the miner is not deleted.
pub record Undisturbed (miner_id : ℕ) (r : Round) : Type 0 where
  pub no_stop : r.wait_stopped ≡ false
  pub kept : (ms : List Miner) → Present miner_id ms → Present miner_id (r.poll ms)

commanded-Present :
    (v : Verification) (r : Round) (ms : List Miner)
    → Present v.miner_id ms
    → Present v.miner_id (commanded_miners v r ms)
unfolding commanded_miners get_miner update_miner
commanded-Present v r ms h = ground (
  arith,
  first-update_self (has_id v.miner_id)
      (λ (m : Miner). record m { last_action = some v.action; last_action_at = some r.now }) ms
      (λ m e. e),
)

not_gone : (miner_id : ℕ) (ms : List Miner) → Present miner_id ms → get_miner miner_id ms ≡ none → ⊥
not_gone i ms h e = cc

abbrev pub IsFinished : WorkerEnd → Type 0
IsFinished (finished b) = Unit
IsFinished _ = ⊥

timeout_capped : (a : Action) (m : Miner) {t : ℕ} → control_timeout a m ≡ ok t → t ≤ 360
unfolding control_timeout
timeout_capped a m h = ground arith

All-true : (rs : List Round) → All (λ r. Unit {0}) rs
All-true [] = tt
All-true (r ∷ rs) = (tt, All-true rs)

loop-halts :
    (v : Verification) (started timeout : ℕ) (rounds : List Round) (l : Loop)
    → v.deadline ≡ started + seconds timeout
    → timeout + 5 ≤ 5 * length rounds
    → Paced started rounds
    → (verify_loop v rounds l).0 ≢ waiting
loop-halts v started timeout rounds l e room pace =
    settles v (λ r. Unit {0}) (λ l. Unit {0}) (λ e. e ≢ waiting)
      (λ r l _ _.
        pass-Goes v r (λ e. e ≢ waiting) (λ ms. Unit {0}) (λ b h. cc) (λ h h'. cc) (λ ms m h h'. cc)
          (λ ms m. tt) (λ ms m. tt) l tt)
      (λ h. cc) started rounds l (omega arith) (omega arith) pace (All-true rounds) tt

loop-finishes :
    (v : Verification) (started timeout : ℕ) (rounds : List Round) (l : Loop)
    → v.deadline ≡ started + seconds timeout
    → timeout + 5 ≤ 5 * length rounds
    → Paced started rounds
    → All (Undisturbed v.miner_id) rounds
    → Present v.miner_id l.state.miners
    → IsFinished (verify_loop v rounds l).0
loop-finishes v started timeout rounds l e room pace quiet here =
    settles v (Undisturbed v.miner_id) (λ l. Present v.miner_id l.state.miners) IsFinished
      (λ r l q p.
        pass-Goes v r IsFinished (Present v.miner_id) (λ b. tt)
          (λ h. absurd (cc (sym h ∙ q.no_stop))) (λ ms m h. not_gone v.miner_id ms m h)
          (commanded-Present v r) q.kept l p)
      tt started rounds l (omega arith) (omega arith) pace quiet here

-- However the firmware and the miner behave, seventy-three passes are enough: with a clock that does
-- not go back, and waits that last their five seconds unless the application stops, a worker for a
-- known job and miner of a supported firmware does not need more, whatever the action.
pub verified_control_worker_halts :
    (job : ControlJob) (m : Miner) (now started timeout : ℕ) (rounds : List Round)
    (s : ControlState)
    → get_control_job job.id s ≡ some job
    → get_miner job.miner_id s.miners ≡ some m
    → control_timeout job.action m ≡ ok timeout
    → Paced started rounds
    → 73 ≤ length rounds
    → (verified_control_worker job.id now started rounds s).0 ≢ waiting
unfolding verified_control_worker
verified_control_worker_halts job m now started timeout rounds s found known limit pace enough =
    rw found (
      rw known (
        rw limit (
          loop-halts (verification job m timeout started) started timeout rounds _ refl
            (omega (arith, timeout_capped job.action m limit)) pace)))

-- With seventy-three passes or more, a clock that does not go back and waits that last their five seconds
-- unless the application stops, a worker for a known job and miner of a supported firmware finishes
-- the job, as VERIFIED or as FAILED, provided that the application is not shut down while the worker
-- waits and the miner is not deleted: the job is never left unfinished.
pub verified_control_worker_finishes :
    (job : ControlJob) (m : Miner) (now started timeout : ℕ) (rounds : List Round)
    (s : ControlState)
    → get_control_job job.id s ≡ some job
    → get_miner job.miner_id s.miners ≡ some m
    → control_timeout job.action m ≡ ok timeout
    → Paced started rounds
    → 73 ≤ length rounds
    → All (Undisturbed job.miner_id) rounds
    → IsFinished (verified_control_worker job.id now started rounds s).0
unfolding verified_control_worker
verified_control_worker_finishes job m now started timeout rounds s found known limit pace enough
      quiet =
    rw found (
      rw known (
        rw limit (
          loop-finishes (verification job m timeout started) started timeout rounds _ refl
            (omega (arith, timeout_capped job.action m limit)) pace quiet (rw known refl))))
