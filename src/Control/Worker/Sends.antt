-- ===== src/Control/Worker/Sends.antt =====
-- What a verified pause or resume sends to the device (app/control/worker.py).
use mathlib.Core.List.{append_assoc, append-nil}
use open_asicmanager.Prelude.{
  ℕ, suc, ◌+◌, ◌≤◌, ◌≡◌, refl, sym, ap, ◌∙◌, get_or, true, Option, none, some, List, [], ◌∷◌, ◌++◌,
  arith, leb, Bool-cases, inl, inr, replicate, replicate-append_one, ok,
}
use open_asicmanager.Fleet.{Action, Miner, state_eq, get_miner, unknown}
use open_asicmanager.Control.{ControlJob, ControlState}
use open_asicmanager.Control.Jobs.{
  get_control_job, set_attempts, update_control_job, set_last_command,
}
use open_asicmanager.Control.Policy.{control_timeout}
use open_asicmanager.Control.Queue.{control_max_attempts}
use open_asicmanager.Control.Worker.{
  Reply, answered, refused, reaches_driver, waiting, issue, Round, Verification, Loop, WorkerEnd,
  need_send, check_state, verify_state, send_reply, send_command, pass, time_out, verify_loop,
  verification, verified_control_worker,
}
use open_asicmanager.Control.Worker.Rule.{AfterPass, loop_rule}

-- The commands issued since `before`: `sent` times the action, for the job's miner.
pub record Issued (miner_id : ℕ) (a : Action) (before : List (ℕ × Action)) (most : ℕ)
    (s : ControlState) : Type 0 where
  pub sent : ℕ
  pub at_most : sent ≤ most
  pub only : s.issued ≡ before ++ replicate sent (miner_id, a)

need_send-room :
    (v : Verification) (r : Round) (l : Loop)
    → need_send v r l ≡ true
    → l.attempts + 1 ≤ control_max_attempts
unfolding need_send
need_send-room v r l h = ground arith

module _ (v : Verification) (before : List (ℕ × Action)) where
  abbrev Sent : ℕ → ControlState → Type 0
  Sent = Issued v.miner_id v.action before

  abbrev SoFar : Loop → Type 0
  SoFar l = Sent l.attempts l.state × (l.attempts ≤ control_max_attempts)

  abbrev Total : WorkerEnd → ControlState → Type 0
  Total e s = Sent control_max_attempts s

  Sent-same : (n k : ℕ) (s t : ControlState) → t.issued ≡ s.issued → n ≤ k → Sent n s → Sent k t
  Sent-same n k s t e le w = record {
    sent = w.sent;
    at_most = omega (arith, w.at_most);
    only = e ∙ w.only;
  }

  issue-Sent :
      (n : ℕ) (m : Option Miner) (s : ControlState)
      → Sent n s
      → Sent (n + 1) (issue m v.miner_id v.action s)
  unfolding issue
  issue-Sent n m s w = elim (Bool-cases (reaches_driver m)) [
    | inl e ↦ record {
      sent = suc w.sent;
      at_most = omega (arith, w.at_most);
      only = rw e (
          ap (λ t. t ++ command ∷ []) w.only
          ∙ append_assoc before (replicate w.sent command) (command ∷ [])
          ∙ ap (λ t. before ++ t) (replicate-append_one w.sent command));
    }
    | inr e ↦ record { sent = w.sent; at_most = omega (arith, w.at_most); only = rw e w.only }
  ]
    where
      command : ℕ × Action
      command = (v.miner_id, v.action)

  -- No other step of a pass sends anything.
  check-issued :
      (r : Round) (l : Loop) (o : Option Miner) (s : ControlState)
      → SoFar l
      → s.issued ≡ l.state.issued
      → AfterPass SoFar Total (check_state v r o l s)
  unfolding check_state
  check-issued r l none s w e = Sent-same l.attempts control_max_attempts l.state s e w.1 w.0
  check-issued r l (some m) s w e =
      let st = get_or m.last_state unknown in
      elim (Bool-cases (state_eq st v.target)) [
        | inl t ↦ rw t (Sent-same l.attempts control_max_attempts l.state _ e w.1 w.0)
        | inr t ↦ rw t (Sent-same l.attempts l.attempts l.state _ e (omega arith) w.0, w.1)
      ]

  verify-issued : (r : Round) (l : Loop) → SoFar l → AfterPass SoFar Total (verify_state v r l)
  unfolding verify_state
  verify-issued r l w = elim (Bool-cases r.wait_stopped) [
    | inl e ↦ rw e (Sent-same l.attempts control_max_attempts l.state l.state refl w.1 w.0)
    | inr e ↦ rw e (check-issued r l _ _ w refl)
  ]

  reply-issued :
      (r : Round) (m : Option Miner) (reply : Reply) (l : Loop)
      → SoFar l
      → AfterPass SoFar Total (send_reply v r m reply l)
  unfolding send_reply set_last_command
  reply-issued r m (answered response) l w =
      verify-issued r _ (Sent-same l.attempts l.attempts l.state _ refl (omega arith) w.0, w.1)
  reply-issued r m (refused error) l w = elim (Bool-cases (leb control_max_attempts l.attempts)) [
    | inl e ↦ rw e (Sent-same l.attempts control_max_attempts l.state _ refl w.1 w.0)
    | inr e ↦ rw e (Sent-same l.attempts l.attempts l.state _ refl (omega arith) w.0, w.1)
  ]

  pass-issued : (r : Round) (l : Loop) → SoFar l → AfterPass SoFar Total (pass v r l)
  unfolding pass send_command update_control_job
  pass-issued r l w = elim (Bool-cases (need_send v r l)) [
    | inl e ↦ rw e (
        let s = update_control_job v.job_id (set_attempts (l.attempts + 1) ∷ []) l.state in
        let m = get_miner v.miner_id s.miners in
        reply-issued r m _ _ (
          issue-Sent l.attempts m s
              (Sent-same l.attempts l.attempts l.state s refl (omega arith) w.0),
          need_send-room v r l e,
        ))
    | inr e ↦ rw e (verify-issued r l w)
  ]

  loop-issued :
      (rounds : List Round) (l : Loop) → SoFar l → Total waiting (verify_loop v rounds l).1
  loop-issued =
      loop_rule v SoFar Total pass-issued
        (λ r l w.
          unfold time_out in Sent-same l.attempts control_max_attempts l.state _ refl w.1 w.0)
        (λ l w. Sent-same l.attempts control_max_attempts l.state l.state refl w.1 w.0)

-- Whatever the firmware answers and however the clock runs, the worker hands at most three commands
-- to a firmware driver, all of them the job's action for the job's miner, after those that were
-- sent before.
pub verified_control_worker-Issued :
    (job : ControlJob) (m : Miner) (now started timeout : ℕ) (rounds : List Round)
    (s : ControlState)
    → get_control_job job.id s ≡ some job
    → get_miner job.miner_id s.miners ≡ some m
    → control_timeout job.action m ≡ ok timeout
    → Issued job.miner_id job.action s.issued control_max_attempts
        (verified_control_worker job.id now started rounds s).1
unfolding verified_control_worker
verified_control_worker-Issued job m now started timeout rounds s found known limit = rw found (
    rw known (
      rw limit (
        loop-issued (verification job m timeout started) s.issued rounds _
          (record { sent = 0; at_most = omega arith; only = sym (append-nil _) }, omega arith))))
