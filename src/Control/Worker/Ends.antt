-- ===== src/Control/Worker/Ends.antt =====
-- How a verified pause or resume ends (app/control/worker.py): what the job's row says, how often
-- the command was attempted, and what was seen of the miner.
use open_asicmanager.Prelude.{
  ℕ, ◌+◌, ◌<◌, String, ◌≡◌, refl, true, false, Option, none, some, List, [], ◌∷◌, arith, leb,
  get_or, Bool-cases, inl, inr, ok,
}
use open_asicmanager.Fleet.{Action, Miner, unknown, state_eq, state_eq→≡, get_miner}
use open_asicmanager.Control.{ControlJob, running, waiting_for, ControlState}
use open_asicmanager.Control.Jobs.{
  get_control_job, set_fields, update_control_job, set_last_command, set_attempts, set_status,
  set_started_at,
}
use open_asicmanager.Control.Jobs.Invariant.{found-update}
use open_asicmanager.Control.Queue.{control_max_attempts}
use open_asicmanager.Control.Policy.{control_timeout}
use open_asicmanager.Control.Worker.Rule.{AfterPass, loop_rule}
use open_asicmanager.Control.Worker.{
  Reply, answered, refused, issue, Round, Verification, Loop, Progress, going, ended, need_send,
  after_answer, after_error, check_state, verify_state, send_reply, verification, send_command,
  pass, time_out, verify_loop, verified_control_worker,
}
use open_asicmanager.Control.Worker.Row.{
  RunningAs, Running, Finished, EndsWell, After, Running-same, Left-of_Running, failed_finish,
  verified_finish, waiting-Running, attempt-Running,
}

check-After :
    (v : Verification) (r : Round) (l : Loop) (o : Option Miner) (s : ControlState)
    → RunningAs v l.attempts s
    → get_miner v.miner_id s.miners ≡ o
    → After v (check_state v r o l s)
unfolding check_state
check-After v r l none s w ms = Left-of_Running v l.attempts s w
check-After v r l (some m) s w ms =
    let st = get_or m.last_state unknown in
    let text = waiting_for v.target st l.attempts v.timeout_seconds in
    let w' = waiting-Running v l.attempts (some st) text s w in
    elim (Bool-cases (state_eq st v.target)) [
      | inl e ↦ rw e (
          verified_finish v l.attempts r.now m st _ _ w' (state_eq→≡ st v.target e)
            (m, unfold update_control_job in ms, refl))
      | inr e ↦ rw e w'
    ]

verify-After :
    (v : Verification) (r : Round) (l : Loop) → Running v l → After v (verify_state v r l)
unfolding verify_state
verify-After v r l w = elim (Bool-cases r.wait_stopped) [
  | inl e ↦ rw e (Left-of_Running v l.attempts l.state w)
  | inr e ↦ rw e (check-After v r l _ _ (Running-same v l.attempts l.state _ refl w) refl)
]

issue-jobs :
    (m : Option Miner) (i : ℕ) (a : Action) (s : ControlState) → (issue m i a s).jobs ≡ s.jobs
unfolding issue
issue-jobs m i a s = ground arith

answered-After :
    (v : Verification) (r : Round) (m : Option Miner) (response : Option String) (l : Loop)
    → Running v l
    → Running v (after_answer v r m response l)
unfolding after_answer set_last_command
answered-After v r m response l w = Running-same v l.attempts l.state _ refl w

error-After :
    (v : Verification) (r : Round) (m : Option Miner) (error : String) (l : Loop)
    → Running v l
    → After v (after_error v r m error l)
unfolding after_error
error-After v r m error l w = elim (Bool-cases (leb control_max_attempts l.attempts)) [
  | inl e ↦ rw e (
      failed_finish v l.attempts r.now m (some l.last_state) _ _
        (Running-same v l.attempts l.state _ refl w))
  | inr e ↦ rw e (Running-same v l.attempts l.state _ refl w)
]

reply-After :
    (v : Verification) (r : Round) (m : Option Miner) (reply : Reply) (l : Loop)
    → Running v l
    → After v (send_reply v r m reply l)
unfolding send_reply
reply-After v r m (answered response) l w =
    verify-After v r (after_answer v r m response l) (answered-After v r m response l w)
reply-After v r m (refused error) l w = error-After v r m error l w

send-After :
    (v : Verification) (r : Round) (l : Loop)
    → l.attempts < control_max_attempts
    → Running v l
    → After v (send_command v r l)
unfolding send_command
send-After v r l lt w =
    let s = update_control_job v.job_id (set_attempts (l.attempts + 1) ∷ []) l.state in
    reply-After v r _ _ _ (
      Running-same v (l.attempts + 1) s _ (issue-jobs _ v.miner_id v.action s)
        (attempt-Running v l.attempts l.state lt w))

need_send-lt :
    (v : Verification) (r : Round) (l : Loop)
    → need_send v r l ≡ true
    → l.attempts < control_max_attempts
unfolding need_send
need_send-lt v r l h = ground arith

pass-After : (v : Verification) (r : Round) (l : Loop) → Running v l → After v (pass v r l)
unfolding pass
pass-After v r l w = elim (Bool-cases (need_send v r l)) [
  | inl e ↦ rw e (send-After v r l (need_send-lt v r l e) w)
  | inr e ↦ rw e (verify-After v r l w)
]

as_AfterPass : (v : Verification) (p : Progress) → After v p → AfterPass (Running v) (EndsWell v) p
as_AfterPass v (going l) h = h
as_AfterPass v (ended e s) h = h

late-Finished :
    (v : Verification) (r : Round) (l : Loop) → Running v l → Finished v false (time_out v r l)
unfolding time_out
late-Finished v r l w = failed_finish v l.attempts r.now _ _ _ l.state w

loop-EndsWell :
    (v : Verification) (rounds : List Round) (l : Loop)
    → Running v l
    → EndsWell v (verify_loop v rounds l).0 (verify_loop v rounds l).1
loop-EndsWell v =
    loop_rule v (Running v) (EndsWell v) (λ r l w. as_AfterPass v (pass v r l) (pass-After v r l w))
      (λ r l w. late-Finished v r l w) (λ l w. Left-of_Running v l.attempts l.state w)

started-Running :
    (job : ControlJob) (m : Miner) (now timeout started : ℕ) (s : ControlState)
    → get_control_job job.id s ≡ some job
    → job.attempts ≡ 0
    → RunningAs
        (verification job m timeout started)
        0
        (update_control_job job.id (set_status running ∷ set_started_at now ∷ []) s)
unfolding set_fields
started-Running job m now timeout started s found none_yet = record {
  row = record job { status = running; started_at = some now };
  found = found-update job.id (set_status running ∷ set_started_at now ∷ []) s found;
  unfinished = refl;
  counted = none_yet;
  bounded = omega arith;
}

-- A worker that is given a new job of a known miner with a supported firmware, in any environment:
-- whenever it finishes the job, the job's row says VERIFIED or FAILED accordingly, with a time of
-- completion and at most three attempts, and VERIFIED only where the final state is the target and
-- the miner's row, as it was last read, shows the target. When it returns without finishing the job,
-- or has passes still to make, the row is RUNNING with at most three attempts.
pub verified_control_worker-EndsWell :
    (job : ControlJob) (m : Miner) (now started timeout : ℕ) (rounds : List Round)
    (s : ControlState)
    → get_control_job job.id s ≡ some job
    → job.attempts ≡ 0
    → get_miner job.miner_id s.miners ≡ some m
    → control_timeout job.action m ≡ ok timeout
    → let out = verified_control_worker job.id now started rounds s in
      EndsWell (verification job m timeout started) out.0 out.1
unfolding verified_control_worker
verified_control_worker-EndsWell job m now started timeout rounds s found none_yet known limit =
    rw found (
      rw known (
        rw limit (
          loop-EndsWell (verification job m timeout started) rounds _
            (started-Running job m now timeout started s found none_yet))))
