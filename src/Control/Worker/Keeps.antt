-- ===== src/Control/Worker/Keeps.antt =====
-- The worker of a pause or resume (app/control/worker.py) writes to the row of its own job only, while
-- that is unfinished, and keeps the invariant of the jobs table.
use open_asicmanager.Prelude.{
  String, ℕ, ◌+◌, ◌≡◌, refl, ap, ◌∙◌, get_or, Bool, true, false, Option, none, some, List, [], ◌∷◌,
  leb, Bool-cases, inl, inr, first_row, Result, ok, raised,
}
use open_asicmanager.Fleet.{Action, Miner, MinerState, state_eq, get_miner, unknown}
use open_asicmanager.Control.{
  ControlJob, ControlState, Message, waiting_for, miner_not_found, Fault, running, failed,
}
use open_asicmanager.Control.Jobs.{
  JobField, set_attempts, set_status, set_started_at, set_completed_at, set_message,
  set_final_state, set_fields, is_job, is_active, get_control_job, update_control_job,
  set_last_command,
}
use open_asicmanager.Control.Jobs.Invariant.{
  WellFormed, same-WellFormed, update-WellFormed, KeepsEnded-of_active, found-update,
}
use open_asicmanager.Control.Policy.{control_timeout}
use open_asicmanager.Control.Worker.{
  Reply, answered, refused, reaches_driver, dispatch, not_configured, issue, Round, Verification,
  Loop, WorkerEnd, need_send, check_state, verify_state, send_reply, send_command, pass, time_out,
  verify_loop, verification, first_loop, finish_control_job, end_status, with_timeout, with_miner,
  with_job, verified_control_worker,
}
use open_asicmanager.Control.System.{
  Steps, WorkerSteps, begin, write_own, write_elsewhere, WorkerSteps-Steps,
}
use open_asicmanager.Control.Worker.Rule.{AfterPass, loop_rule}

-- The jobs table is well formed, and was reached by steps of the worker of a job.
abbrev Sound : ControlState → ℕ → ControlState → Type 0
Sound start job_id s = WellFormed s × WorkerSteps job_id start s

-- And the job is unfinished.
record Live (start : ControlState) (job_id : ℕ) (s : ControlState) : Type 0 where
  pub path : WorkerSteps job_id start s
  pub well_formed : WellFormed s
  pub row : ControlJob
  pub found : get_control_job job_id s ≡ some row
  pub unfinished : is_active row.status ≡ true

module _ (start : ControlState) (job_id : ℕ) where
  same-Live :
      (s t : ControlState)
      → t.jobs ≡ s.jobs
      → t.next_job ≡ s.next_job
      → Live start job_id s
      → Live start job_id t
  unfolding get_control_job
  same-Live s t e f w = record {
    path = write_elsewhere start s t w.path e f;
    well_formed = same-WellFormed s t e f w.well_formed;
    row = w.row;
    found = ap (first_row (is_job job_id)) e ∙ w.found;
    unfinished = w.unfinished;
  }

  updated-Sound :
      (fields : List JobField) (s : ControlState)
      → Live start job_id s
      → Sound start job_id (update_control_job job_id fields s)
  updated-Sound fields s w = (
    update-WellFormed job_id fields s
        (KeepsEnded-of_active job_id fields s w.well_formed w.found w.unfinished) w.well_formed,
    write_own start s fields w.row w.path w.found w.unfinished,
  )

  updated-Live :
      (fields : List JobField) (s : ControlState)
      → ((j : ControlJob)
          → is_active j.status ≡ true
          → is_active (set_fields fields j).status ≡ true)
      → Live start job_id s
      → Live start job_id (update_control_job job_id fields s)
  updated-Live fields s keep w = record {
    path = (updated-Sound fields s w).1;
    well_formed = (updated-Sound fields s w).0;
    row = set_fields fields w.row;
    found = found-update job_id fields s w.found;
    unfinished = keep w.row w.unfinished;
  }

  finished-Sound :
      (now : ℕ) (m : Option Miner) (source : String) (a : Action) (success : Bool)
      (final : Option MinerState) (words : Message) (s : ControlState)
      → Live start job_id s
      → Sound start job_id (finish_control_job now job_id m source a success final words s)
  unfolding finish_control_job
  finished-Sound now m source a success final words s w =
      let fields =
        set_status (end_status success)
        ∷ set_completed_at now
        ∷ set_final_state final
        ∷ set_message words
        ∷ [] in
      let u = update_control_job job_id fields s in
      let t = finish_control_job now job_id m source a success final words s in
      let (wf, path) = updated-Sound fields s w in
      (same-WellFormed u t refl refl wf, write_elsewhere start u t path refl refl)

module _ (start : ControlState) (v : Verification) where
  abbrev Going : Loop → Type 0
  Going l = Live start v.job_id l.state

  abbrev Over : WorkerEnd → ControlState → Type 0
  Over e s = Sound start v.job_id s

  check-Live :
      (r : Round) (l : Loop) (o : Option Miner) (s : ControlState)
      → Live start v.job_id s
      → AfterPass Going Over (check_state v r o l s)
  unfolding check_state set_fields
  check-Live r l none s w = (w.well_formed, w.path)
  check-Live r l (some m) s w =
      let st = get_or m.last_state unknown in
      let fields =
        set_final_state (some st)
        ∷ set_message (waiting_for v.target st l.attempts v.timeout_seconds)
        ∷ [] in
      let noted = updated-Live start v.job_id fields s (λ j h. h) w in
      elim (Bool-cases (state_eq st v.target)) [
        | inl t ↦ rw t (finished-Sound start v.job_id r.now _ v.source v.action true _ _ _ noted)
        | inr t ↦ rw t noted
      ]

  verify-Live : (r : Round) (l : Loop) → Going l → AfterPass Going Over (verify_state v r l)
  unfolding verify_state
  verify-Live r l w = elim (Bool-cases r.wait_stopped) [
    | inl e ↦ simp e (w.well_formed, w.path)
    | inr e ↦ simp e (check-Live r l _ _ (same-Live start v.job_id l.state _ refl refl w))
  ]

  reply-Live :
      (r : Round) (m : Option Miner) (reply : Reply) (l : Loop)
      → Going l
      → AfterPass Going Over (send_reply v r m reply l)
  unfolding send_reply set_last_command
  reply-Live r m (answered response) l w =
      verify-Live r _ (same-Live start v.job_id l.state _ refl refl w)
  reply-Live r m (refused error) l w = elim (Bool-cases (leb 3 l.attempts)) [
    | inl e ↦ rw e (
        finished-Sound start v.job_id r.now m v.source v.action false _ _ _
          (same-Live start v.job_id l.state _ refl refl w))
    | inr e ↦ rw e (same-Live start v.job_id l.state _ refl refl w)
  ]

  issue-Live :
      (m : Option Miner) (s : ControlState)
      → Live start v.job_id s
      → Live start v.job_id (issue m v.miner_id v.action s)
  unfolding issue
  issue-Live m s w = elim (Bool-cases (reaches_driver m)) [
    | inl e ↦ rw e (same-Live start v.job_id s _ refl refl w)
    | inr e ↦ rw e w
  ]

  pass-Live : (r : Round) (l : Loop) → Going l → AfterPass Going Over (pass v r l)
  unfolding pass send_command set_fields
  pass-Live r l w = elim (Bool-cases (need_send v r l)) [
    | inl e ↦ rw e (
        let s = update_control_job v.job_id (set_attempts (l.attempts + 1) ∷ []) l.state in
        let m = get_miner v.miner_id s.miners in
        let sent = record l { attempts = l.attempts + 1; state = issue m v.miner_id v.action s } in
        reply-Live r m (dispatch m not_configured r.device) sent (
          issue-Live m s (
            updated-Live start v.job_id (set_attempts (l.attempts + 1) ∷ []) l.state (λ j h. h) w)))
    | inr e ↦ rw e (verify-Live r l w)
  ]

  loop-Sound :
      (rounds : List Round) (l : Loop) → Going l → Sound start v.job_id (verify_loop v rounds l).1
  loop-Sound =
      loop_rule v Going Over pass-Live
        (λ r l w.
          unfold time_out in finished-Sound start v.job_id r.now _ v.source v.action false _ _ _ w)
        (λ l w. (w.well_formed, w.path))

with_timeout-Sound :
    (start : ControlState) (job : ControlJob) (m : Miner) (started : ℕ) (limit : Result Fault ℕ)
    (rounds : List Round) (s : ControlState)
    → Live start job.id s
    → Sound start job.id (with_timeout job m started limit rounds s).1
unfolding with_timeout
with_timeout-Sound start job m started (raised e) rounds s w = (w.well_formed, w.path)
with_timeout-Sound start job m started (ok timeout) rounds s w =
    loop-Sound start (verification job m timeout started) rounds (first_loop m s) w

with_miner-Sound :
    (start : ControlState) (job : ControlJob) (m : Option Miner) (now started : ℕ)
    (rounds : List Round) (s : ControlState)
    → Live start job.id s
    → Sound start job.id (with_miner job m now started rounds s).1
unfolding with_miner set_fields
with_miner-Sound start job none now started rounds s w =
    updated-Sound start job.id
      (set_status failed ∷ set_completed_at now ∷ set_message miner_not_found ∷ []) s w
with_miner-Sound start job (some m) now started rounds s w =
    with_timeout-Sound start job m started (control_timeout job.action m) rounds _
      (updated-Live start job.id (set_status running ∷ set_started_at now ∷ []) s (λ j h. refl) w)

with_job-Sound :
    (job : ControlJob) (now started : ℕ) (rounds : List Round) (s : ControlState)
    → WellFormed s
    → get_control_job job.id s ≡ some job
    → is_active job.status ≡ true
    → Sound s job.id (verified_control_worker job.id now started rounds s).1
unfolding verified_control_worker with_job
with_job-Sound job now started rounds s w found active = rw found (
    with_miner-Sound s job (get_miner job.miner_id s.miners) now started rounds s
      (record { path = begin s; well_formed = w; row = job; found = found; unfinished = active }))

-- A worker that runs for an unfinished job of a well formed table writes, step by step, to its own
-- job while that is unfinished, or elsewhere than to the jobs, whatever the firmware answers, however
-- the clocks run, whatever is polled, and however it ends; its run is a sequence of steps of the
-- pipeline, and it keeps the jobs table well formed.
pub verified_control_worker-WorkerSteps :
    (job : ControlJob) (now started : ℕ) (rounds : List Round) (s : ControlState)
    → WellFormed s
    → get_control_job job.id s ≡ some job
    → is_active job.status ≡ true
    → let t = (verified_control_worker job.id now started rounds s).1 in
      WellFormed t × WorkerSteps job.id s t × Steps s t
verified_control_worker-WorkerSteps job now started rounds s w found active =
    let (well_formed, path) = with_job-Sound job now started rounds s w found active in
    (well_formed, path, WorkerSteps-Steps job.id s _ path)
