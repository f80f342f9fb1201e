-- ===== src/Control/Queue/Outcomes.antt =====
-- When the queue accepts a command, and what an accepted and a refused command leave behind
-- (app/control/queue.py).
use open_asicmanager.Prelude.{
  ℕ, String, ◌≡◌, refl, ◌∙◌, Bool, true, false, ◌&&◌, Option, none, some, List, [], ◌∷◌, ◌++◌,
  arith, ==_refl, ◌==◌, ok, raised, if◌then◌else◌, All, All-map, first_row, first-append_none,
  first_none_of_All, last-append_match, first-update_self,
}
use open_asicmanager.Fleet.{
  Action, pause, resume, reboot, Miner, MinerState, supported, has_id, get_miner, update_miner,
}
use open_asicmanager.Control.{queued, job_target, verified_control_worker, ControlState, ControlJob}
use open_asicmanager.Control.Policy.{control_target}
use open_asicmanager.Control.Jobs.{
  is_job, active_for, get_control_job, get_active_control_job, set_manual_override, new_job,
  create_control_job,
}
use open_asicmanager.Control.Jobs.Invariant.{WellFormed, IsBelow}
use open_asicmanager.Control.Queue.{
  QueueRuntime, Outcome, control_max_attempts, control_checks, override_until, queued_event,
  enqueue_control, queue_control,
}

abbrev pub accepted? : Outcome → Bool
accepted? (ok r, s) = r.accepted
accepted? (raised e, s) = false

-- The specification: the miner is managed, its firmware is one of the two supported families, and
-- nothing is queued or running for it.
abbrev pub idle? : Option ControlJob → Bool
idle? none = true
idle? (some j) = false

abbrev pub ready? : Option Miner → Bool
ready? none = false
ready? (some m) = m.enabled && supported m.driver

abbrev pub control_action? : Action → Bool
control_action? pause = true
control_action? resume = true
control_action? reboot = false

-- A pause or resume is accepted exactly when it is one, the miner is known, enabled and of a
-- supported firmware, and has no unfinished job.
pub queue_control-accepts :
    (runtime : QueueRuntime) (now miner_id : ℕ) (action : Action) (manual : Bool) (s : ControlState)
    → accepted? (queue_control runtime now miner_id action manual s) ≡ (
        control_action? action
        && ready? (get_miner miner_id s.miners)
        && idle? (get_active_control_job miner_id s))
unfolding queue_control supported
queue_control-accepts runtime now miner_id action manual s = ground arith

-- A command that is not accepted, because it raises or because a job is unfinished, changes
-- nothing: no row, no audit event and no submission.
pub queue_control_refused :
    (runtime : QueueRuntime) (now miner_id : ℕ) (action : Action) (manual : Bool) (s : ControlState)
    → accepted? (queue_control runtime now miner_id action manual s) ≡ false
    → (queue_control runtime now miner_id action manual s).1 ≡ s
unfolding queue_control supported
queue_control_refused runtime now miner_id action manual s h = ground arith

fresh-not_found :
    (n : ℕ) (xs : List ControlJob) → All (IsBelow n) xs → first_row (is_job n) xs ≡ none
fresh-not_found n xs h =
    first_none_of_All (is_job n) xs
      (All-map (IsBelow n) (λ j. is_job n j ≡ false) xs (λ j lt. ground arith) h)

-- The row that is inserted can be read by its id, and is the unfinished job of its miner.
created_is_found :
    (m : Miner) (source : String) (a : Action) (t : MinerState) (k now : ℕ) (s : ControlState)
    → WellFormed s
    → let job = new_job m source a t k now s.next_job in
      let s' = create_control_job m source a t k now s in
      (get_control_job s.next_job s' ≡ some job) × (get_active_control_job m.id s' ≡ some job)
unfolding create_control_job get_control_job get_active_control_job
created_is_found m source a t k now s w =
    let job = new_job m source a t k now s.next_job in
    (
      first-append_none (is_job s.next_job) s.jobs (job ∷ [])
            (fresh-not_found s.next_job s.jobs w.fresh_id)
          ∙ found (==_refl s.next_job),
      last-append_match (active_for m.id) s.jobs job (ground arith),
    )
  where
    found :
        (s.next_job == s.next_job) ≡ true
        → first_row (is_job s.next_job) (new_job m source a t k now s.next_job ∷ [])
          ≡ some (new_job m source a t k now s.next_job)
    found e = unfold first_row in rw e refl

abbrev pub source_of : QueueRuntime → Bool → String
source_of runtime manual = if manual then runtime.audit_source "MANUAL" else "SCHEDULER"

abbrev pub overridden : QueueRuntime → Bool → Miner → Miner
overridden runtime manual m =
    if manual
    then record m { manual_override_until = some (override_until (runtime.next_transition m.id)) }
    else m

override-miner :
    (i until : ℕ) (s : ControlState) {m : Miner}
    → get_miner i s.miners ≡ some m
    → get_miner i (set_manual_override i until s).miners
      ≡ some (record m { manual_override_until = some until })
unfolding get_miner set_manual_override update_miner
override-miner i until s h =
    first-update_self (has_id i) (λ m. record m { manual_override_until = some until }) s.miners
      (λ m e. e)
    ∙ rw h refl

enqueued :
    (rt : QueueRuntime) (now : ℕ) (m : Miner) (a : Action) (t : MinerState) (manual : Bool)
    (s : ControlState)
    → WellFormed s
    → get_miner m.id s.miners ≡ some m
    → let out = enqueue_control rt now m.id m a t manual none s in
      let job = new_job m (source_of rt manual) a t control_max_attempts now s.next_job in
      (get_control_job s.next_job out.1 ≡ some job)
      × (get_active_control_job m.id out.1 ≡ some job)
      × (get_miner m.id out.1.miners ≡ some (overridden rt manual m))
unfolding enqueue_control set_manual_override get_active_control_job get_control_job
enqueued rt now m a t true s w h =
    let (f, g) = created_is_found m (source_of rt true) a t control_max_attempts now s w in
    (f, g, override-miner m.id (override_until (rt.next_transition m.id)) s h)
enqueued rt now m a t false s w h =
    let (f, g) = created_is_found m (source_of rt false) a t control_max_attempts now s w in
    (f, g, h)

checks_pass :
    (m : Miner) (a : Action) (s : ControlState) {t : MinerState}
    → get_miner m.id s.miners ≡ some m
    → m.enabled ≡ true
    → supported m.driver ≡ true
    → control_target a ≡ ok t
    → control_checks m.id a s ≡ ok (m, t)
unfolding control_checks
checks_pass m a s {t} found on known target = ground arith

-- For a managed miner with no unfinished job, a pause or resume is queued: the reply names the new
-- job, whose row can be read back by that id as QUEUED with no attempt made and three allowed, it is
-- the miner's unfinished job, exactly one worker is submitted, and one event names it. By hand, the
-- miner's schedule override lasts until its next transition (0 if it has none); otherwise the
-- miner's row stays as it was.
pub queue_control_queues :
    (runtime : QueueRuntime) (now : ℕ) (m : Miner) (action : Action) (target : MinerState)
    (manual : Bool) (s : ControlState)
    → WellFormed s
    → get_miner m.id s.miners ≡ some m
    → m.enabled ≡ true
    → supported m.driver ≡ true
    → control_target action ≡ ok target
    → get_active_control_job m.id s ≡ none
    → let out = queue_control runtime now m.id action manual s in
      let job =
        new_job m (source_of runtime manual) action target control_max_attempts now s.next_job in
      (out.0
        ≡ ok (record {
          accepted = true;
          already_active = false;
          job_id = s.next_job;
          status = queued;
          action = action;
          target_state = target;
        }))
      × (get_control_job s.next_job out.1 ≡ some job)
      × (get_active_control_job m.id out.1 ≡ some job)
      × (get_miner m.id out.1.miners ≡ some (overridden runtime manual m))
      × (out.1.submitted ≡ s.submitted ++ verified_control_worker s.next_job ∷ [])
      × (out.1.log
          ≡ s.log
            ++ queued_event (source_of runtime manual) action m (job_target s.next_job target) ∷ [])
unfolding queue_control get_active_control_job
queue_control_queues runtime now m action target manual s w found on known aim idle =
    rw (checks_pass m action s found on known aim) (
      rw idle (
        let (f, g, h) = enqueued runtime now m action target manual s w found in
        (refl, f, g, h, ground arith, ground arith)))
