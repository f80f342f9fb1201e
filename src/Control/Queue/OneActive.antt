-- ===== src/Control/Queue/OneActive.antt =====
-- The queue keeps the invariant of the jobs table (app/control/queue.py): whatever is asked, a
-- miner never has two unfinished jobs.
use mathlib.Core.Path.{subst}
use open_asicmanager.Prelude.{
  ℕ, ◌≡◌, refl, ap, ◌∙◌, Bool, true, false, Option, none, some, List, arith, ==_iff, Result, ok,
  raised, first_matches,
}
use open_asicmanager.Fleet.{Action, Miner, MinerState, get_miner, has_id}
use open_asicmanager.Control.{Fault, ControlState, ControlJob, LogEvent, Submission}
use open_asicmanager.Control.Jobs.{get_active_control_job, set_manual_override}
use open_asicmanager.Control.Jobs.Invariant.{WellFormed, create-WellFormed}
use open_asicmanager.Control.Queue.{
  QueueRuntime, controllable_miner, control_checks, enqueue_reboot, enqueue_control,
  after_reboot_checks, after_control_checks, queue_reboot, queue_control, log_and_submit,
}

get_miner-id : (i : ℕ) (ms : List Miner) {m : Miner} → get_miner i ms ≡ some m → m.id ≡ i
unfolding get_miner
get_miner-id i ms {m} h = (==_iff m.id i).0 (first_matches (has_id i) ms h)

pub controllable-id :
    (i : ℕ) (f : Fault) (s : ControlState) {m : Miner} → controllable_miner i f s ≡ ok m → m.id ≡ i
unfolding controllable_miner
controllable-id i f s {m} h = ground (arith, get_miner-id i s.miners {m = m})

pub checks-id :
    (i : ℕ) (a : Action) (s : ControlState) {m : Miner} {t : MinerState}
    → control_checks i a s ≡ ok (m, t)
    → m.id ≡ i
unfolding control_checks
checks-id i a s {m} h = ground (arith, get_miner-id i s.miners {m = m})

override-WellFormed :
    (i until : ℕ) (s : ControlState) → WellFormed s → WellFormed (set_manual_override i until s)
unfolding set_manual_override
override-WellFormed i until s w = record {
  one_active = w.one_active;
  distinct_ids = w.distinct_ids;
  fresh_id = w.fresh_id;
}

logged-WellFormed :
    (e : LogEvent) (x : Submission) (s : ControlState)
    → WellFormed s
    → WellFormed (log_and_submit e x s)
unfolding log_and_submit
logged-WellFormed e x s w = record {
  one_active = w.one_active;
  distinct_ids = w.distinct_ids;
  fresh_id = w.fresh_id;
}

active-override :
    (i m until : ℕ) (s : ControlState)
    → get_active_control_job m (set_manual_override i until s) ≡ get_active_control_job m s
unfolding set_manual_override get_active_control_job
active-override i m until s = refl

enqueue_reboot-WellFormed :
    (rt : QueueRuntime) (now : ℕ) (m : Miner) (o : Option ControlJob) (s : ControlState)
    → get_active_control_job m.id s ≡ o
    → WellFormed s
    → WellFormed (enqueue_reboot rt now m o s).1
unfolding enqueue_reboot
enqueue_reboot-WellFormed rt now m (some j) s e w = w
enqueue_reboot-WellFormed rt now m none s e w =
    logged-WellFormed _ _ _ (create-WellFormed m _ _ _ _ now s e w)

enqueue_control-WellFormed :
    (rt : QueueRuntime) (now : ℕ) (m : Miner) (a : Action) (t : MinerState) (manual : Bool)
    (o : Option ControlJob) (s : ControlState)
    → get_active_control_job m.id s ≡ o
    → WellFormed s
    → WellFormed (enqueue_control rt now m.id m a t manual o s).1
unfolding enqueue_control
enqueue_control-WellFormed rt now m a t manual (some j) s e w = w
enqueue_control-WellFormed rt now m a t true none s e w = logged-WellFormed _ _ _ (
    create-WellFormed m _ _ _ _ now _ (active-override m.id m.id _ s ∙ e)
      (override-WellFormed m.id _ s w))
enqueue_control-WellFormed rt now m a t false none s e w =
    logged-WellFormed _ _ _ (create-WellFormed m _ _ _ _ now s e w)

reboot_checked-WellFormed :
    (rt : QueueRuntime) (now i : ℕ) (r : Result Fault Miner) (s : ControlState)
    → ((m : Miner) → r ≡ ok m → m.id ≡ i)
    → WellFormed s
    → WellFormed (after_reboot_checks rt now i r s).1
unfolding after_reboot_checks
reboot_checked-WellFormed rt now i (raised e) s h w = w
reboot_checked-WellFormed rt now i (ok m) s h w =
    enqueue_reboot-WellFormed rt now m _ s (ap (λ k. get_active_control_job k s) (h m refl)) w

control_checked-WellFormed :
    (rt : QueueRuntime) (now i : ℕ) (a : Action) (manual : Bool)
    (r : Result Fault (Miner × MinerState)) (s : ControlState)
    → ((m : Miner) (t : MinerState) → r ≡ ok (m, t) → m.id ≡ i)
    → WellFormed s
    → WellFormed (after_control_checks rt now i a manual r s).1
unfolding after_control_checks
control_checked-WellFormed rt now i a manual (raised e) s h w = w
control_checked-WellFormed rt now i a manual (ok (m, t)) s h w =
    subst (λ k. WellFormed (enqueue_control rt now k m a t manual (get_active_control_job k s) s).1)
      (h m t refl) (enqueue_control-WellFormed rt now m a t manual _ s refl w)

-- Whatever `queue_reboot` is asked for, and whether it accepts, finds an unfinished job or raises,
-- the jobs table keeps its invariant: at most one unfinished job for each miner, no id used twice.
pub queue_reboot-WellFormed :
    (runtime : QueueRuntime) (now miner_id : ℕ) (s : ControlState)
    → WellFormed s
    → WellFormed (queue_reboot runtime now miner_id s).1
unfolding queue_reboot
queue_reboot-WellFormed runtime now miner_id s w =
    reboot_checked-WellFormed runtime now miner_id _ s (λ m e. controllable-id miner_id _ s e) w

-- Whatever `queue_control` is asked for, by hand or by the scheduler, and whether it accepts, finds
-- an unfinished job or raises, the jobs table keeps its invariant: at most one unfinished job for
-- each miner, no id used twice, and the next id new.
pub queue_control-WellFormed :
    (runtime : QueueRuntime) (now miner_id : ℕ) (action : Action) (manual : Bool) (s : ControlState)
    → WellFormed s
    → WellFormed (queue_control runtime now miner_id action manual s).1
unfolding queue_control
queue_control-WellFormed runtime now miner_id action manual s w =
    control_checked-WellFormed runtime now miner_id action manual _ s
      (λ m t e. checks-id miner_id action s e) w
