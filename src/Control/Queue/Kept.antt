-- ===== src/Control/Queue/Kept.antt =====
-- Queueing a command (app/control/queue.py) keeps every row that is there.
use open_asicmanager.Prelude.{
  ℕ, ◌≡◌, Bool, true, false, Option, none, some, Result, ok, raised, first-append_found,
}
use open_asicmanager.Fleet.{Action, Miner, MinerState}
use open_asicmanager.Control.{ControlJob, ControlState, Fault}
use open_asicmanager.Control.Jobs.{
  is_job, get_control_job, get_active_control_job, set_manual_override,
}
use open_asicmanager.Control.Queue.{
  QueueRuntime, enqueue_control, enqueue_reboot, after_control_checks, after_reboot_checks,
  queue_control, queue_reboot,
}

module _ (i : ℕ) (row : ControlJob) where
  abbrev Kept : ControlState → Type 0
  Kept s = get_control_job i s ≡ some row

  enqueue_control-Kept :
      (rt : QueueRuntime) (now k : ℕ) (m : Miner) (a : Action) (t : MinerState) (manual : Bool)
      (o : Option ControlJob) (s : ControlState)
      → Kept s
      → Kept (enqueue_control rt now k m a t manual o s).1
  unfolding enqueue_control get_control_job set_manual_override
  enqueue_control-Kept rt now k m a t manual (some j) s h = h
  enqueue_control-Kept rt now k m a t true none s h = first-append_found (is_job i) s.jobs _ h
  enqueue_control-Kept rt now k m a t false none s h = first-append_found (is_job i) s.jobs _ h

  enqueue_reboot-Kept :
      (rt : QueueRuntime) (now : ℕ) (m : Miner) (o : Option ControlJob) (s : ControlState)
      → Kept s
      → Kept (enqueue_reboot rt now m o s).1
  unfolding enqueue_reboot get_control_job
  enqueue_reboot-Kept rt now m (some j) s h = h
  enqueue_reboot-Kept rt now m none s h = first-append_found (is_job i) s.jobs _ h

  control_checked-Kept :
      (rt : QueueRuntime) (now k : ℕ) (a : Action) (manual : Bool)
      (r : Result Fault (Miner × MinerState)) (s : ControlState)
      → Kept s
      → Kept (after_control_checks rt now k a manual r s).1
  unfolding after_control_checks
  control_checked-Kept rt now k a manual (raised e) s h = h
  control_checked-Kept rt now k a manual (ok (m, t)) s h =
      enqueue_control-Kept rt now k m a t manual (get_active_control_job k s) s h

  reboot_checked-Kept :
      (rt : QueueRuntime) (now k : ℕ) (r : Result Fault Miner) (s : ControlState)
      → Kept s
      → Kept (after_reboot_checks rt now k r s).1
  unfolding after_reboot_checks
  reboot_checked-Kept rt now k (raised e) s h = h
  reboot_checked-Kept rt now k (ok m) s h =
      enqueue_reboot-Kept rt now m (get_active_control_job k s) s h

  pub queue_control-Kept :
      (rt : QueueRuntime) (now k : ℕ) (a : Action) (manual : Bool) (s : ControlState)
      → get_control_job i s ≡ some row
      → get_control_job i (queue_control rt now k a manual s).1 ≡ some row
  unfolding queue_control
  queue_control-Kept rt now k a manual s h = control_checked-Kept rt now k a manual _ s h

  pub queue_reboot-Kept :
      (rt : QueueRuntime) (now k : ℕ) (s : ControlState)
      → get_control_job i s ≡ some row
      → get_control_job i (queue_reboot rt now k s).1 ≡ some row
  unfolding queue_reboot
  queue_reboot-Kept rt now k s h = reboot_checked-Kept rt now k _ s h
