-- ===== src/Control/Queue/Others.antt =====
-- What queueing a command for one miner leaves to the others, and how it answers (app/control/queue.py).
use open_asicmanager.Prelude.{
  ℕ, sym, subst, ◌+◌, ◌≡◌, ◌≢◌, refl, ◌∙◌, Bool, true, false, not, ◌&&◌, Option, none, some, List,
  Result, ok, raised, arith, length, length-append_one, last-append_other, first-update_ne,
}
use open_asicmanager.Fleet.{Action, Miner, MinerState, has_id, get_miner, update_miner, supported}
use open_asicmanager.Control.{ControlJob, ControlState, Fault, reboot_unsupported}
use open_asicmanager.Control.Jobs.{active_for, get_active_control_job, set_manual_override}
use open_asicmanager.Control.Queue.{
  QueueRuntime, Outcome, enqueue_control, enqueue_reboot, controllable_miner, control_checks,
  after_control_checks, after_reboot_checks, queue_control, queue_reboot, override_until,
}
use open_asicmanager.Control.Queue.OneActive.{controllable-id, checks-id}
use open_asicmanager.Control.Queue.Outcomes.{accepted?, ready?, idle?}

-- The row of a miner and its unfinished job stay what they were.
abbrev pub Spares : ℕ → ControlState → ControlState → Type 0
Spares k s t =
    (get_miner k t.miners ≡ get_miner k s.miners)
    × (get_active_control_job k t ≡ get_active_control_job k s)

other_job :
    (k : ℕ) (j : ControlJob) (jobs : List ControlJob) → j.miner_id ≢ k → active_for k j ≡ false
other_job k j jobs ne = ground arith

override-Spares :
    (k i until : ℕ) (s : ControlState) → i ≢ k → Spares k s (set_manual_override i until s)
unfolding set_manual_override get_miner update_miner get_active_control_job
override-Spares k i until s ne =
    (first-update_ne (has_id k) (has_id i) _ s.miners (λ m e. ground arith), refl)

module _ (rt : QueueRuntime) (now k : ℕ) where
  enqueue_control-Spares :
      (m : Miner) (a : Action) (t : MinerState) (manual : Bool) (o : Option ControlJob)
      (s : ControlState)
      → m.id ≢ k
      → Spares k s (enqueue_control rt now m.id m a t manual o s).1
  unfolding enqueue_control get_active_control_job
  enqueue_control-Spares m a t manual (some j) s ne = (refl, refl)
  enqueue_control-Spares m a t true none s ne =
      let until = override_until (rt.next_transition m.id) in
      let spared = override-Spares k m.id until s ne in
      (
        spared.0,
        last-append_other (active_for k) (set_manual_override m.id until s).jobs _ (ground arith)
            ∙ unfold set_manual_override in refl,
      )
  enqueue_control-Spares m a t false none s ne =
      (refl, last-append_other (active_for k) s.jobs _ (ground arith))

  enqueue_reboot-Spares :
      (m : Miner) (o : Option ControlJob) (s : ControlState)
      → m.id ≢ k
      → Spares k s (enqueue_reboot rt now m o s).1
  unfolding enqueue_reboot get_active_control_job
  enqueue_reboot-Spares m (some j) s ne = (refl, refl)
  enqueue_reboot-Spares m none s ne =
      (refl, last-append_other (active_for k) s.jobs _ (ground arith))

  reboot_checked-Spares :
      (i : ℕ) (r : Result Fault Miner) (s : ControlState)
      → i ≢ k
      → ((m : Miner) → r ≡ ok m → m.id ≡ i)
      → Spares k s (after_reboot_checks rt now i r s).1
  unfolding after_reboot_checks
  reboot_checked-Spares i (raised e) s ne h = (refl, refl)
  reboot_checked-Spares i (ok m) s ne h =
      enqueue_reboot-Spares m (get_active_control_job i s) s (λ e. ne (sym (h m refl) ∙ e))

  control_checked-Spares :
      (i : ℕ) (a : Action) (manual : Bool) (r : Result Fault (Miner × MinerState))
      (s : ControlState)
      → i ≢ k
      → ((m : Miner) (t : MinerState) → r ≡ ok (m, t) → m.id ≡ i)
      → Spares k s (after_control_checks rt now i a manual r s).1
  unfolding after_control_checks
  control_checked-Spares i a manual (raised e) s ne h = (refl, refl)
  control_checked-Spares i a manual (ok (m, t)) s ne h =
      subst
        (λ z. Spares k s (enqueue_control rt now z m a t manual (get_active_control_job z s) s).1)
        (h m t refl)
        (enqueue_control-Spares m a t manual (get_active_control_job m.id s) s
          (λ e. ne (sym (h m t refl) ∙ e)))

  pub queue_control-Spares :
      (i : ℕ) (a : Action) (manual : Bool) (s : ControlState)
      → i ≢ k
      → Spares k s (queue_control rt now i a manual s).1
  unfolding queue_control
  queue_control-Spares i a manual s ne =
      control_checked-Spares i a manual (control_checks i a s) s ne (λ m t e. checks-id i a s e)

  pub queue_reboot-Spares :
      (i : ℕ) (s : ControlState) → i ≢ k → Spares k s (queue_reboot rt now i s).1
  unfolding queue_reboot
  queue_reboot-Spares i s ne =
      reboot_checked-Spares i (controllable_miner i reboot_unsupported s) s ne
        (λ m e. controllable-id i reboot_unsupported s e)

-- A reply that does not accept names the unfinished job.
abbrev pub IsDecided : Outcome → Type 0
IsDecided (ok r, s) = r.already_active ≡ not r.accepted
IsDecided (raised e, s) = Unit

pub queue_control-IsDecided :
    (rt : QueueRuntime) (now i : ℕ) (a : Action) (manual : Bool) (s : ControlState)
    → IsDecided (queue_control rt now i a manual s)
unfolding queue_control
queue_control-IsDecided rt now i a manual s = ground arith

pub queue_reboot-IsDecided :
    (rt : QueueRuntime) (now i : ℕ) (s : ControlState) → IsDecided (queue_reboot rt now i s)
unfolding queue_reboot
queue_reboot-IsDecided rt now i s = ground arith

-- A reboot is accepted exactly when the miner is known, enabled and of a supported firmware, and has
-- no unfinished job.
pub queue_reboot-accepts :
    (rt : QueueRuntime) (now i : ℕ) (s : ControlState)
    → accepted? (queue_reboot rt now i s)
      ≡ (ready? (get_miner i s.miners) && idle? (get_active_control_job i s))
unfolding queue_reboot supported
queue_reboot-accepts rt now i s = ground arith

-- A job row is made exactly when a command is accepted.
abbrev pub one_if : Bool → ℕ
one_if true = 1
one_if false = 0

module _ (rt : QueueRuntime) (now : ℕ) where
  enqueue_control-jobs :
      (i : ℕ) (m : Miner) (a : Action) (t : MinerState) (manual : Bool) (o : Option ControlJob)
      (s : ControlState)
      → let out = enqueue_control rt now i m a t manual o s in
        length out.1.jobs ≡ length s.jobs + one_if out.0.accepted
  unfolding enqueue_control set_manual_override
  enqueue_control-jobs i m a t manual (some j) s = omega arith
  enqueue_control-jobs i m a t true none s = length-append_one s.jobs _
  enqueue_control-jobs i m a t false none s = length-append_one s.jobs _

  enqueue_reboot-jobs :
      (m : Miner) (o : Option ControlJob) (s : ControlState)
      → let out = enqueue_reboot rt now m o s in
        length out.1.jobs ≡ length s.jobs + one_if out.0.accepted
  unfolding enqueue_reboot
  enqueue_reboot-jobs m (some j) s = omega arith
  enqueue_reboot-jobs m none s = length-append_one s.jobs _

  control_checked-jobs :
      (i : ℕ) (a : Action) (manual : Bool) (r : Result Fault (Miner × MinerState))
      (s : ControlState)
      → let out = after_control_checks rt now i a manual r s in
        length out.1.jobs ≡ length s.jobs + one_if (accepted? out)
  unfolding after_control_checks
  control_checked-jobs i a manual (raised e) s = omega arith
  control_checked-jobs i a manual (ok (m, t)) s =
      enqueue_control-jobs i m a t manual (get_active_control_job i s) s

  reboot_checked-jobs :
      (i : ℕ) (r : Result Fault Miner) (s : ControlState)
      → let out = after_reboot_checks rt now i r s in
        length out.1.jobs ≡ length s.jobs + one_if (accepted? out)
  unfolding after_reboot_checks
  reboot_checked-jobs i (raised e) s = omega arith
  reboot_checked-jobs i (ok m) s = enqueue_reboot-jobs m (get_active_control_job i s) s

  pub queue_control-jobs :
      (i : ℕ) (a : Action) (manual : Bool) (s : ControlState)
      → let out = queue_control rt now i a manual s in
        length out.1.jobs ≡ length s.jobs + one_if (accepted? out)
  unfolding queue_control
  queue_control-jobs i a manual s = control_checked-jobs i a manual (control_checks i a s) s

  pub queue_reboot-jobs :
      (i : ℕ) (s : ControlState)
      → let out = queue_reboot rt now i s in
        length out.1.jobs ≡ length s.jobs + one_if (accepted? out)
  unfolding queue_reboot
  queue_reboot-jobs i s = reboot_checked-jobs i (controllable_miner i reboot_unsupported s) s
