-- ===== src/Control/Reboot/Ends.antt =====
-- How a reboot ends (`reboot_worker`, app/control/worker.py): when it is verified, and what it
-- sends.
use open_asicmanager.Prelude.{
  ℕ, ◌+◌, ◌≡◌, ◌∙◌, refl, Bool, true, ◌&&◌, Option, some, String, List, [], ◌∷◌, ◌++◌, arith,
  if◌then◌else◌,
}
use open_asicmanager.Fleet.{Action, reboot, Miner, supported, get_miner}
use open_asicmanager.Control.{ControlJob, ControlState}
use open_asicmanager.Control.Jobs.{get_control_job, set_last_command}
use open_asicmanager.Control.Worker.{
  seconds, Reply, answered, refused, dispatch, issue, finish_control_job,
}
use open_asicmanager.Control.Reboot.{
  Reboot, RebootRun, state_of, Transition, seen, unseen, cut, short, note_transition, note_return,
  after_transition, reboot_of, after_send, reboot_worker, reboot_not_supported,
  reboot_transition_timeout, reboot_return_timeout,
}
use open_asicmanager.Control.Reboot.Rule.{after_send-Ends}
use open_asicmanager.Control.Reboot.Phases.{
  observations, live, two_operational, verified?, reboot_shown, miners_when_shown, Shown,
  transition_loop_lem, return_loop_lem,
}

after_transition-verified :
    (b : Reboot) (run : RebootRun) (t : Transition) (shown : Bool) (ms : List Miner)
    → Shown t shown ms
    → verified? (after_transition b run t).0 ≡ (
        shown
        && two_operational (
            observations b.miner_id ms
              (live (run.seen_time + seconds reboot_return_timeout) run.return_rounds)))
unfolding after_transition
after_transition-verified b run (seen st s) shown ms (e, m) =
    return_loop_lem b st _ run.return_rounds _ (omega arith) ∙ (rw e (rw m refl))
after_transition-verified b run (unseen now s) shown ms e = rw e
after_transition-verified b run (cut s) shown ms e = rw e
after_transition-verified b run (short s) shown ms e = rw e

issued_miners :
    (m : Miner) (i : ℕ) (a : Action) (s : ControlState) → (issue (some m) i a s).miners ≡ s.miners
unfolding issue
issued_miners m i a s = ground arith

sent-verified :
    (b : Reboot) (run : RebootRun) (reply : Reply) (response : Option String) (s : ControlState)
    → reply ≡ answered response
    → let before = (set_last_command b.miner_id reboot run.now s).miners in
      let first = live (run.sent_time + seconds reboot_transition_timeout) run.transition_rounds in
      let second = live (run.seen_time + seconds reboot_return_timeout) run.return_rounds in
      verified? (after_send b run reply s).0 ≡ (
        reboot_shown b.initial_state (observations b.miner_id before first)
        && two_operational (
            observations b.miner_id
              (miners_when_shown b.miner_id b.initial_state before first)
              second))
unfolding after_send set_last_command
sent-verified b run (refused error) response s e = cc
sent-verified b run (answered other) response s e =
    after_transition-verified b run _ _ _ (transition_loop_lem b _ run.transition_rounds _)

dispatched :
    (m : Miner) (unsupported : String) (device : Reply)
    → supported m.driver ≡ true
    → dispatch (some m) unsupported device ≡ device
unfolding dispatch
dispatched m unsupported device family = rw family

-- A reboot job of a known miner with a supported firmware that answers the command is verified
-- exactly when, first, some poll within the transition timeout shows the miner offline or unknown,
-- or starting where it was not, and then, from the miners of that poll on, two polls in a row within
-- the return timeout show it mining or paused; polls after a shutdown do not count.
pub reboot_worker-verified :
    (job : ControlJob) (m : Miner) (run : RebootRun) (response : Option String) (s : ControlState)
    → get_control_job job.id s ≡ some job
    → get_miner job.miner_id s.miners ≡ some m
    → supported m.driver ≡ true
    → run.device ≡ answered response
    → let before = (set_last_command job.miner_id reboot run.now s).miners in
      let first = live (run.sent_time + seconds reboot_transition_timeout) run.transition_rounds in
      let second = live (run.seen_time + seconds reboot_return_timeout) run.return_rounds in
      verified? (reboot_worker job.id run s).0 ≡ (
        reboot_shown (state_of m) (observations job.miner_id before first)
        && two_operational (
            observations job.miner_id
              (miners_when_shown job.miner_id (state_of m) before first)
              second))
unfolding reboot_worker set_last_command
reboot_worker-verified job m run response s found known family answer = rw found (
    rw known (
      sent-verified (reboot_of job m) run _ response _
        (dispatched m reboot_not_supported run.device family ∙ answer)
      ∙ rw (issued_miners m job.miner_id reboot _) refl))

-- Whatever the firmware answers, the clock and the polls: the worker hands the reboot to a firmware
-- driver exactly once if the miner's firmware is supported, and never otherwise. It is
-- never repeated.
pub reboot_worker-issued :
    (job : ControlJob) (m : Miner) (run : RebootRun) (s : ControlState)
    → get_control_job job.id s ≡ some job
    → get_miner job.miner_id s.miners ≡ some m
    → (reboot_worker job.id run s).1.issued
      ≡ (if supported m.driver then s.issued ++ (job.miner_id, reboot) ∷ [] else s.issued)
unfolding reboot_worker note_transition note_return finish_control_job
reboot_worker-issued job m run s found known = rw found (
    rw known (
      after_send-Ends (reboot_of job m)
        (λ t.
          t.issued
          ≡ (if supported m.driver then s.issued ++ (job.miner_id, reboot) ∷ [] else s.issued))
        (λ ms t p. p) (λ st t p. p) (λ st n t p. p)
        (λ e t.
          t.issued
          ≡ (if supported m.driver then s.issued ++ (job.miner_id, reboot) ∷ [] else s.issued))
        (λ t p. p) (λ t p. p) (λ now k final text t p. p) (λ now k final text t p. p)
        (λ source e k ok text t p. p) run _ _ (ground arith)))
