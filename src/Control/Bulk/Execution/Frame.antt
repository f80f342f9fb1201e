-- ===== src/Control/Bulk/Execution/Frame.antt =====
-- What one turn of a bulk command does to the control state (app/control/bulk.py).
use open_asicmanager.Prelude.{
  ℕ, ap, sym, subst, ◌≤◌, All, first_row, last_row, count_rows, is_some, ◌+◌, ◌≡◌, ◌≢◌, refl, ◌∙◌,
  true, not, ◌&&◌, Option, none, some, arith, length, ok, raised,
}
use open_asicmanager.Fleet.{Action, pause, resume, reboot, has_id, get_miner}
use open_asicmanager.Control.{ControlState, Rejection}
use open_asicmanager.Control.Jobs.{active_for, is_job, get_active_control_job}
use open_asicmanager.Control.Jobs.Invariant.{WellFormed, IsBelow}
use open_asicmanager.Control.Queue.{QueueRuntime, Outcome}
use open_asicmanager.Control.Queue.OneActive.{queue_control-WellFormed, queue_reboot-WellFormed}
use open_asicmanager.Control.Queue.Outcomes.{accepted?, ready?, idle?, queue_control-accepts}
use open_asicmanager.Control.Queue.Others.{
  Spares, IsDecided, one_if, queue_control-Spares, queue_reboot-Spares, queue_control-IsDecided,
  queue_reboot-IsDecided, queue_reboot-accepts, queue_control-jobs, queue_reboot-jobs,
}
use open_asicmanager.Control.Bulk.Selection.{Target}
use open_asicmanager.Control.Bulk.Execution.{after_queue, call_queue, serve_public}

-- The rows of the two tables are the same; only the log may differ.
abbrev SameTables : ControlState → ControlState → Type 0
SameTables s t = (t.miners ≡ s.miners) × (t.jobs ≡ s.jobs) × (t.next_job ≡ s.next_job)

after_queue-SameTables :
    (a : Action) (target : Target) (out : Outcome) → SameTables out.1 (after_queue a target out).1
unfolding after_queue
after_queue-SameTables a target (raised e, s) = (refl, refl, refl)
after_queue-SameTables a target (ok r, s) = ground arith

SameTables-Spares : (k : ℕ) (s t u : ControlState) → SameTables t u → Spares k s t → Spares k s u
unfolding get_miner get_active_control_job
SameTables-Spares k s t u h p =
    (ap (λ ms. first_row (has_id k) ms) h.0 ∙ p.0, ap (λ js. last_row (active_for k) js) h.1 ∙ p.1)

SameTables-WellFormed : (s t : ControlState) → SameTables s t → WellFormed s → WellFormed t
SameTables-WellFormed s t h w = record {
  one_active = λ m. subst (λ js. count_rows (active_for m) js ≤ 1) (sym h.1) (w.one_active m);
  distinct_ids = λ i. subst (λ js. count_rows (is_job i) js ≤ 1) (sym h.1) (w.distinct_ids i);
  fresh_id =
      subst (λ n. All (IsBelow n) t.jobs) (sym h.2)
        (subst (λ js. All (IsBelow s.next_job) js) (sym h.1) w.fresh_id);
}

call_queue-Spares :
    (rt : QueueRuntime) (now k : ℕ) (a : Action) (i : ℕ) (s : ControlState)
    → i ≢ k
    → Spares k s (call_queue rt now a i s).1
unfolding call_queue
call_queue-Spares rt now k pause i s ne = queue_control-Spares rt now k i pause true s ne
call_queue-Spares rt now k resume i s ne = queue_control-Spares rt now k i resume true s ne
call_queue-Spares rt now k reboot i s ne = queue_reboot-Spares rt now k i s ne

call_queue-WellFormed :
    (rt : QueueRuntime) (now : ℕ) (a : Action) (i : ℕ) (s : ControlState)
    → WellFormed s
    → WellFormed (call_queue rt now a i s).1
unfolding call_queue
call_queue-WellFormed rt now pause i s w = queue_control-WellFormed rt now i pause true s w
call_queue-WellFormed rt now resume i s w = queue_control-WellFormed rt now i resume true s w
call_queue-WellFormed rt now reboot i s w = queue_reboot-WellFormed rt now i s w

call_queue-jobs :
    (rt : QueueRuntime) (now : ℕ) (a : Action) (i : ℕ) (s : ControlState)
    → length (call_queue rt now a i s).1.jobs
      ≡ length s.jobs + one_if (accepted? (call_queue rt now a i s))
unfolding call_queue
call_queue-jobs rt now pause i s = queue_control-jobs rt now i pause true s
call_queue-jobs rt now resume i s = queue_control-jobs rt now i resume true s
call_queue-jobs rt now reboot i s = queue_reboot-jobs rt now i s

call_queue-IsDecided :
    (rt : QueueRuntime) (now : ℕ) (a : Action) (i : ℕ) (s : ControlState)
    → IsDecided (call_queue rt now a i s)
unfolding call_queue
call_queue-IsDecided rt now pause i s = queue_control-IsDecided rt now i pause true s
call_queue-IsDecided rt now resume i s = queue_control-IsDecided rt now i resume true s
call_queue-IsDecided rt now reboot i s = queue_reboot-IsDecided rt now i s

call_queue-accepts :
    (rt : QueueRuntime) (now : ℕ) (a : Action) (i : ℕ) (s : ControlState)
    → accepted? (call_queue rt now a i s)
      ≡ (ready? (get_miner i s.miners) && idle? (get_active_control_job i s))
unfolding call_queue
call_queue-accepts rt now pause i s = queue_control-accepts rt now i pause true s
call_queue-accepts rt now resume i s = queue_control-accepts rt now i resume true s
call_queue-accepts rt now reboot i s = queue_reboot-accepts rt now i s

-- The result says accepted exactly when the queue accepted.
after_queue-accepted :
    (a : Action) (target : Target) (out : Outcome)
    → IsDecided out
    → (after_queue a target out).0.accepted ≡ accepted? out
unfolding after_queue
after_queue-accepted a target (raised e, s) h = refl
after_queue-accepted a target (ok r, s) h = ground arith

-- One turn, by the reason of a refusal at the preview.
module _ (rt : QueueRuntime) (now : ℕ → ℕ) (a : Action) (target : Target) where
  pub serve_public-Spares :
      (o : Option Rejection) (k : ℕ) (s : ControlState)
      → target.miner_id ≢ k
      → Spares k s (serve_public rt now a target o s).1
  unfolding serve_public get_active_control_job
  serve_public-Spares (some why) k s ne = (refl, refl)
  serve_public-Spares none k s ne =
      let out = call_queue rt (now target.miner_id) a target.miner_id s in
      SameTables-Spares k s out.1 (after_queue a target out).1 (after_queue-SameTables a target out)
        (call_queue-Spares rt (now target.miner_id) k a target.miner_id s ne)

  pub serve_public-WellFormed :
      (o : Option Rejection) (s : ControlState)
      → WellFormed s
      → WellFormed (serve_public rt now a target o s).1
  unfolding serve_public
  serve_public-WellFormed (some why) s w = record {
    one_active = w.one_active;
    distinct_ids = w.distinct_ids;
    fresh_id = w.fresh_id;
  }
  serve_public-WellFormed none s w =
      let out = call_queue rt (now target.miner_id) a target.miner_id s in
      SameTables-WellFormed out.1 (after_queue a target out).1 (after_queue-SameTables a target out)
        (call_queue-WellFormed rt (now target.miner_id) a target.miner_id s w)

  pub serve_public-jobs :
      (o : Option Rejection) (s : ControlState)
      → let out = serve_public rt now a target o s in
        length out.1.jobs ≡ length s.jobs + one_if out.0.accepted
  unfolding serve_public
  serve_public-jobs (some why) s = omega arith
  serve_public-jobs none s =
      let time = now target.miner_id in
      let out = call_queue rt time a target.miner_id s in
      ap (λ js. length js) (after_queue-SameTables a target out).1
      ∙ call_queue-jobs rt time a target.miner_id s
      ∙ ap (λ b. length s.jobs + one_if b)
          (sym
            (after_queue-accepted a target out (call_queue-IsDecided rt time a target.miner_id s)))

  pub serve_public-accepted :
      (o : Option Rejection) (s : ControlState)
      → (serve_public rt now a target o s).0.accepted ≡ (
          not (is_some o)
          && (ready? (get_miner target.miner_id s.miners)
              && idle? (get_active_control_job target.miner_id s)))
  unfolding serve_public
  serve_public-accepted (some why) s = refl
  serve_public-accepted none s =
      let time = now target.miner_id in
      after_queue-accepted a target _ (call_queue-IsDecided rt time a target.miner_id s)
      ∙ call_queue-accepts rt time a target.miner_id s
