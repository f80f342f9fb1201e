-- ===== src/Anomalies/Policies/Store/Saved.antt =====
-- What is saved of the policy is what is loaded (app/anomalies/repository.py).
use open_asicmanager.Prelude.{ℕ, ◌≤◌, ◌≡◌, refl, arith, ok, Ensures, bind-Ensures, ensured}
use open_asicmanager.Values.Integers.{in_range}
use open_asicmanager.Values.Numerals.{decimal}
use open_asicmanager.Values.Numerals.Decimal.{int_of_text-decimal}
use open_asicmanager.Anomalies.Policies.{
  Floats, Field, offline_grace_seconds, hot_grace_seconds, schedule_grace_seconds, words, Members,
  AnomalyPolicy, grace_value, interval_value, hot_value, clear_value, normalize_anomaly_policy,
}
use open_asicmanager.Anomalies.Policies.Valid.{IsValid, InRange, normalize_anomaly_policy-IsValid}
use open_asicmanager.Anomalies.Policies.Store.{
  PolicyStore, settings_of, load_anomaly_policy, save_anomaly_policy,
}

module _ (fl : Floats) where
  open fl use {Number, lt, is_finite, exact, print, of_text, reads_back}

  grace-decimal : (f : Field) (n : ℕ) → n ≤ 86400 → grace_value fl f (words (decimal n)) ≡ ok n
  unfolding grace_value in_range
  grace-decimal f n h = rw (int_of_text-decimal n, exact n h) (ground arith)

  interval-decimal : (n : ℕ) → (5 ≤ n) × (n ≤ 3600) → interval_value fl (words (decimal n)) ≡ ok n
  unfolding interval_value in_range
  interval-decimal n h = rw (int_of_text-decimal n, exact n (omega arith)) (ground arith)

  hot-print : (x : Number) → InRange fl (fl.n40) (fl.n120) x → hot_value fl (words (print x)) ≡ ok x
  unfolding hot_value
  hot-print x h = rw (reads_back x h.0, h.0, h.1, h.2) refl

  clear-print :
      (x : Number) → InRange fl (fl.n30) (fl.n119_9) x → clear_value fl (words (print x)) ≡ ok x
  unfolding clear_value
  clear-print x h = rw (reads_back x h.0, h.0, h.1, h.2) refl

  load-settings_of :
      (p : AnomalyPolicy Number) → IsValid fl p → load_anomaly_policy fl (settings_of fl p) ≡ p
  unfolding load_anomaly_policy settings_of normalize_anomaly_policy
  load-settings_of p v =
      rw
        (
          interval-decimal p.interval v.interval,
          grace-decimal offline_grace_seconds p.offline_grace v.offline_grace,
          hot-print p.hot_temp v.hot_temp,
          clear-print p.hot_clear v.hot_clear,
          grace-decimal hot_grace_seconds p.hot_grace v.hot_grace,
          grace-decimal schedule_grace_seconds p.schedule_grace v.schedule_grace,
          v.clear_lower,
        )
        refl

  saves :
      (given : Members Number) (store : PolicyStore Number)
      → Ensures
          (λ r. load_anomaly_policy fl r.1.settings ≡ r.0)
          (save_anomaly_policy fl given store)
  unfolding save_anomaly_policy
  saves given store = bind-Ensures _ (normalize_anomaly_policy fl given) _ (λ p h.
      load-settings_of p (ensured (IsValid fl) _ (normalize_anomaly_policy-IsValid fl given) h))

  -- A policy that is saved is the one that is loaded after it: the texts that the settings keep of it read
  -- back to the same six values.
  pub load-save :
      (given : Members Number) (store : PolicyStore Number) {p : AnomalyPolicy Number}
      {after : PolicyStore Number}
      → save_anomaly_policy fl given store ≡ ok (p, after)
      → load_anomaly_policy fl after.settings ≡ p
  load-save given store h =
      ensured (λ r. load_anomaly_policy fl r.1.settings ≡ r.0) _ (saves given store) h
