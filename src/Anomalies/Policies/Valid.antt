-- ===== src/Anomalies/Policies/Valid.antt =====
-- What a normalized policy is (app/anomalies/policy.py): within the limits, and unchanged when it is
-- normalized again.
pub mod Again
use open_asicmanager.Prelude.{
  ℕ, ◌≤◌, ◌≡◌, refl, true, false, Option, none, some, arith, ok, Ensures, bind-Ensures,
  then-Ensures, ensured, Bool-cases, inl, inr,
}
use open_asicmanager.Values.Integers.{ℤ, pos, negsuc, in_range}
use open_asicmanager.Anomalies.Policies.{
  Floats, Field, interval_seconds, offline_grace_seconds, hot_temp_c, hot_clear_c,
  hot_grace_seconds, schedule_grace_seconds, Raw, whole, real, Members, AnomalyPolicy, ranged,
  int_of_raw, ranged_number, number_of_raw, grace_value, interval_value, hot_value, clear_value,
  none_unknown, none_missing, missing, ordered, the, normalize_anomaly_policy, members_of,
}

module _ (fl : Floats) where
  open fl use {Number, lt, is_finite, is_exact, exact, n30, n40, n119_9, n120}

  abbrev pub InRange : Number → Number → Number → Type 0
  InRange lo hi x = (is_finite x ≡ true) × (lt x lo ≡ false) × (lt hi x ≡ false)

  pub record IsValid (p : AnomalyPolicy Number) : Type 0 where
    pub interval : (5 ≤ p.interval) × (p.interval ≤ 3600)
    pub offline_grace : p.offline_grace ≤ 86400
    pub hot_temp : InRange n40 n120 p.hot_temp
    pub hot_clear : InRange n30 n119_9 p.hot_clear
    pub hot_grace : p.hot_grace ≤ 86400
    pub schedule_grace : p.schedule_grace ≤ 86400
    pub clear_lower : lt p.hot_clear p.hot_temp ≡ true

  ranged-bounds :
      (f : Field) (lo hi : ℕ) (o : Option ℤ)
      → Ensures (λ n. (lo ≤ n) × (n ≤ hi)) (ranged fl f lo hi o)
  unfolding ranged in_range
  ranged-bounds f lo hi none = tt
  ranged-bounds f lo hi (some (pos n)) = ground arith
  ranged-bounds f lo hi (some (negsuc n)) = tt

  ranged_number-InRange :
      (f : Field) (lo hi : Number) (o : Option Number)
      → Ensures (InRange lo hi) (ranged_number fl f lo hi o)
  unfolding ranged_number
  ranged_number-InRange f lo hi none = tt
  ranged_number-InRange f lo hi (some x) = elim (Bool-cases (is_finite x)) [
    | inl e ↦ elim (Bool-cases (lt x lo)) [
      | inl g ↦ rw (e, g) tt
      | inr g ↦ elim (Bool-cases (lt hi x)) [
        | inl h ↦ rw (e, g, h) tt
        | inr h ↦ rw (e, g, h) (e, g, h)
      ]
    ]
    | inr e ↦ rw e tt
  ]

  grace-bound : (f : Field) (v : Raw Number) {n : ℕ} → grace_value fl f v ≡ ok n → n ≤ 86400
  unfolding grace_value
  grace-bound f v h =
      (ensured (λ n. (0 ≤ n) × (n ≤ 86400)) _ (ranged-bounds f 0 86400 (int_of_raw fl v)) h).1

  interval-bound : (v : Raw Number) {n : ℕ} → interval_value fl v ≡ ok n → (5 ≤ n) × (n ≤ 3600)
  unfolding interval_value
  interval-bound v h =
      ensured (λ n. (5 ≤ n) × (n ≤ 3600)) _
        (ranged-bounds interval_seconds 5 3600 (int_of_raw fl v)) h

  hot-InRange : (v : Raw Number) {x : Number} → hot_value fl v ≡ ok x → InRange n40 n120 x
  unfolding hot_value
  hot-InRange v h =
      ensured (InRange n40 n120) _ (ranged_number-InRange hot_temp_c n40 n120 (number_of_raw fl v))
        h

  clear-InRange : (v : Raw Number) {x : Number} → clear_value fl v ≡ ok x → InRange n30 n119_9 x
  unfolding clear_value
  clear-InRange v h =
      ensured (InRange n30 n119_9) _
        (ranged_number-InRange hot_clear_c n30 n119_9 (number_of_raw fl v)) h

  ordered-Ensures :
      (p : AnomalyPolicy Number)
      → (lt p.hot_clear p.hot_temp ≡ true → IsValid p)
      → Ensures IsValid (ordered fl p)
  unfolding ordered
  ordered-Ensures p h = elim (Bool-cases (lt p.hot_clear p.hot_temp)) [
    | inl e ↦ rw e (h e)
    | inr e ↦ rw e tt
  ]

  -- A policy that is accepted lies within the limits of every field, and clears below the heat that it
  -- reports.
  pub normalize_anomaly_policy-IsValid :
      (given : Members Number) → Ensures IsValid (normalize_anomaly_policy fl given)
  unfolding normalize_anomaly_policy
  normalize_anomaly_policy-IsValid given = then-Ensures _ (none_unknown given.others) _ (λ _.
      then-Ensures _ (none_missing (missing fl given)) _ (λ _.
        bind-Ensures _ (interval_value fl (the fl given.interval)) _ (λ a h1.
          bind-Ensures _ (grace_value fl offline_grace_seconds (the fl given.offline_grace)) _
            (λ b h2. bind-Ensures _ (hot_value fl (the fl given.hot_temp)) _ (λ c h3.
              bind-Ensures _ (clear_value fl (the fl given.hot_clear)) _ (λ d h4.
                bind-Ensures _ (grace_value fl hot_grace_seconds (the fl given.hot_grace)) _
                  (λ e h5.
                    bind-Ensures _
                      (grace_value fl schedule_grace_seconds (the fl given.schedule_grace)) _
                      (λ f h6. ordered-Ensures _ (λ lower. record {
                        interval = interval-bound _ h1;
                        offline_grace = grace-bound offline_grace_seconds _ h2;
                        hot_temp = hot-InRange _ h3;
                        hot_clear = clear-InRange _ h4;
                        hot_grace = grace-bound hot_grace_seconds _ h5;
                        schedule_grace = grace-bound schedule_grace_seconds _ h6;
                        clear_lower = lower;
                      })))))))))

  grace-again : (f : Field) (n : ℕ) → n ≤ 86400 → grace_value fl f (whole (pos n)) ≡ ok n
  unfolding grace_value in_range
  grace-again f n h = rw (exact n h) (ground arith)

  interval-again : (n : ℕ) → (5 ≤ n) × (n ≤ 3600) → interval_value fl (whole (pos n)) ≡ ok n
  unfolding interval_value in_range
  interval-again n h = rw (exact n (omega arith)) (ground arith)

  hot-again : (x : Number) → InRange n40 n120 x → hot_value fl (real x) ≡ ok x
  unfolding hot_value
  hot-again x h = rw (h.0, h.1, h.2) refl

  clear-again : (x : Number) → InRange n30 n119_9 x → clear_value fl (real x) ≡ ok x
  unfolding clear_value
  clear-again x h = rw (h.0, h.1, h.2) refl

  -- Normalizing a valid policy again changes nothing.
  pub normalize-members_of :
      (p : AnomalyPolicy Number) → IsValid p → normalize_anomaly_policy fl (members_of fl p) ≡ ok p
  unfolding normalize_anomaly_policy members_of
  normalize-members_of p v =
      rw
        (
          interval-again p.interval v.interval,
          grace-again offline_grace_seconds p.offline_grace v.offline_grace,
          hot-again p.hot_temp v.hot_temp,
          clear-again p.hot_clear v.hot_clear,
          grace-again hot_grace_seconds p.hot_grace v.hot_grace,
          grace-again schedule_grace_seconds p.schedule_grace v.schedule_grace,
          v.clear_lower,
        )
        refl
