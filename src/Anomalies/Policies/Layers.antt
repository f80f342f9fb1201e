-- ===== src/Anomalies/Policies/Layers.antt =====
-- The layers of the anomaly policy (app/anomalies/policy.py): a miner's override decides over its
-- group's, and that over the global policy.
use open_asicmanager.Prelude.{
  ℕ, ◌≡◌, refl, sym, ◌∙◌, ap, subst, Bool, true, false, not, ◌||◌, Option, none, some, arith,
  if◌then◌else◌, get_or, Result, ok, raise_if, ◌>>◌, Ensures, bind-Ensures, ensured, and-Ensures,
  Ensures-map, Bool-cases, inl, inr,
}
use open_asicmanager.Values.Integers.{pos, in_range}
use open_asicmanager.Anomalies.Policies.{
  not_finite, out_of_range, Floats, Field, interval_seconds, offline_grace_seconds, hot_temp_c,
  hot_clear_c, hot_grace_seconds, schedule_grace_seconds, PolicyError, Raw, whole, real,
  AnomalyPolicy, Overrides, ranged, ranged_number, grace_value, interval_value, hot_value,
  clear_value, ordered, optional, normalize_anomaly_policy, normalize_anomaly_overrides, members_of,
  override_members, whole_member, real_member, update, resolve_layered_anomaly_policy,
}
use open_asicmanager.Anomalies.Policies.Patches.{
  PolicySource, override, global, group, miner, Sources, layered_source_of, layered_sources,
  layered_anomaly_policy_sources,
}
use open_asicmanager.Anomalies.Policies.Valid.{IsValid, normalize_anomaly_policy-IsValid}

module _ (fl : Floats) where
  open fl use {Number, lt, is_finite, is_exact, n30, n40, n119_9, n120}

  ranged_same :
      (f : Field) (lo hi n : ℕ) (b : Bool) {m : ℕ}
      → ranged fl f lo hi (if b then some (pos n) else none) ≡ ok m
      → m ≡ n
  unfolding ranged in_range
  ranged_same f lo hi n true h = ground arith
  ranged_same f lo hi n false h = cc

  grace_same : (f : Field) (n : ℕ) {m : ℕ} → grace_value fl f (whole (pos n)) ≡ ok m → m ≡ n
  unfolding grace_value
  grace_same f n h = ranged_same f 0 86400 n (is_exact (pos n)) h

  interval_same : (n : ℕ) {m : ℕ} → interval_value fl (whole (pos n)) ≡ ok m → m ≡ n
  unfolding interval_value
  interval_same n h = ranged_same interval_seconds 5 3600 n (is_exact (pos n)) h

  number_same :
      (f : Field) (lo hi x : Number) {y : Number} → ranged_number fl f lo hi (some x) ≡ ok y → y ≡ x
  unfolding ranged_number
  number_same f lo hi x {y} h = by (is_finite x) (lt x lo || lt hi x) h
    where
      by :
          (a b : Bool)
          → (raise_if (not a) (not_finite f) >> (raise_if b (out_of_range f) >> ok x)) ≡ ok y
          → y ≡ x
      by true true h = cc
      by true false h = let e : x ≡ y = cc in sym e
      by false b h = cc

  hot_same : (x : Number) {y : Number} → hot_value fl (real x) ≡ ok y → y ≡ x
  unfolding hot_value
  hot_same x h = number_same hot_temp_c n40 n120 x h

  clear_same : (x : Number) {y : Number} → clear_value fl (real x) ≡ ok y → y ≡ x
  unfolding clear_value
  clear_same x h = number_same hot_clear_c n30 n119_9 x h

  ordered_same : (p q : AnomalyPolicy Number) → q ≡ p → Ensures (λ r. r ≡ p) (ordered fl q)
  unfolding ordered
  ordered_same p q e = elim (Bool-cases (lt q.hot_clear q.hot_temp)) [
    | inl h ↦ rw h e
    | inr h ↦ rw h tt
  ]

  -- A policy that is normalized again is itself, or refused.
  policy_same :
      (p : AnomalyPolicy Number)
      → Ensures (λ q. q ≡ p) (normalize_anomaly_policy fl (members_of fl p))
  unfolding normalize_anomaly_policy members_of
  policy_same p = bind-Ensures _ (interval_value fl (whole (pos p.interval))) _ (λ a h1.
      bind-Ensures _ (grace_value fl offline_grace_seconds (whole (pos p.offline_grace))) _ (λ b h2.
        bind-Ensures _ (hot_value fl (real p.hot_temp)) _ (λ c h3.
          bind-Ensures _ (clear_value fl (real p.hot_clear)) _ (λ d h4.
            bind-Ensures _ (grace_value fl hot_grace_seconds (whole (pos p.hot_grace))) _ (λ e h5.
              bind-Ensures _ (grace_value fl schedule_grace_seconds (whole (pos p.schedule_grace)))
                _
                (λ f h6. ordered_same p _ (λ i. record {
                  interval = interval_same p.interval h1 i;
                  offline_grace = grace_same offline_grace_seconds p.offline_grace h2 i;
                  hot_temp = hot_same p.hot_temp h3 i;
                  hot_clear = clear_same p.hot_clear h4 i;
                  hot_grace = grace_same hot_grace_seconds p.hot_grace h5 i;
                  schedule_grace = grace_same schedule_grace_seconds p.schedule_grace h6 i;
                })))))))

  whole_same :
      (f : Field) (o : Option ℕ)
      → Ensures (λ q. q ≡ o) (optional fl (grace_value fl f) (whole_member fl o))
  unfolding optional whole_member
  whole_same f none = refl
  whole_same f (some n) =
      bind-Ensures (λ q. q ≡ some n) (grace_value fl f (whole (pos n))) _
        (λ m h. ap (λ k. some k) (grace_same f n h))

  real_same :
      (read : Raw Number → Result PolicyError Number) (o : Option Number)
      → ((x y : Number) → read (real x) ≡ ok y → y ≡ x)
      → Ensures (λ q. q ≡ o) (optional fl read (real_member fl o))
  unfolding optional real_member
  real_same read none same = refl
  real_same read (some x) same =
      bind-Ensures (λ q. q ≡ some x) (read (real x)) _ (λ y h. ap (λ k. some k) (same x y h))

  pub overrides_same :
      (o : Overrides Number)
      → Ensures (λ q. q ≡ o) (normalize_anomaly_overrides fl (override_members fl o))
  unfolding normalize_anomaly_overrides override_members
  overrides_same o =
      bind-Ensures _
        (optional fl (grace_value fl offline_grace_seconds) (whole_member fl o.offline_grace)) _
        (λ a h1. bind-Ensures _ (optional fl (hot_value fl) (real_member fl o.hot_temp)) _ (λ b h2.
          bind-Ensures _ (optional fl (clear_value fl) (real_member fl o.hot_clear)) _ (λ c h3.
            bind-Ensures _
              (optional fl (grace_value fl hot_grace_seconds) (whole_member fl o.hot_grace)) _
              (λ d h4.
                bind-Ensures _
                  (optional fl (grace_value fl schedule_grace_seconds)
                    (whole_member fl o.schedule_grace))
                  _
                  (λ e h5. λ i. record {
                    offline_grace =
                        ensured (λ q. q ≡ o.offline_grace) _
                          (whole_same offline_grace_seconds o.offline_grace) h1 i;
                    hot_temp =
                        ensured (λ q. q ≡ o.hot_temp) _
                          (real_same (hot_value fl) o.hot_temp (λ x y h. hot_same x h)) h2 i;
                    hot_clear =
                        ensured (λ q. q ≡ o.hot_clear) _
                          (real_same (clear_value fl) o.hot_clear (λ x y h. clear_same x h)) h3 i;
                    hot_grace =
                        ensured (λ q. q ≡ o.hot_grace) _ (whole_same hot_grace_seconds o.hot_grace)
                          h4 i;
                    schedule_grace =
                        ensured (λ q. q ≡ o.schedule_grace) _
                          (whole_same schedule_grace_seconds o.schedule_grace) h5 i;
                  })))))

  -- The value that a source stands for.
  abbrev pub value_from : {A : Type 0} → PolicySource → A → Option A → Option A → Option A
  value_from global g of_group of_miner = some g
  value_from override g of_group of_miner = none
  value_from group g of_group of_miner = of_group
  value_from miner g of_group of_miner = of_miner

  -- Every field of the effective policy is the value of its source.
  pub record FollowsSources (g : AnomalyPolicy Number) (go mo : Overrides Number) (s : Sources)
      (e : AnomalyPolicy Number) : Type 0 where
    pub interval : value_from s.interval g.interval none none ≡ some e.interval
    pub offline_grace :
        value_from s.offline_grace g.offline_grace go.offline_grace mo.offline_grace
        ≡ some e.offline_grace
    pub hot_temp : value_from s.hot_temp g.hot_temp go.hot_temp mo.hot_temp ≡ some e.hot_temp
    pub hot_clear : value_from s.hot_clear g.hot_clear go.hot_clear mo.hot_clear ≡ some e.hot_clear
    pub hot_grace : value_from s.hot_grace g.hot_grace go.hot_grace mo.hot_grace ≡ some e.hot_grace
    pub schedule_grace :
        value_from s.schedule_grace g.schedule_grace go.schedule_grace mo.schedule_grace
        ≡ some e.schedule_grace

  field_source :
      {A : Type 0} (g : A) (of_group of_miner : Option A)
      → value_from (layered_source_of of_group of_miner) g of_group of_miner
        ≡ some (get_or of_miner (get_or of_group g))
  field_source g of_group (some a) = refl
  field_source g (some a) none = refl
  field_source g none none = refl

  layers-FollowsSources :
      (g : AnomalyPolicy Number) (go mo : Overrides Number)
      → FollowsSources g go mo (layered_sources fl go mo) (update fl (update fl g go) mo)
  unfolding update
  layers-FollowsSources g go mo = record {
    interval = refl;
    offline_grace = field_source g.offline_grace go.offline_grace mo.offline_grace;
    hot_temp = field_source g.hot_temp go.hot_temp mo.hot_temp;
    hot_clear = field_source g.hot_clear go.hot_clear mo.hot_clear;
    hot_grace = field_source g.hot_grace go.hot_grace mo.hot_grace;
    schedule_grace = field_source g.schedule_grace go.schedule_grace mo.schedule_grace;
  }

  told_sources :
      (go mo : Overrides Number)
      → Ensures (λ s. s ≡ layered_sources fl go mo) (layered_anomaly_policy_sources fl go mo)
  unfolding layered_anomaly_policy_sources
  told_sources go mo =
      bind-Ensures _ (normalize_anomaly_overrides fl (override_members fl go)) _ (λ x h1.
        bind-Ensures _ (normalize_anomaly_overrides fl (override_members fl mo)) _ (λ y h2. λ i.
          layered_sources fl (ensured (λ z. z ≡ go) _ (overrides_same go) h1 i)
            (ensured (λ z. z ≡ mo) _ (overrides_same mo) h2 i)))

  -- The effective policy is valid, and the layers put over each other.
  resolved_layers :
      (g : AnomalyPolicy Number) (go mo : Overrides Number)
      → Ensures
          (λ e. IsValid fl e × (e ≡ update fl (update fl g go) mo))
          (resolve_layered_anomaly_policy fl g go mo)
  unfolding resolve_layered_anomaly_policy
  resolved_layers g go mo =
      bind-Ensures _ (normalize_anomaly_policy fl (members_of fl g)) _ (λ p h1.
        bind-Ensures _ (normalize_anomaly_overrides fl (override_members fl go)) _ (λ x h2.
          bind-Ensures _ (normalize_anomaly_policy fl (members_of fl (update fl p x))) _ (λ q h3.
            bind-Ensures _ (normalize_anomaly_overrides fl (override_members fl mo)) _ (λ y h4.
              let e1 = ensured (λ z. z ≡ g) _ (policy_same g) h1 in
              let e2 = ensured (λ z. z ≡ go) _ (overrides_same go) h2 in
              let e3 = ensured (λ z. z ≡ update fl p x) _ (policy_same (update fl p x)) h3 in
              let e4 = ensured (λ z. z ≡ mo) _ (overrides_same mo) h4 in
              let layered : update fl q y ≡ update fl (update fl g go) mo =
                ap (λ z. update fl z y) e3 ∙ (λ i. update fl (update fl (e1 i) (e2 i)) (e4 i)) in
              and-Ensures (IsValid fl) (λ e. e ≡ update fl (update fl g go) mo)
                (normalize_anomaly_policy fl (members_of fl (update fl q y)))
                (normalize_anomaly_policy-IsValid fl (members_of fl (update fl q y)))
                (Ensures-map (λ e. e ≡ update fl q y) (λ e. e ≡ update fl (update fl g go) mo)
                  (normalize_anomaly_policy fl (members_of fl (update fl q y))) (λ e h. h ∙ layered)
                  (policy_same (update fl q y)))))))

  -- Where a policy resolves, it is within the limits and clears below its heat, and every field has the
  -- value of the source that is reported for it: the miner's override where there is one, else the
  -- group's, else the global value.
  pub resolve_layered-FollowsSources :
      (g : AnomalyPolicy Number) (go mo : Overrides Number) {e : AnomalyPolicy Number} {s : Sources}
      → resolve_layered_anomaly_policy fl g go mo ≡ ok e
      → layered_anomaly_policy_sources fl go mo ≡ ok s
      → IsValid fl e × FollowsSources g go mo s e
  resolve_layered-FollowsSources g go mo {e} {s} h k =
      let (valid, same) =
        ensured (λ z. IsValid fl z × (z ≡ update fl (update fl g go) mo)) _
          (resolved_layers g go mo) h in
      let told = ensured (λ z. z ≡ layered_sources fl go mo) _ (told_sources go mo) k in
      (
        valid,
        subst (λ z. FollowsSources g go mo s z) (sym same)
            (subst (λ z. FollowsSources g go mo z (update fl (update fl g go) mo)) (sym told)
              (layers-FollowsSources g go mo)),
      )
