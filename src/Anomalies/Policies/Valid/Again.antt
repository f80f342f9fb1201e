-- ===== src/Anomalies/Policies/Valid/Again.antt =====
-- Normalized overrides are unchanged when they are normalized again (app/anomalies/policy.py).
use open_asicmanager.Prelude.{
  ◌≡◌, refl, Option, none, some, ◌++◌, is_some, Result, ok, Ensures, bind-Ensures, then-Ensures,
  ensured,
}
use open_asicmanager.Anomalies.Policies.{
  Floats, Field, offline_grace_seconds, hot_grace_seconds, schedule_grace_seconds, PolicyError, Raw,
  truth, whole, real, words, null, other, Members, Overrides, grace_value, hot_value, clear_value,
  none_unknown, optional, normalize_anomaly_overrides, override_members, whole_member, real_member,
  interval_named,
}
use open_asicmanager.Anomalies.Policies.Valid.{
  grace-bound, hot-InRange, clear-InRange, grace-again, hot-again, clear-again,
}

module _ (fl : Floats) where
  open fl use {Number}

  -- A field that is read gives what its value reads to.
  optional-again :
      {A : Type 0} (read : Raw Number → Result PolicyError A)
      (member : Option A → Option (Raw Number))
      → optional fl read (member none) ≡ ok none
      → ((v : Raw Number) (a : A)
          → read v ≡ ok a
          → optional fl read (member (some a)) ≡ ok (some a))
      → (given : Option (Raw Number))
      → Ensures (λ o. optional fl read (member o) ≡ ok o) (optional fl read given)
  unfolding optional
  optional-again read member absent back none = absent
  optional-again read member absent back (some null) = absent
  optional-again read member absent back (some (truth b)) =
      bind-Ensures _ (read (truth b)) _ (λ a h. back _ a h)
  optional-again read member absent back (some (whole n)) =
      bind-Ensures _ (read (whole n)) _ (λ a h. back _ a h)
  optional-again read member absent back (some (real x)) =
      bind-Ensures _ (read (real x)) _ (λ a h. back _ a h)
  optional-again read member absent back (some (words s)) =
      bind-Ensures _ (read (words s)) _ (λ a h. back _ a h)
  optional-again read member absent back (some other) =
      bind-Ensures _ (read other) _ (λ a h. back _ a h)

  grace_member-again :
      (f : Field) (given : Option (Raw Number))
      → Ensures
          (λ o. optional fl (grace_value fl f) (whole_member fl o) ≡ ok o)
          (optional fl (grace_value fl f) given)
  unfolding whole_member optional
  grace_member-again f given =
      optional-again (grace_value fl f) (whole_member fl) refl
        (λ v n h. rw (grace-again fl f n (grace-bound fl f v h)) refl) given

  hot_member-again :
      (given : Option (Raw Number))
      → Ensures
          (λ o. optional fl (hot_value fl) (real_member fl o) ≡ ok o)
          (optional fl (hot_value fl) given)
  unfolding real_member optional
  hot_member-again given =
      optional-again (hot_value fl) (real_member fl) refl
        (λ v x h. rw (hot-again fl x (hot-InRange fl v h)) refl) given

  clear_member-again :
      (given : Option (Raw Number))
      → Ensures
          (λ o. optional fl (clear_value fl) (real_member fl o) ≡ ok o)
          (optional fl (clear_value fl) given)
  unfolding real_member optional
  clear_member-again given =
      optional-again (clear_value fl) (real_member fl) refl
        (λ v x h. rw (clear-again fl x (clear-InRange fl v h)) refl) given

  fields-again :
      (o : Overrides Number)
      → optional fl (grace_value fl offline_grace_seconds) (whole_member fl o.offline_grace)
        ≡ ok o.offline_grace
      → optional fl (hot_value fl) (real_member fl o.hot_temp) ≡ ok o.hot_temp
      → optional fl (clear_value fl) (real_member fl o.hot_clear) ≡ ok o.hot_clear
      → optional fl (grace_value fl hot_grace_seconds) (whole_member fl o.hot_grace)
        ≡ ok o.hot_grace
      → optional fl (grace_value fl schedule_grace_seconds) (whole_member fl o.schedule_grace)
        ≡ ok o.schedule_grace
      → normalize_anomaly_overrides fl (override_members fl o) ≡ ok o
  unfolding normalize_anomaly_overrides override_members
  fields-again o h1 h2 h3 h4 h5 = rw (h1, h2, h3, h4, h5) refl

  -- Overrides that are accepted are accepted again, unchanged.
  pub normalize_overrides-again :
      (given : Members Number)
      → Ensures
          (λ o. normalize_anomaly_overrides fl (override_members fl o) ≡ ok o)
          (normalize_anomaly_overrides fl given)
  unfolding normalize_anomaly_overrides override_members
  normalize_overrides-again given =
      then-Ensures _ (none_unknown (interval_named (is_some given.interval) ++ given.others)) _
        (λ known.
          bind-Ensures _ (optional fl (grace_value fl offline_grace_seconds) given.offline_grace) _
            (λ a h1. bind-Ensures _ (optional fl (hot_value fl) given.hot_temp) _ (λ b h2.
              bind-Ensures _ (optional fl (clear_value fl) given.hot_clear) _ (λ c h3.
                bind-Ensures _ (optional fl (grace_value fl hot_grace_seconds) given.hot_grace) _
                  (λ d h4.
                    bind-Ensures _
                      (optional fl (grace_value fl schedule_grace_seconds) given.schedule_grace) _
                      (λ e h5.
                        fields-again
                          (record {
                            offline_grace = a;
                            hot_temp = b;
                            hot_clear = c;
                            hot_grace = d;
                            schedule_grace = e;
                          })
                          (ensured _ _
                            (grace_member-again offline_grace_seconds given.offline_grace) h1)
                          (ensured _ _ (hot_member-again given.hot_temp) h2)
                          (ensured _ _ (clear_member-again given.hot_clear) h3)
                          (ensured _ _ (grace_member-again hot_grace_seconds given.hot_grace) h4)
                          (ensured _ _
                            (grace_member-again schedule_grace_seconds given.schedule_grace)
                            h5)))))))
