-- ===== src/Anomalies/Policies/Store/Effective.antt =====
-- What is read of the rows of overrides, and what a check of a group's members tells
-- (app/anomalies/repository.py).
use open_asicmanager.Prelude.{
  ℕ, ◌≡◌, refl, ◌∙◌, ap, subst, String, Bool, true, false, ==_iff, Bool-cases, inl, inr, ◌⊎◌,
  Option, none, some, is_some, List, [], ◌∷◌, ◌++◌, if◌then◌else◌, arith, first_row, update_rows,
  In, first-delete_self, first-update_self, first-append_match, Result, ok, raised, Ensures,
  bind-Ensures, then-ok, ensured,
}
use open_asicmanager.Anomalies.Policies.{
  Floats, PolicyError, miner_conflict, Members, AnomalyPolicy, Overrides, no_overrides,
  normalize_anomaly_overrides, override_members, resolve_layered_anomaly_policy,
}
use open_asicmanager.Anomalies.Policies.Valid.Again.{normalize_overrides-again}
use open_asicmanager.Anomalies.Policies.Store.{
  OverrideRow, checked_if, owned_by, override_values_from_row, or_no_overrides, effective_overrides,
  effective_group_overrides, accepted_group_overrides, relabelled, still_resolves, check_members,
  none_set, new_row, put_row,
}

module _ (fl : Floats) where
  open fl use {Number}

  resolves :
      (g : AnomalyPolicy Number) (o : Overrides Number) (p : AnomalyPolicy Number)
      → normalize_anomaly_overrides fl (override_members fl o) ≡ ok o
      → resolve_layered_anomaly_policy fl g o (no_overrides fl) ≡ ok p
      → effective_group_overrides fl g o ≡ ok o
  unfolding effective_group_overrides
  resolves g o p h k = rw (h, k) refl

  pub accepted_group-again :
      (g : AnomalyPolicy Number) (given : Members Number)
      → Ensures (λ n. effective_group_overrides fl g n ≡ ok n) (accepted_group_overrides fl g given)
  unfolding effective_group_overrides
  accepted_group-again g given = bind-Ensures _ (normalize_anomaly_overrides fl given) _ (λ x h.
      bind-Ensures _ (resolve_layered_anomaly_policy fl g x (no_overrides fl)) _
        (λ p k. resolves g x p (ensured _ _ (normalize_overrides-again fl given) h) k))

  pub effective-normalizes :
      (g : AnomalyPolicy Number) (c o : Overrides Number)
      → Ensures
          (λ q. normalize_anomaly_overrides fl (override_members fl o) ≡ ok q)
          (effective_overrides fl g c o)
  unfolding effective_overrides
  effective-normalizes g c o =
      bind-Ensures _ (normalize_anomaly_overrides fl (override_members fl o)) _
        (λ x h. bind-Ensures _ (resolve_layered_anomaly_policy fl g c x) _ (λ p k. h))

  effective-of_both :
      (g : AnomalyPolicy Number) (c o : Overrides Number) {q : Overrides Number}
      {p : AnomalyPolicy Number}
      → normalize_anomaly_overrides fl (override_members fl o) ≡ ok q
      → resolve_layered_anomaly_policy fl g c q ≡ ok p
      → effective_overrides fl g c o ≡ ok q
  unfolding effective_overrides
  effective-of_both g c o h k = rw (h, k) refl

  none_set-no_overrides : (o : Overrides Number) → none_set fl o ≡ true → no_overrides fl ≡ o
  unfolding none_set
  none_set-no_overrides o h = λ i. record {
    offline_grace = empty o.offline_grace (ground arith) i;
    hot_temp = empty o.hot_temp (ground arith) i;
    hot_clear = empty o.hot_clear (ground arith) i;
    hot_grace = empty o.hot_grace (ground arith) i;
    schedule_grace = empty o.schedule_grace (ground arith) i;
  }
    where
      empty : {A : Type 0} (a : Option A) → is_some a ≡ false → none ≡ a
      empty none h = refl
      empty (some a) h = absurd (ground arith)

  pub put_row-values :
      (owner : ℕ) (o : Overrides Number) (actor : String) (now : ℕ)
      (rows : List (OverrideRow Number))
      → override_values_from_row fl
          (first_row (owned_by fl owner) (put_row fl owner o actor now rows))
        ≡ o
  unfolding put_row override_values_from_row
  put_row-values owner o actor now rows = elim (Bool-cases (none_set fl o)) [
    | inl e ↦ rw e (
        ap (override_values_from_row fl) (first-delete_self (owned_by fl owner) rows)
        ∙ none_set-no_overrides o e)
    | inr e ↦ rw e (written (first_row (owned_by fl owner) rows) refl)
  ]
    where
      row : OverrideRow Number
      row = new_row fl owner o actor now

      own : owned_by fl owner row ≡ true
      own = (==_iff owner owner).1 refl

      written :
          (found : Option (OverrideRow Number))
          → first_row (owned_by fl owner) rows ≡ found
          → override_values_from_row fl (
              first_row (owned_by fl owner) (
                if is_some found
                then update_rows (owned_by fl owner) (λ r. row) rows
                else rows ++ row ∷ []))
            ≡ o
      written none h =
          ap (override_values_from_row fl) (first-append_match (owned_by fl owner) rows row h own)
      written (some r) h = ap (override_values_from_row fl) (
          first-update_self (owned_by fl owner) (λ r. row) rows (λ x t. own)
          ∙ ap (λ z. elim z [ none ↦ none | some x ↦ some row ]) h)

  pub check_members-In :
      (g : AnomalyPolicy Number) (c n : Overrides Number) (p : OverrideRow Number → Bool)
      (rows : List (OverrideRow Number)) (r : OverrideRow Number)
      → In r rows
      → p r ≡ true
      → check_members fl g c n p rows ≡ ok tt
      → still_resolves fl
          (miner_conflict r.owner)
          (effective_overrides fl g c r.values)
          (resolve_layered_anomaly_policy fl g n)
        ≡ ok tt
  unfolding check_members checked_if
  check_members-In g c n p [] r i t h = absurd i
  check_members-In g c n p (x ∷ rows) r i t h =
      let (here, later) = then-ok (checked_if (p x) (check x)) (check_members fl g c n p rows) h in
      elim i [
        | inl e ↦ subst (λ y. check y ≡ ok tt) e (checked (p x) (check x) (ap p e ∙ t) here)
        | inr j ↦ check_members-In g c n p rows r j t later
      ]
    where
      check : OverrideRow Number → Result PolicyError (Unit {0})
      check y =
          still_resolves fl (miner_conflict y.owner) (effective_overrides fl g c y.values)
            (resolve_layered_anomaly_policy fl g n)

      checked :
          (b : Bool) (m : Result PolicyError (Unit {0}))
          → b ≡ true
          → checked_if b m ≡ ok tt
          → m ≡ ok tt
      checked true m t h = h
      checked false m t h = absurd (ground arith)

  -- A row that takes effect now does so over the changed overrides.
  pub row-kept :
      (g : AnomalyPolicy Number) (c n : Overrides Number) (r : OverrideRow Number)
      → still_resolves fl
          (miner_conflict r.owner)
          (effective_overrides fl g c r.values)
          (resolve_layered_anomaly_policy fl g n)
        ≡ ok tt
      → (or_no_overrides fl (effective_overrides fl g c r.values) ≡ no_overrides fl)
        ⊎ (effective_overrides fl g n r.values ≡ effective_overrides fl g c r.values)
  unfolding still_resolves relabelled
  row-kept g c n r h = by (effective_overrides fl g c r.values) refl h
    where
      resolved :
          (q : Overrides Number) (e : Result PolicyError (AnomalyPolicy Number))
          → resolve_layered_anomaly_policy fl g n q ≡ e
          → effective_overrides fl g c r.values ≡ ok q
          → relabelled fl (miner_conflict r.owner) e ≡ ok tt
          → effective_overrides fl g n r.values ≡ ok q
      resolved q (ok p) k same t =
          effective-of_both g n r.values (ensured _ _ (effective-normalizes g c r.values) same) k
      resolved q (raised e) k same t = absurd (ground arith)

      by :
          (e : Result PolicyError (Overrides Number))
          → effective_overrides fl g c r.values ≡ e
          → still_resolves fl (miner_conflict r.owner) e (resolve_layered_anomaly_policy fl g n)
            ≡ ok tt
          → (or_no_overrides fl e ≡ no_overrides fl) ⊎ (effective_overrides fl g n r.values ≡ e)
      by (raised e) same t = inl refl
      by (ok q) same t = inr (resolved q (resolve_layered_anomaly_policy fl g n q) refl same t)
