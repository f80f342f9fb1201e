-- ===== src/Anomalies/Policies/Store/Kept.antt =====
-- A group's overrides take effect when they are saved, and take none of its miners' out of effect
-- (app/anomalies/repository.py, save_group_anomaly_overrides).
use open_asicmanager.Prelude.{
  ℕ, ◌≡◌, refl, sym, ◌∙◌, ap, subst, String, true, false, ◌==◌, ==_iff, inl, inr, ◌⊎◌, Option, none,
  some, first_row, first_row-In, Result, ok, raised, Ensures, bind-Ensures, Ensures-map,
  then-Ensures, ensured,
}
use open_asicmanager.Fleet.{Miner, get_miner}
use open_asicmanager.Anomalies.Policies.{
  Floats, PolicyError, Members, AnomalyPolicy, Overrides, no_overrides,
}
use open_asicmanager.Anomalies.Policies.Layers.{overrides_same}
use open_asicmanager.Anomalies.Policies.Store.{
  OverrideRow, PolicyStore, in_group, owned_by, override_values_from_row, or_no_overrides,
  effective_overrides, effective_group_overrides, accepted_group_overrides, load_anomaly_policy,
  load_group_anomaly_overrides, group_of, miner_group_id, load_miner_anomaly_overrides,
  miner_overrides_now, row_in_group, check_members, validate_group_policy_against_miner_overrides,
  put_row, save_group_anomaly_overrides,
}
use open_asicmanager.Anomalies.Policies.Store.Effective.{
  accepted_group-again, effective-normalizes, put_row-values, check_members-In, row-kept,
}

module _ (fl : Floats) where
  open fl use {Number}

  -- What is known of a checked change.
  validated :
      (g : ℕ) (o : Members Number) (store : PolicyStore Number)
      → (let global = load_anomaly_policy fl store.settings in
          Ensures
            (λ n.
              (effective_group_overrides fl global n ≡ ok n)
              × (check_members fl global
                    (load_group_anomaly_overrides fl (some g) global store)
                    n
                    (row_in_group fl g store)
                    store.miner_rows
                  ≡ ok tt))
            (validate_group_policy_against_miner_overrides fl g o store))
  unfolding validate_group_policy_against_miner_overrides
  validated g o store =
      let global = load_anomaly_policy fl store.settings in
      bind-Ensures _ (accepted_group_overrides fl global o) _ (λ n e.
        then-Ensures _
          (check_members fl global (load_group_anomaly_overrides fl (some g) global store) n
            (row_in_group fl g store) store.miner_rows)
          _
          (λ c. (
            ensured (λ q. effective_group_overrides fl global q ≡ ok q) _
                (accepted_group-again fl global o) e,
            c,
          )))

  -- The store after a group's overrides are written.
  abbrev written_group : ℕ → Overrides Number → String → ℕ → PolicyStore Number → PolicyStore Number
  written_group g n actor now store = record store {
    group_rows = put_row fl g n actor now store.group_rows;
  }

  load-written_group :
      (g : ℕ) (n : Overrides Number) (actor : String) (now : ℕ) (store : PolicyStore Number)
      (global : AnomalyPolicy Number)
      → effective_group_overrides fl global n ≡ ok n
      → load_group_anomaly_overrides fl (some g) global (written_group g n actor now store) ≡ n
  unfolding load_group_anomaly_overrides
  load-written_group g n actor now store global e =
      ap (λ v. or_no_overrides fl (effective_group_overrides fl global v))
        (put_row-values fl g n actor now store.group_rows)
      ∙ ap (or_no_overrides fl) e

  no_row :
      (global : AnomalyPolicy Number) (c : Overrides Number)
      → or_no_overrides fl (effective_overrides fl global c (no_overrides fl)) ≡ no_overrides fl
  no_row global c = settled (effective_overrides fl global c (no_overrides fl)) (
      Ensures-map _ (λ q. q ≡ no_overrides fl) (effective_overrides fl global c (no_overrides fl))
        (λ q h. ensured (λ z. z ≡ no_overrides fl) _ (overrides_same fl (no_overrides fl)) h)
        (effective-normalizes fl global c (no_overrides fl)))
    where
      settled :
          (e : Result PolicyError (Overrides Number))
          → Ensures (λ q. q ≡ no_overrides fl) e
          → or_no_overrides fl e ≡ no_overrides fl
      settled (ok q) h = h
      settled (raised e) h = refl

  member-row_in_group :
      (g id : ℕ) (store : PolicyStore Number) (r : OverrideRow Number)
      → miner_group_id fl id store ≡ some g
      → owned_by fl id r ≡ true
      → row_in_group fl g store r ≡ true
  unfolding miner_group_id group_of
  member-row_in_group g id store r k t =
      subst (λ i. elim (get_miner i store.miners) [ none ↦ false | some m ↦ in_group g m ] ≡ true)
        (sym ((==_iff r.owner id).0 t)) (grouped (get_miner id store.miners) k)
    where
      grouped :
          (m : Option Miner)
          → group_of fl m ≡ some g
          → elim m [ none ↦ false | some m ↦ in_group g m ] ≡ true
      grouped none h = cc
      grouped (some m) h =
          subst (λ z. elim z [ none ↦ false | some y ↦ y == g ] ≡ true) (sym h)
            ((==_iff g g).1 refl)

  abbrev in_effect :
      AnomalyPolicy Number → Overrides Number → Option (OverrideRow Number) → Overrides Number
  in_effect global over row =
      or_no_overrides fl (effective_overrides fl global over (override_values_from_row fl row))

  -- A miner of the group, with the overrides that its group has now and will have.
  member-kept :
      (g id : ℕ) (store : PolicyStore Number) (global : AnomalyPolicy Number)
      (current n : Overrides Number)
      → miner_group_id fl id store ≡ some g
      → check_members fl global current n (row_in_group fl g store) store.miner_rows ≡ ok tt
      → (load_miner_anomaly_overrides fl id global current store ≡ no_overrides fl)
        ⊎ (load_miner_anomaly_overrides fl id global n store
            ≡ load_miner_anomaly_overrides fl id global current store)
  unfolding load_miner_anomaly_overrides override_values_from_row
  member-kept g id store global current n k checked =
      by (first_row (owned_by fl id) store.miner_rows) refl
    where
      by :
          (row : Option (OverrideRow Number))
          → first_row (owned_by fl id) store.miner_rows ≡ row
          → (in_effect global current row ≡ no_overrides fl)
            ⊎ (in_effect global n row ≡ in_effect global current row)
      by none e = inl (no_row global current)
      by (some r) e =
          let (i, t) = first_row-In (owned_by fl id) store.miner_rows e in
          let selected = member-row_in_group g id store r k t in
          let kept =
            check_members-In fl global current n (row_in_group fl g store) store.miner_rows r i
              selected checked in
          elim (row-kept fl global current n r kept) [
            | inl gone ↦ inl gone
            | inr same ↦ inr (ap (or_no_overrides fl) same)
          ]

  -- After the change the overrides of the group load as `n`, and of a miner either none were in effect
  -- before or the same are.
  abbrev pub TakesEffect :
      ℕ → ℕ → PolicyStore Number → Overrides Number → PolicyStore Number → Type 0
  TakesEffect g id before n after =
      (load_group_anomaly_overrides fl (some g) (load_anomaly_policy fl after.settings) after ≡ n)
      × ((miner_overrides_now fl id before ≡ no_overrides fl)
          ⊎ (miner_overrides_now fl id after ≡ miner_overrides_now fl id before))

  -- The miner's own overrides, over what a store has for a group.
  abbrev over_group_of :
      ℕ
      → AnomalyPolicy Number
      → PolicyStore Number
      → PolicyStore Number
      → Option ℕ
      → Overrides Number
  over_group_of id global store after o =
      load_miner_anomaly_overrides fl id global (load_group_anomaly_overrides fl o global after)
        store

  written-TakesEffect :
      (g : ℕ) (n : Overrides Number) (actor : String) (now : ℕ) (store : PolicyStore Number)
      (id : ℕ)
      → miner_group_id fl id store ≡ some g
      → (let global = load_anomaly_policy fl store.settings in
          (effective_group_overrides fl global n ≡ ok n)
          × (check_members fl global
                (load_group_anomaly_overrides fl (some g) global store)
                n
                (row_in_group fl g store)
                store.miner_rows
              ≡ ok tt))
      → TakesEffect g id store n (written_group g n actor now store)
  unfolding miner_overrides_now load_miner_anomaly_overrides miner_group_id
  written-TakesEffect g n actor now store id k (e, checked) =
      let global = load_anomaly_policy fl store.settings in
      let after = written_group g n actor now store in
      let loaded = load-written_group g n actor now store global e in
      let before_now = ap (over_group_of id global store store) k in
      let after_now = ap (over_group_of id global store after) k in
      let current = load_group_anomaly_overrides fl (some g) global store in
      (
        loaded,
        elim (member-kept g id store global current n k checked) [
          | inl gone ↦ inl (before_now ∙ gone)
          | inr same ↦ inr (
              after_now
              ∙ ap (λ c. load_miner_anomaly_overrides fl id global c store) loaded
              ∙ same
              ∙ sym before_now)
        ],
      )

  saved-TakesEffect :
      (g : ℕ) (o : Members Number) (actor : String) (now : ℕ) (store : PolicyStore Number) (id : ℕ)
      → miner_group_id fl id store ≡ some g
      → Ensures
          (λ r. TakesEffect g id store r.0 r.1)
          (save_group_anomaly_overrides fl g o actor now store)
  unfolding save_group_anomaly_overrides
  saved-TakesEffect g o actor now store id k =
      bind-Ensures _ (validate_group_policy_against_miner_overrides fl g o store) _
        (λ n h. written-TakesEffect g n actor now store id k (ensured _ _ (validated g o store) h))

  -- Overrides that are saved for a group are in effect afterwards, and a miner of the group does not lose
  -- its own to them: either it had none in effect before, or the same are in effect after.
  pub save_group-TakesEffect :
      (g : ℕ) (o : Members Number) (actor : String) (now : ℕ) (store : PolicyStore Number) (id : ℕ)
      {n : Overrides Number} {after : PolicyStore Number}
      → miner_group_id fl id store ≡ some g
      → save_group_anomaly_overrides fl g o actor now store ≡ ok (n, after)
      → TakesEffect g id store n after
  save_group-TakesEffect g o actor now store id k h =
      ensured (λ r. TakesEffect g id store r.0 r.1) _ (saved-TakesEffect g o actor now store id k) h
