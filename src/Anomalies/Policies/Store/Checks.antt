-- ===== src/Anomalies/Policies/Store/Checks.antt =====
-- What a change of the global policy or of a miner's group is checked against (app/anomalies/repository.py).
use open_asicmanager.Prelude.{
  ℕ, Bool, Option, none, some, List, [], ◌∷◌, Result, ok, raised, ◌>>=◌, ◌>>◌, first_row,
}
use open_asicmanager.Fleet.{Miner, get_miner}
use open_asicmanager.Anomalies.Policies.{
  Floats, Members, PolicyError, group_conflict, miner_conflict, membership_invalid, AnomalyPolicy,
  no_overrides, normalize_anomaly_policy, normalize_anomaly_overrides, override_members,
  resolve_layered_anomaly_policy,
}
use open_asicmanager.Anomalies.Policies.Store.{
  OverrideRow, PolicyStore, in_group, checked_if, owned_by, override_values_from_row,
  or_no_overrides, effective_overrides, load_anomaly_policy, load_group_anomaly_overrides,
  relabelled, still_resolves,
}
use open_asicmanager.Anomalies.Policies.Store.Snapshots.{
  OverrideSnapshot, load_group_anomaly_override_snapshot, inherited_from,
}

module _ (fl : Floats) where
  open fl use {Number}

  labelled :
      (PolicyError → PolicyError)
      → Result PolicyError (AnomalyPolicy Number)
      → Result PolicyError (AnomalyPolicy Number)
  labelled label (ok p) = ok p
  labelled label (raised e) = raised (label e)

  unfoldable pub validate_miner_group_policy_membership :
      ℕ → Option ℕ → PolicyStore Number → Result PolicyError (AnomalyPolicy Number)
  unfolding labelled override_values_from_row
  validate_miner_group_policy_membership miner_id group_id store =
      let global = load_anomaly_policy fl store.settings in
      let group_overrides = load_group_anomaly_overrides fl group_id global store in
      let raw = override_values_from_row fl (first_row (owned_by fl miner_id) store.miner_rows) in
      let miner_overrides =
        or_no_overrides fl (normalize_anomaly_overrides fl (override_members fl raw)) in
      labelled (membership_invalid group_id)
        (resolve_layered_anomaly_policy fl global group_overrides miner_overrides)

  validate_each : List Miner → PolicyStore Number → (Miner → Bool) → Result PolicyError (Unit {0})
  unfolding relabelled checked_if
  validate_each [] store member = ok tt
  validate_each (m ∷ miners) store member = do
    checked_if (member m)
        (relabelled fl (λ e. e) (validate_miner_group_policy_membership m.id none store))
    validate_each miners store member

  unfoldable pub validate_group_policy_removal :
      ℕ → PolicyStore Number → Result PolicyError (Unit {0})
  unfolding validate_each
  validate_group_policy_removal group_id store =
      validate_each store.miners store (in_group group_id)

  -- The loops of validate_global_policy_against_overrides, over the groups
  check_groups : AnomalyPolicy Number → OverrideSnapshot Number → Result PolicyError (Unit {0})
  unfolding relabelled
  check_groups changed [] = ok tt
  check_groups changed ((group_id, overrides) ∷ rest) = do
    relabelled fl (group_conflict group_id)
        (resolve_layered_anomaly_policy fl changed overrides (no_overrides fl))
    check_groups changed rest

  -- and over the miners' rows; a row that does not take effect now is skipped.
  check_joined :
      AnomalyPolicy Number
      → AnomalyPolicy Number
      → OverrideSnapshot Number
      → OverrideRow Number
      → Option Miner
      → Result PolicyError (Unit {0})
  unfolding still_resolves effective_overrides inherited_from
  check_joined current changed groups row none = ok tt
  check_joined current changed groups row (some m) =
      let inherited = inherited_from fl groups m.group_id in
      still_resolves fl (miner_conflict row.owner)
        (effective_overrides fl current inherited row.values)
        (resolve_layered_anomaly_policy fl changed inherited)

  check_miners :
      AnomalyPolicy Number
      → AnomalyPolicy Number
      → OverrideSnapshot Number
      → List Miner
      → List (OverrideRow Number)
      → Result PolicyError (Unit {0})
  unfolding check_joined get_miner
  check_miners current changed groups miners [] = ok tt
  check_miners current changed groups miners (row ∷ rows) = do
    check_joined current changed groups row (get_miner row.owner miners)
    check_miners current changed groups miners rows

  unfoldable pub validate_global_policy_against_overrides :
      Members Number → PolicyStore Number → Result PolicyError (AnomalyPolicy Number)
  unfolding check_groups check_miners
  validate_global_policy_against_overrides given store = do
    normalized ← normalize_anomaly_policy fl given
    let current = load_anomaly_policy fl store.settings
    let groups = load_group_anomaly_override_snapshot fl current store
    check_groups normalized groups
    check_miners current normalized groups store.miners store.miner_rows
    ok normalized
