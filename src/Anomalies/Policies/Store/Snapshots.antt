-- ===== src/Anomalies/Policies/Store/Snapshots.antt =====
-- The overrides in effect, for a scan (app/anomalies/repository.py, the two snapshots).
use open_asicmanager.Prelude.{
  ℕ, Option, none, some, List, [], ◌∷◌, ◌==◌, if◌then◌else◌, Result, ok, raised,
}
use open_asicmanager.Fleet.{Miner, get_miner}
use open_asicmanager.Anomalies.Policies.{
  Floats, PolicyError, AnomalyPolicy, Overrides, no_overrides,
}
use open_asicmanager.Anomalies.Policies.Store.{
  OverrideRow, PolicyStore, none_set, effective_overrides, effective_group_overrides,
}

-- A dict from the ids of groups or miners to their overrides.
abbrev pub OverrideSnapshot : Type 0 → Type 0
OverrideSnapshot Number = List (ℕ × Overrides Number)

module _ (fl : Floats) where
  open fl use {Number}

  shown :
      ℕ → Result PolicyError (Overrides Number) → OverrideSnapshot Number → OverrideSnapshot Number
  unfolding none_set
  shown owner (raised e) rest = rest
  shown owner (ok overrides) rest =
      if none_set fl overrides then rest else (owner, overrides) ∷ rest

  effective_groups : AnomalyPolicy Number → List (OverrideRow Number) → OverrideSnapshot Number
  unfolding shown effective_group_overrides
  effective_groups global [] = []
  effective_groups global (row ∷ rows) =
      shown row.owner (effective_group_overrides fl global row.values)
        (effective_groups global rows)

  unfoldable pub load_group_anomaly_override_snapshot :
      AnomalyPolicy Number → PolicyStore Number → OverrideSnapshot Number
  unfolding effective_groups
  load_group_anomaly_override_snapshot global store = effective_groups global store.group_rows

  overrides_of : ℕ → OverrideSnapshot Number → Overrides Number
  overrides_of group_id [] = no_overrides fl
  overrides_of group_id ((owner, overrides) ∷ rest) =
      let later = overrides_of group_id rest in if owner == group_id then overrides else later

  -- group_snapshot.get(group_id, {})
  unfoldable pub inherited_from : OverrideSnapshot Number → Option ℕ → Overrides Number
  unfolding overrides_of
  inherited_from snapshot none = no_overrides fl
  inherited_from snapshot (some group_id) = overrides_of group_id snapshot

  -- A row joined with its miner; a row without one is not read.
  shown_joined :
      AnomalyPolicy Number
      → OverrideSnapshot Number
      → OverrideRow Number
      → Option Miner
      → OverrideSnapshot Number
      → OverrideSnapshot Number
  unfolding shown inherited_from effective_overrides
  shown_joined global groups row none rest = rest
  shown_joined global groups row (some m) rest =
      shown row.owner (effective_overrides fl global (inherited_from groups m.group_id) row.values)
        rest

  effective_miners :
      AnomalyPolicy Number
      → OverrideSnapshot Number
      → List Miner
      → List (OverrideRow Number)
      → OverrideSnapshot Number
  unfolding shown_joined get_miner
  effective_miners global groups miners [] = []
  effective_miners global groups miners (row ∷ rows) =
      shown_joined global groups row (get_miner row.owner miners)
        (effective_miners global groups miners rows)

  unfoldable pub load_anomaly_override_snapshot :
      AnomalyPolicy Number → OverrideSnapshot Number → PolicyStore Number → OverrideSnapshot Number
  unfolding effective_miners
  load_anomaly_override_snapshot global groups store =
      effective_miners global groups store.miners store.miner_rows
