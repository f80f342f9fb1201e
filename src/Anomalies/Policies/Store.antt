-- ===== src/Anomalies/Policies/Store.antt =====
-- The stored policy and overrides (app/anomalies/repository.py): what is read of them, the checks of a
-- change against everything that inherits from it, and the writes.
pub mod Saved
pub mod Effective
pub mod Kept
pub mod Checks
pub mod Snapshots
use open_asicmanager.Prelude.{
  ℕ, String, Bool, true, false, not, ◌&&◌, Option, none, some, List, [], ◌∷◌, ◌++◌, ◌==◌,
  if◌then◌else◌, is_some, first_row, update_rows, delete_rows, count_rows, Result, ok, raised,
  raise_if, ◌>>=◌, ◌>>◌,
}
use open_asicmanager.Fleet.{Miner, get_miner}
use open_asicmanager.Values.Integers.{pos}
use open_asicmanager.Values.Numerals.{decimal}
use open_asicmanager.Anomalies.Policies.{
  Floats, PolicyError, group_conflict, miner_conflict, membership_invalid, Raw, whole, real, words,
  Members, AnomalyPolicy, Overrides, no_overrides, default_anomaly_policy, normalize_anomaly_policy,
  normalize_anomaly_overrides, members_of, override_members, resolve_layered_anomaly_policy,
}

-- The values of the settings "anomaly.…".
pub record Settings : Type 0 where
  pub interval : Option String
  pub offline_grace : Option String
  pub hot_temp : Option String
  pub hot_clear : Option String
  pub hot_grace : Option String
  pub schedule_grace : Option String

-- A row of group_anomaly_policy_overrides or anomaly_policy_overrides: `owner` is the group or the miner.
pub record OverrideRow (Number : Type 0) : Type 0 where
  pub owner : ℕ
  pub values : Overrides Number
  pub updated_by : String
  pub updated_at : ℕ

pub record PolicyStore (Number : Type 0) : Type 0 where
  pub settings : Settings
  pub group_rows : List (OverrideRow Number)
  pub miner_rows : List (OverrideRow Number)
  pub miners : List Miner

checked_if : Bool → Result PolicyError (Unit {0}) → Result PolicyError (Unit {0})
checked_if true check = check
checked_if false check = ok tt

abbrev pub in_group : ℕ → Miner → Bool
in_group group_id m = elim m.group_id [ none ↦ false | some g ↦ g == group_id ]

module _ (fl : Floats) where
  open fl use {Number, print}

  abbrev pub owned_by : ℕ → OverrideRow Number → Bool
  owned_by owner r = r.owner == owner

  setting : Option String → Raw Number → Option (Raw Number)
  setting none default = some default
  setting (some value) default = some (words value)

  stored_members : Settings → Members Number
  unfolding setting default_anomaly_policy
  stored_members s =
      let d = default_anomaly_policy fl in
      record {
        interval = setting s.interval (whole (pos d.interval));
        offline_grace = setting s.offline_grace (whole (pos d.offline_grace));
        hot_temp = setting s.hot_temp (real d.hot_temp);
        hot_clear = setting s.hot_clear (real d.hot_clear);
        hot_grace = setting s.hot_grace (whole (pos d.hot_grace));
        schedule_grace = setting s.schedule_grace (whole (pos d.schedule_grace));
        others = [];
      }

  or_default : Result PolicyError (AnomalyPolicy Number) → AnomalyPolicy Number
  or_default (ok p) = p
  or_default (raised e) = default_anomaly_policy fl

  unfoldable pub load_anomaly_policy : Settings → AnomalyPolicy Number
  unfolding stored_members or_default
  load_anomaly_policy s = or_default (normalize_anomaly_policy fl (stored_members s))

  -- str(value) of each field
  settings_of : AnomalyPolicy Number → Settings
  settings_of p = record {
    interval = some (decimal p.interval);
    offline_grace = some (decimal p.offline_grace);
    hot_temp = some (print p.hot_temp);
    hot_clear = some (print p.hot_clear);
    hot_grace = some (decimal p.hot_grace);
    schedule_grace = some (decimal p.schedule_grace);
  }

  unfoldable pub save_anomaly_policy :
      Members Number
      → PolicyStore Number
      → Result PolicyError (AnomalyPolicy Number × PolicyStore Number)
  unfolding settings_of
  save_anomaly_policy policy store = do
    normalized ← normalize_anomaly_policy fl policy
    ok (normalized, record store { settings = settings_of normalized })

  pub override_values_from_row : Option (OverrideRow Number) → Overrides Number
  override_values_from_row none = no_overrides fl
  override_values_from_row (some row) = row.values

  abbrev pub or_no_overrides : Result PolicyError (Overrides Number) → Overrides Number
  or_no_overrides (ok o) = o
  or_no_overrides (raised e) = no_overrides fl

  -- What is accepted of a change for a miner, over its group's overrides,
  accepted_overrides :
      AnomalyPolicy Number
      → Overrides Number
      → Members Number
      → Result PolicyError (Overrides Number)
  accepted_overrides global group_overrides given = do
    overrides ← normalize_anomaly_overrides fl given
    resolved ← resolve_layered_anomaly_policy fl global group_overrides overrides
    ok overrides

  -- and for a group.
  pub accepted_group_overrides :
      AnomalyPolicy Number → Members Number → Result PolicyError (Overrides Number)
  accepted_group_overrides global given = do
    overrides ← normalize_anomaly_overrides fl given
    resolved ← resolve_layered_anomaly_policy fl global overrides (no_overrides fl)
    ok overrides

  -- The overrides of a row, where they resolve; a ValueError is caught by the callers.
  pub effective_overrides :
      AnomalyPolicy Number
      → Overrides Number
      → Overrides Number
      → Result PolicyError (Overrides Number)
  unfolding accepted_overrides
  effective_overrides global group_overrides raw =
      accepted_overrides global group_overrides (override_members fl raw)

  pub effective_group_overrides :
      AnomalyPolicy Number → Overrides Number → Result PolicyError (Overrides Number)
  unfolding accepted_group_overrides
  effective_group_overrides global raw = accepted_group_overrides global (override_members fl raw)

  unfoldable pub load_group_anomaly_overrides :
      Option ℕ → AnomalyPolicy Number → PolicyStore Number → Overrides Number
  unfolding override_values_from_row effective_group_overrides
  load_group_anomaly_overrides none global store = no_overrides fl
  load_group_anomaly_overrides (some group_id) global store = or_no_overrides (
      effective_group_overrides global
        (override_values_from_row (first_row (owned_by group_id) store.group_rows)))

  group_of : Option Miner → Option ℕ
  group_of none = none
  group_of (some m) = m.group_id

  unfoldable pub miner_group_id : ℕ → PolicyStore Number → Option ℕ
  unfolding group_of get_miner
  miner_group_id miner_id store = group_of (get_miner miner_id store.miners)

  unfoldable pub load_miner_anomaly_overrides :
      ℕ → AnomalyPolicy Number → Overrides Number → PolicyStore Number → Overrides Number
  unfolding override_values_from_row effective_overrides
  load_miner_anomaly_overrides miner_id global group_overrides store = or_no_overrides (
      effective_overrides global group_overrides
        (override_values_from_row (first_row (owned_by miner_id) store.miner_rows)))

  -- load_miner_anomaly_overrides(miner_id), with neither policy given
  unfoldable pub miner_overrides_now : ℕ → PolicyStore Number → Overrides Number
  miner_overrides_now miner_id store =
      let global = load_anomaly_policy store.settings in
      load_miner_anomaly_overrides miner_id global
        (load_group_anomaly_overrides (miner_group_id miner_id store) global store) store

  -- The rows of miners in a group, joined with the miners table.
  abbrev pub row_in_group : ℕ → PolicyStore Number → OverrideRow Number → Bool
  row_in_group group_id store row = elim (get_miner row.owner store.miners) [
    | none ↦ false
    | some m ↦ in_group group_id m
  ]

  relabelled :
      (PolicyError → PolicyError)
      → Result PolicyError (AnomalyPolicy Number)
      → Result PolicyError (Unit {0})
  relabelled label (ok p) = ok tt
  relabelled label (raised e) = raised (label e)

  -- A row is checked if it takes effect now; one that does not is skipped.
  pub still_resolves :
      (PolicyError → PolicyError)
      → Result PolicyError (Overrides Number)
      → (Overrides Number → Result PolicyError (AnomalyPolicy Number))
      → Result PolicyError (Unit {0})
  unfolding relabelled
  still_resolves label (raised e) after = ok tt
  still_resolves label (ok overrides) after = relabelled label (after overrides)

  -- The loop over the miners' rows in validate_group_policy_against_miner_overrides.
  pub check_members :
      AnomalyPolicy Number
      → Overrides Number
      → Overrides Number
      → (OverrideRow Number → Bool)
      → List (OverrideRow Number)
      → Result PolicyError (Unit {0})
  unfolding still_resolves effective_overrides checked_if
  check_members global current changed selected [] = ok tt
  check_members global current changed selected (row ∷ rows) = do
    checked_if (selected row) (
        still_resolves (miner_conflict row.owner) (effective_overrides global current row.values)
          (resolve_layered_anomaly_policy fl global changed))
    check_members global current changed selected rows

  unfoldable pub validate_group_policy_against_miner_overrides :
      ℕ → Members Number → PolicyStore Number → Result PolicyError (Overrides Number)
  unfolding check_members accepted_group_overrides
  validate_group_policy_against_miner_overrides group_id given store = do
    let global = load_anomaly_policy store.settings
    normalized ← accepted_group_overrides global given
    let current = load_group_anomaly_overrides (some group_id) global store
    check_members global current normalized (row_in_group group_id store) store.miner_rows
    ok normalized

  none_set : Overrides Number → Bool
  none_set o =
      not (is_some o.offline_grace)
      && not (is_some o.hot_temp)
      && not (is_some o.hot_clear)
      && not (is_some o.hot_grace)
      && not (is_some o.schedule_grace)

  abbrev pub new_row : ℕ → Overrides Number → String → ℕ → OverrideRow Number
  new_row owner values actor now = record {
    owner = owner;
    values = values;
    updated_by = actor;
    updated_at = now;
  }

  -- DELETE where nothing is set, else INSERT … ON CONFLICT DO UPDATE
  pub put_row :
      ℕ → Overrides Number → String → ℕ → List (OverrideRow Number) → List (OverrideRow Number)
  unfolding none_set
  put_row owner values actor now rows =
      if none_set values
      then delete_rows (owned_by owner) rows
      else if is_some (first_row (owned_by owner) rows)
      then update_rows (owned_by owner) (λ row. new_row owner values actor now) rows
      else rows ++ new_row owner values actor now ∷ []

  unfoldable pub save_group_anomaly_overrides :
      ℕ
      → Members Number
      → String
      → ℕ
      → PolicyStore Number
      → Result PolicyError (Overrides Number × PolicyStore Number)
  unfolding put_row
  save_group_anomaly_overrides group_id given actor now store = do
    normalized ← validate_group_policy_against_miner_overrides group_id given store
    ok (
      normalized,
      record store { group_rows = put_row group_id normalized actor now store.group_rows },
    )

  unfoldable pub clear_group_anomaly_overrides :
      ℕ → PolicyStore Number → Result PolicyError (Bool × PolicyStore Number)
  clear_group_anomaly_overrides group_id store = do
    checked ←
        validate_group_policy_against_miner_overrides group_id
          (override_members fl (no_overrides fl)) store
    ok (
      not (count_rows (owned_by group_id) store.group_rows == 0),
      record store { group_rows = delete_rows (owned_by group_id) store.group_rows },
    )

  unfoldable pub save_miner_anomaly_overrides :
      ℕ
      → Members Number
      → String
      → ℕ
      → PolicyStore Number
      → Result PolicyError (Overrides Number × PolicyStore Number)
  unfolding put_row accepted_overrides
  save_miner_anomaly_overrides miner_id given actor now store = do
    let global = load_anomaly_policy store.settings
    let inherited = load_group_anomaly_overrides (miner_group_id miner_id store) global store
    normalized ← accepted_overrides global inherited given
    ok (
      normalized,
      record store { miner_rows = put_row miner_id normalized actor now store.miner_rows },
    )

  unfoldable pub clear_miner_anomaly_overrides : ℕ → PolicyStore Number → Bool × PolicyStore Number
  clear_miner_anomaly_overrides miner_id store = (
    not (count_rows (owned_by miner_id) store.miner_rows == 0),
    record store { miner_rows = delete_rows (owned_by miner_id) store.miner_rows },
  )
