-- ===== src/Anomalies/Policies.antt =====
-- The anomaly policy and its overrides (app/anomalies/policy.py): the global policy, a group's overrides over
-- it, and a miner's over both. A dict is a record of its members; of several members that are bad the
-- error names the first in the order of the fields. Floating-point numbers are a parameter.
mod Data
pub mod Patches
pub mod Valid
pub mod Layers
pub mod Store
mod Samples
use open_asicmanager.Prelude.{
  ℕ, ◌≤◌, ◌≡◌, String, Bool, true, false, not, ◌&&◌, ◌||◌, Option, none, some, List, [], ◌∷◌, ◌++◌,
  if◌then◌else◌, get_or, is_some, Result, ok, raised, raise_if, ◌>>=◌, ◌>>◌,
}
use open_asicmanager.Values.Integers.{ℤ, pos, in_range}
use open_asicmanager.Values.Numerals.{int_of_text}
pub use Data.*

pub interval_named : Bool → List String
interval_named true = "interval_seconds" ∷ []
interval_named false = []

none_missing : List Field → Result PolicyError (Unit {0})
none_missing [] = ok tt
none_missing (field ∷ fields) = raised (missing_fields (field ∷ fields))

pub none_unknown : List String → Result PolicyError (Unit {0})
none_unknown [] = ok tt
none_unknown (name ∷ names) = raised (unknown_fields (name ∷ names))

module _ (fl : Floats) where
  open fl use {
    Number, lt, is_finite, of_int, of_text, is_exact, truncate, is_whole, n30, n40, n82, n85,
    n119_9, n120,
  }

  unfoldable pub default_anomaly_policy : AnomalyPolicy Number
  default_anomaly_policy = record {
    interval = 30;
    offline_grace = 180;
    hot_temp = n85;
    hot_clear = n82;
    hot_grace = 180;
    schedule_grace = 600;
  }

  exactly : Option ℤ → Option ℤ
  exactly none = none
  exactly (some n) = if is_exact n then some n else none

  -- int(value), if float(value) is equal to it
  int_of_raw : Raw Number → Option ℤ
  unfolding exactly
  int_of_raw (whole n) = exactly (some n)
  int_of_raw (real x) = if is_whole x then truncate x else none
  int_of_raw (words s) = exactly (int_of_text s)
  int_of_raw _ = none

  -- float(value)
  number_of_raw : Raw Number → Option Number
  number_of_raw (whole n) = of_int n
  number_of_raw (real x) = some x
  number_of_raw (words s) = of_text s
  number_of_raw _ = none

  ranged : Field → ℕ → ℕ → Option ℤ → Result PolicyError ℕ
  ranged field lo hi none = raised (not_numeric field)
  ranged field lo hi (some n) = elim (in_range lo hi n) [
    | none ↦ raised (out_of_range field)
    | some m ↦ ok m
  ]

  ranged_number : Field → Number → Number → Option Number → Result PolicyError Number
  ranged_number field lo hi none = raised (not_numeric field)
  ranged_number field lo hi (some x) = do
    raise_if (not (is_finite x)) (not_finite field)
    raise_if (lt x lo || lt hi x) (out_of_range field)
    ok x

  -- _normalize_policy_value, for the four integer fields,
  int_value : Field → ℕ → ℕ → Raw Number → Result PolicyError ℕ
  unfolding int_of_raw ranged
  int_value field lo hi value = ranged field lo hi (int_of_raw value)

  -- and for the two temperatures
  number_value : Field → Number → Number → Raw Number → Result PolicyError Number
  unfolding number_of_raw ranged_number
  number_value field lo hi value = ranged_number field lo hi (number_of_raw value)

  pub grace_value : Field → Raw Number → Result PolicyError ℕ
  unfolding int_value
  grace_value field value = int_value field 0 86400 value

  interval_value : Raw Number → Result PolicyError ℕ
  unfolding int_value
  interval_value value = int_value interval_seconds 5 3600 value

  pub hot_value : Raw Number → Result PolicyError Number
  unfolding number_value
  hot_value value = number_value hot_temp_c n40 n120 value

  pub clear_value : Raw Number → Result PolicyError Number
  unfolding number_value
  clear_value value = number_value hot_clear_c n30 n119_9 value

  absent_field : Field → Option (Raw Number) → List Field
  absent_field field none = field ∷ []
  absent_field field (some a) = []

  missing : Members Number → List Field
  unfolding absent_field
  missing given =
      absent_field interval_seconds given.interval
      ++ (absent_field offline_grace_seconds given.offline_grace
          ++ (absent_field hot_temp_c given.hot_temp
              ++ (absent_field hot_clear_c given.hot_clear
                  ++ (absent_field hot_grace_seconds given.hot_grace
                      ++ absent_field schedule_grace_seconds given.schedule_grace))))

  -- A member that is there; the check on missing members comes first.
  abbrev the : Option (Raw Number) → Raw Number
  the value = get_or value null

  ordered : AnomalyPolicy Number → Result PolicyError (AnomalyPolicy Number)
  ordered p = do raise_if (not (lt p.hot_clear p.hot_temp)) clear_not_lower; ok p

  unfoldable pub normalize_anomaly_policy :
      Members Number → Result PolicyError (AnomalyPolicy Number)
  unfolding none_unknown none_missing missing grace_value interval_value hot_value clear_value
      ordered
  normalize_anomaly_policy given = do
    none_unknown given.others
    none_missing (missing given)
    interval ← interval_value (the given.interval)
    offline_grace ← grace_value offline_grace_seconds (the given.offline_grace)
    hot_temp ← hot_value (the given.hot_temp)
    hot_clear ← clear_value (the given.hot_clear)
    hot_grace ← grace_value hot_grace_seconds (the given.hot_grace)
    schedule_grace ← grace_value schedule_grace_seconds (the given.schedule_grace)
    ordered (record {
      interval = interval;
      offline_grace = offline_grace;
      hot_temp = hot_temp;
      hot_clear = hot_clear;
      hot_grace = hot_grace;
      schedule_grace = schedule_grace;
    })

  -- `if value is not None`
  optional :
      {A : Type 0}
      → (Raw Number → Result PolicyError A)
      → Option (Raw Number)
      → Result PolicyError (Option A)
  optional read none = ok none
  optional read (some null) = ok none
  optional read (some value) = do a ← read value; ok (some a)

  -- normalize_anomaly_overrides and normalize_group_anomaly_overrides
  unfoldable pub normalize_anomaly_overrides :
      Members Number → Result PolicyError (Overrides Number)
  unfolding none_unknown optional grace_value hot_value clear_value interval_named
  normalize_anomaly_overrides given = do
    none_unknown (interval_named (is_some given.interval) ++ given.others)
    offline_grace ← optional (grace_value offline_grace_seconds) given.offline_grace
    hot_temp ← optional hot_value given.hot_temp
    hot_clear ← optional clear_value given.hot_clear
    hot_grace ← optional (grace_value hot_grace_seconds) given.hot_grace
    schedule_grace ← optional (grace_value schedule_grace_seconds) given.schedule_grace
    ok (record {
      offline_grace = offline_grace;
      hot_temp = hot_temp;
      hot_clear = hot_clear;
      hot_grace = hot_grace;
      schedule_grace = schedule_grace;
    })

  -- A policy and overrides that are normalized again.
  unfoldable pub members_of : AnomalyPolicy Number → Members Number
  members_of p = record {
    interval = some (whole (pos p.interval));
    offline_grace = some (whole (pos p.offline_grace));
    hot_temp = some (real p.hot_temp);
    hot_clear = some (real p.hot_clear);
    hot_grace = some (whole (pos p.hot_grace));
    schedule_grace = some (whole (pos p.schedule_grace));
    others = [];
  }

  whole_member : Option ℕ → Option (Raw Number)
  whole_member none = none
  whole_member (some n) = some (whole (pos n))

  real_member : Option Number → Option (Raw Number)
  real_member none = none
  real_member (some x) = some (real x)

  unfoldable pub override_members : Overrides Number → Members Number
  unfolding whole_member real_member
  override_members o = record {
    interval = none;
    offline_grace = whole_member o.offline_grace;
    hot_temp = real_member o.hot_temp;
    hot_clear = real_member o.hot_clear;
    hot_grace = whole_member o.hot_grace;
    schedule_grace = whole_member o.schedule_grace;
    others = [];
  }

  -- effective.update(overrides)
  unfoldable pub update : AnomalyPolicy Number → Overrides Number → AnomalyPolicy Number
  update p o = record p {
    offline_grace = get_or o.offline_grace p.offline_grace;
    hot_temp = get_or o.hot_temp p.hot_temp;
    hot_clear = get_or o.hot_clear p.hot_clear;
    hot_grace = get_or o.hot_grace p.hot_grace;
    schedule_grace = get_or o.schedule_grace p.schedule_grace;
  }

  abbrev pub no_overrides : Overrides Number
  no_overrides = record {
    offline_grace = none;
    hot_temp = none;
    hot_clear = none;
    hot_grace = none;
    schedule_grace = none;
  }

  unfoldable pub resolve_anomaly_policy :
      AnomalyPolicy Number → Overrides Number → Result PolicyError (AnomalyPolicy Number)
  resolve_anomaly_policy global overrides = do
    effective ← normalize_anomaly_policy (members_of global)
    normalized ← normalize_anomaly_overrides (override_members overrides)
    normalize_anomaly_policy (members_of (update effective normalized))

  unfoldable pub resolve_layered_anomaly_policy :
      AnomalyPolicy Number
      → Overrides Number
      → Overrides Number
      → Result PolicyError (AnomalyPolicy Number)
  resolve_layered_anomaly_policy global group_overrides miner_overrides = do
    effective ← normalize_anomaly_policy (members_of global)
    normalized_group ← normalize_anomaly_overrides (override_members group_overrides)
    inherited ← normalize_anomaly_policy (members_of (update effective normalized_group))
    normalized_miner ← normalize_anomaly_overrides (override_members miner_overrides)
    normalize_anomaly_policy (members_of (update inherited normalized_miner))
