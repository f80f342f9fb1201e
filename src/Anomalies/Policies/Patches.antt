-- ===== src/Anomalies/Policies/Patches.antt =====
-- Changes of overrides, and where the fields of an effective policy come from (app/anomalies/policy.py).
use open_asicmanager.Prelude.{
  String, Bool, true, false, not, ◌&&◌, Option, none, some, List, [], ◌∷◌, ◌++◌, is_some,
  if◌then◌else◌, Result, ok, raise_if, ◌>>=◌, ◌>>◌,
}
use open_asicmanager.Anomalies.Policies.{
  Floats, PolicyError, nothing_given, offline_grace_seconds, hot_grace_seconds,
  schedule_grace_seconds, Raw, null, Members, AnomalyPolicy, Overrides, none_unknown,
  interval_named, grace_value, hot_value, clear_value, normalize_anomaly_overrides,
  override_members, no_overrides, resolve_anomaly_policy, resolve_layered_anomaly_policy,
}

is_empty_list : List String → Bool
is_empty_list [] = true
is_empty_list (name ∷ names) = false

-- "OVERRIDE" or "GLOBAL", and "MINER", "GROUP" or "GLOBAL".
pub data PolicySource : Type 0 where
  override global group miner : PolicySource

pub record Sources : Type 0 where
  pub interval : PolicySource
  pub offline_grace : PolicySource
  pub hot_temp : PolicySource
  pub hot_clear : PolicySource
  pub hot_grace : PolicySource
  pub schedule_grace : PolicySource

abbrev pub source_of : {A : Type 0} → Option A → PolicySource
source_of o = if is_some o then override else global

abbrev pub layered_source_of : {A : Type 0} → Option A → Option A → PolicySource
layered_source_of of_group of_miner =
    if is_some of_miner then miner else if is_some of_group then group else global

module _ (fl : Floats) where
  open fl use {Number}

  -- not patch
  is_nothing : Members Number → Bool
  unfolding is_empty_list
  is_nothing patch =
      not (is_some patch.interval)
      && not (is_some patch.offline_grace)
      && not (is_some patch.hot_temp)
      && not (is_some patch.hot_clear)
      && not (is_some patch.hot_grace)
      && not (is_some patch.schedule_grace)
      && is_empty_list patch.others

  -- A member of a patch: left out it changes nothing, None takes the override away.
  patched :
      {A : Type 0}
      → (Raw Number → Result PolicyError A)
      → Option A
      → Option (Raw Number)
      → Result PolicyError (Option A)
  patched read current none = ok current
  patched read current (some null) = ok none
  patched read current (some value) = do a ← read value; ok (some a)

  merge : Overrides Number → Members Number → Result PolicyError (Overrides Number)
  unfolding patched is_nothing
  merge current patch = do
    raise_if (is_nothing patch) nothing_given
    none_unknown (interval_named (is_some patch.interval) ++ patch.others)
    normalized ← normalize_anomaly_overrides fl (override_members fl current)
    offline_grace ←
        patched (grace_value fl offline_grace_seconds) normalized.offline_grace patch.offline_grace
    hot_temp ← patched (hot_value fl) normalized.hot_temp patch.hot_temp
    hot_clear ← patched (clear_value fl) normalized.hot_clear patch.hot_clear
    hot_grace ← patched (grace_value fl hot_grace_seconds) normalized.hot_grace patch.hot_grace
    schedule_grace ←
        patched (grace_value fl schedule_grace_seconds) normalized.schedule_grace
          patch.schedule_grace
    ok (record {
      offline_grace = offline_grace;
      hot_temp = hot_temp;
      hot_clear = hot_clear;
      hot_grace = hot_grace;
      schedule_grace = schedule_grace;
    })

  unfoldable pub apply_anomaly_override_patch :
      AnomalyPolicy Number
      → Overrides Number
      → Members Number
      → Result PolicyError (Overrides Number × AnomalyPolicy Number)
  unfolding merge
  apply_anomaly_override_patch global_policy current patch = do
    merged ← merge current patch
    effective ← resolve_anomaly_policy fl global_policy merged
    ok (merged, effective)

  unfoldable pub apply_group_anomaly_override_patch :
      AnomalyPolicy Number
      → Overrides Number
      → Members Number
      → Result PolicyError (Overrides Number × AnomalyPolicy Number)
  unfolding merge
  apply_group_anomaly_override_patch global_policy current patch = do
    merged ← merge current patch
    effective ← resolve_layered_anomaly_policy fl global_policy merged (no_overrides fl)
    ok (merged, effective)

  unfoldable pub anomaly_policy_sources : Overrides Number → Result PolicyError Sources
  anomaly_policy_sources overrides = do
    o ← normalize_anomaly_overrides fl (override_members fl overrides)
    ok (record {
      interval = global;
      offline_grace = source_of o.offline_grace;
      hot_temp = source_of o.hot_temp;
      hot_clear = source_of o.hot_clear;
      hot_grace = source_of o.hot_grace;
      schedule_grace = source_of o.schedule_grace;
    })

  abbrev pub layered_sources : Overrides Number → Overrides Number → Sources
  layered_sources g m = record {
    interval = global;
    offline_grace = layered_source_of g.offline_grace m.offline_grace;
    hot_temp = layered_source_of g.hot_temp m.hot_temp;
    hot_clear = layered_source_of g.hot_clear m.hot_clear;
    hot_grace = layered_source_of g.hot_grace m.hot_grace;
    schedule_grace = layered_source_of g.schedule_grace m.schedule_grace;
  }

  unfoldable pub layered_anomaly_policy_sources :
      Overrides Number → Overrides Number → Result PolicyError Sources
  layered_anomaly_policy_sources group_overrides miner_overrides = do
    g ← normalize_anomaly_overrides fl (override_members fl group_overrides)
    m ← normalize_anomaly_overrides fl (override_members fl miner_overrides)
    ok (layered_sources g m)
