-- ===== src/Anomalies/Policies/Samples.antt =====
-- The anomaly policies on concrete values (app/anomalies/policy.py and app/anomalies/repository.py), with
-- temperatures in whole tenths of a degree for the floating-point numbers.
use open_asicmanager.Prelude.{
  ℕ, ◌*◌, ◌/◌, ◌%◌, ◌≡◌, refl, ap, true, Option, none, some, [], ◌∷◌, ◌==◌, ltb, ok, raised,
  first_row, strip, is_space,
}
use open_asicmanager.Fleet.{awesome, mining, Miner, get_miner}
use open_asicmanager.Values.Integers.{ℤ, pos, in_range}
use open_asicmanager.Values.Numerals.{decimal, int_of_text}
use open_asicmanager.Values.Numerals.Decimal.{int_of_text-decimal}
use open_asicmanager.Anomalies.Policies.{
  Floats, clear_not_lower, miner_conflict, Members, AnomalyPolicy, Overrides, whole, real, words,
  normalize_anomaly_policy, normalize_anomaly_overrides, members_of, override_members, update,
  default_anomaly_policy, no_overrides, resolve_layered_anomaly_policy,
}
use open_asicmanager.Anomalies.Policies.Valid.{IsValid}
use open_asicmanager.Anomalies.Policies.Layers.{FollowsSources, resolve_layered-FollowsSources}
use open_asicmanager.Anomalies.Policies.Store.{
  Settings, PolicyStore, load_anomaly_policy, save_anomaly_policy, load_group_anomaly_overrides,
  miner_group_id, load_miner_anomaly_overrides, miner_overrides_now,
  validate_group_policy_against_miner_overrides, save_group_anomaly_overrides,
}
use open_asicmanager.Anomalies.Policies.Store.Saved.{load-save}
use open_asicmanager.Anomalies.Policies.Store.Kept.{TakesEffect, save_group-TakesEffect}
use open_asicmanager.Anomalies.Policies.Patches.{
  layered_anomaly_policy_sources, Sources, global, group, miner,
}

abbrev natural : Option ℤ → Option ℕ
natural (some (pos n)) = some n
natural _ = none

abbrev tenths : Option ℕ → Option ℕ
tenths none = none
tenths (some n) = some (n * 10)

abbrev floats : Floats
floats = record {
  Number = ℕ;
  lt = ltb;
  is_finite = λ x. true;
  of_int = λ n. tenths (natural (some n));
  of_text = λ s. natural (int_of_text s);
  print = decimal;
  is_exact = λ n. true;
  truncate = λ x. some (pos (x / 10));
  is_whole = λ x. x % 10 == 0;
  n30 = 300;
  n40 = 400;
  n82 = 820;
  n85 = 850;
  n119_9 = 1199;
  n120 = 1200;
  reads_back = λ x h. ap natural (int_of_text-decimal x);
  exact = λ n h. refl;
}

abbrev defaults : AnomalyPolicy ℕ
defaults = record {
  interval = 30;
  offline_grace = 180;
  hot_temp = 850;
  hot_clear = 820;
  hot_grace = 180;
  schedule_grace = 600;
}

-- A group that clears at 80.0 and waits a minute, and a miner that is hot at 90.0.
abbrev cool : Overrides ℕ
cool = record (no_overrides floats) { hot_clear = some 800; offline_grace = some 60 }

abbrev warm : Overrides ℕ
warm = record (no_overrides floats) { hot_temp = some 900 }

abbrev both : AnomalyPolicy ℕ
both = record defaults { hot_temp = 900; hot_clear = 800; offline_grace = 60 }

abbrev both_sources : Sources
both_sources = record {
  interval = global;
  offline_grace = group;
  hot_temp = miner;
  hot_clear = group;
  hot_grace = global;
  schedule_grace = global;
}

resolves : resolve_layered_anomaly_policy floats defaults cool warm ≡ ok both
unfolding resolve_layered_anomaly_policy normalize_anomaly_policy normalize_anomaly_overrides
    members_of override_members update in_range
resolves = refl

told : layered_anomaly_policy_sources floats cool warm ≡ ok both_sources
unfolding layered_anomaly_policy_sources normalize_anomaly_overrides override_members in_range
told = refl

resolve_layered-FollowsSources_example :
    IsValid floats both × FollowsSources floats defaults cool warm both_sources both
resolve_layered-FollowsSources_example =
    resolve_layered-FollowsSources floats defaults cool warm resolves told

abbrev rig : Miner
rig = record {
  id = 7;
  name = "rig-7";
  ip = "10.0.0.7";
  driver = awesome;
  enabled = true;
  schedule_enabled = true;
  group_id = some 3;
  manual_override_until = none;
  last_state = some mining;
  last_seen = some 1000;
  last_error = none;
  last_action = none;
  last_action_at = none;
}

abbrev unset : Settings
unset = record {
  interval = none;
  offline_grace = none;
  hot_temp = none;
  hot_clear = none;
  hot_grace = none;
  schedule_grace = none;
}

abbrev shed : PolicyStore ℕ
shed = record {
  settings = unset;
  group_rows = [];
  miner_rows = record { owner = 7; values = warm; updated_by = "root"; updated_at = 900 } ∷ [];
  miners = rig ∷ [];
}

-- Texts and numbers that a client may send.
abbrev given : Members ℕ
given = record {
  interval = some (words " 60 ");
  offline_grace = some (whole (pos 60));
  hot_temp = some (real 900);
  hot_clear = some (whole (pos 80));
  hot_grace = some (real 1800);
  schedule_grace = some (words "600");
  others = [];
}

abbrev saved_policy : AnomalyPolicy ℕ
saved_policy = record both { interval = 60 }

abbrev stored : Settings
stored = record {
  interval = some "60";
  offline_grace = some "60";
  hot_temp = some "900";
  hot_clear = some "800";
  hot_grace = some "180";
  schedule_grace = some "600";
}

saves : save_anomaly_policy floats given shed ≡ ok (saved_policy, record shed { settings = stored })
unfolding save_anomaly_policy normalize_anomaly_policy in_range int_of_text strip is_space decimal
saves = refl

load-save_example : load_anomaly_policy floats stored ≡ saved_policy
load-save_example = load-save floats given shed saves

abbrev shed_after : PolicyStore ℕ
shed_after = record shed {
  group_rows = record { owner = 3; values = cool; updated_by = "root"; updated_at = 1000 } ∷ [];
}

abbrev no_members : Members ℕ
no_members = record {
  interval = none;
  offline_grace = none;
  hot_temp = none;
  hot_clear = none;
  hot_grace = none;
  schedule_grace = none;
  others = [];
}

abbrev cool_members : Members ℕ
cool_members = record no_members {
  hot_clear = some (words "800");
  offline_grace = some (whole (pos 60));
}

saves_group :
    save_group_anomaly_overrides floats 3 cool_members "root" 1000 shed ≡ ok (cool, shed_after)
unfolding save_group_anomaly_overrides validate_group_policy_against_miner_overrides
    load_anomaly_policy load_group_anomaly_overrides resolve_layered_anomaly_policy
    normalize_anomaly_policy normalize_anomaly_overrides members_of override_members update in_range
    default_anomaly_policy first_row get_miner int_of_text strip is_space
saves_group = refl

in_group_3 : miner_group_id floats 7 shed ≡ some 3
unfolding miner_group_id first_row get_miner
in_group_3 = refl

save_group-TakesEffect_example : TakesEffect floats 3 7 shed cool shed_after
save_group-TakesEffect_example =
    save_group-TakesEffect floats 3 cool_members "root" 1000 shed 7 in_group_3 saves_group

-- The miner has its own override before and after.
own_now : miner_overrides_now floats 7 shed_after ≡ warm
unfolding miner_overrides_now miner_group_id load_miner_anomaly_overrides load_anomaly_policy
    load_group_anomaly_overrides resolve_layered_anomaly_policy normalize_anomaly_policy
    normalize_anomaly_overrides members_of override_members update in_range default_anomaly_policy
    first_row get_miner
own_now = refl

-- A group cannot clear at a heat that a miner of it reports.
refused :
    save_group_anomaly_overrides floats 3
      (record no_members { hot_temp = some (real 950); hot_clear = some (whole (pos 91)) })
      "root"
      1000
      shed
    ≡ raised (miner_conflict 7 clear_not_lower)
unfolding save_group_anomaly_overrides validate_group_policy_against_miner_overrides
    load_anomaly_policy load_group_anomaly_overrides resolve_layered_anomaly_policy
    normalize_anomaly_policy normalize_anomaly_overrides members_of override_members update in_range
    default_anomaly_policy first_row get_miner
refused = refl
