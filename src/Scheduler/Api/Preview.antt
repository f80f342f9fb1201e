-- ===== src/Scheduler/Api/Preview.antt =====
-- The preview of a schedule rule (app/api/scheduler.py, api_schedule_preview).
pub mod Agrees
use open_asicmanager.Prelude.{
  ℕ, zero, suc, Bool, true, false, not, ◌&&◌, Option, none, some, List, length, if◌then◌else◌,
  is_some, select, Result, ok, raised, raise_if, ◌>>=◌, ◌>>◌,
}
use open_asicmanager.Fleet.{Miner, Action}
use open_asicmanager.Groups.{Group, is_member, member_count}
use open_asicmanager.Values.{
  Json, null, boolean, integer, float, text, array, object, get, int, Fields,
}
use open_asicmanager.Values.Integers.{ℤ, pos, in_range}
use open_asicmanager.Scheduler.{Rule, RuleScope, farm, group, Local, schedule_rule_next_run}
use open_asicmanager.Scheduler.Iteration.{list_schedulable_miners}
use open_asicmanager.Scheduler.Input.{ScheduleInput, schedule_normalize_input, is_blank}
use open_asicmanager.Scheduler.Table.{new_rule, schedule_conflicting_rule, get_schedule_rule}
use open_asicmanager.Scheduler.Api.{
  ApiError, attribute_error, type_error, invalid_rule_id, ApiState, parsed, or_bad_input, existing,
  validated_schedule_group,
}

-- `input` holds the columns of the answer that repeat the request; the group is the one that is named.
pub record Preview : Type 0 where
  pub allowed : Bool
  pub input : ScheduleInput
  pub target : Option Group
  pub affected_miner_count : ℕ
  pub group_member_count : Option ℕ
  pub next_run : Option Local
  pub conflict : Option Rule

-- data.get("rule_id"); a value that is no object has no `get`.
raw_rule_id : Json → Result ApiError (Option Json)
raw_rule_id (object _ body) = ok (get "rule_id" body)
raw_rule_id _ = raised attribute_error

abbrev pub given : Option Json → Option Json
given none = none
given (some v) = if is_blank v then none else some v

positive : Option ℤ → Result ApiError ℕ
positive (some (pos (suc n))) = ok (suc n)
positive _ = raised invalid_rule_id

-- The rule that is to be changed, if one is named.
named_rule : Option Json → List Rule → Result ApiError (Option (ℕ × Rule))
unfolding positive get_schedule_rule
named_rule none rules = ok none
named_rule (some v) rules = do
  rule_id ← positive (int v)
  r ← existing (get_schedule_rule rule_id rules)
  ok (some (rule_id, r))

abbrev id_of : Option (ℕ × Rule) → Option ℕ
id_of none = none
id_of (some (rule_id, r)) = some rule_id

abbrev rule_of : Option (ℕ × Rule) → Option Rule
rule_of none = none
rule_of (some (rule_id, r)) = some r

abbrev in_group : Option ℕ → Miner → Bool
in_group none m = false
in_group (some group_id) m = is_member group_id m

schedule_preview_targets : ScheduleInput → List Miner → List Miner
unfolding list_schedulable_miners
schedule_preview_targets n miners =
    let all = list_schedulable_miners miners in
    elim n.scope [ farm ↦ all | group ↦ select (in_group n.group_id) all ]

abbrev members_of : Option Group → List Miner → Option ℕ
members_of none miners = none
members_of (some g) miners = some (member_count g.id miners)

preview_of : ScheduleInput → Option Group → Option Rule → Local → ApiState → Preview
unfolding schedule_preview_targets
preview_of n g conflict now s = record {
  allowed = not (is_some conflict);
  input = n;
  target = g;
  affected_miner_count = length (schedule_preview_targets n s.miners);
  group_member_count = members_of g s.miners;
  next_run = schedule_rule_next_run (new_rule 0 n 0) now;
  conflict = conflict;
}

-- POST /api/schedule/preview
unfoldable pub api_schedule_preview : Option Json → Local → ApiState → Result ApiError Preview
unfolding raw_rule_id named_rule preview_of
api_schedule_preview json now s = do
  body ← parsed json
  raw ← raw_rule_id body
  current ← named_rule (given raw) s.table.rules
  n ← or_bad_input (schedule_normalize_input body (rule_of current))
  g ← validated_schedule_group n s.groups
  let conflict = schedule_conflicting_rule n (id_of current) s.table.rules
  ok (preview_of n g conflict now s)
