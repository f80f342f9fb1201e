-- ===== src/Scheduler/Api.antt =====
-- The handlers that create, change, switch and delete schedule rules (app/api/scheduler.py). The body
-- is the value of `await request.json()`, or `none` where that raises.
-- Each handler is one step: the one that changes a rule reads the rule before it awaits the body, and the
-- model takes the body to be there already.
pub mod Preview
pub mod Keeps
use open_asicmanager.Prelude.{
  ℕ, Bool, true, false, not, ◌&&◌, ◌||◌, Option, none, some, List, [], ◌∷◌, ◌++◌, ◌==◌,
  if◌then◌else◌, is_some, select, Result, ok, raised, raise_if, ◌>>=◌, ◌>>◌,
}
use open_asicmanager.Fleet.{Miner, Action, pause, resume, reboot}
use open_asicmanager.Groups.{Group, get_group, is_member, same_id}
use open_asicmanager.Values.{Json, null, text, object, get, int, Fields}
use open_asicmanager.Values.Integers.{ℤ, pos, in_range}
use open_asicmanager.Scheduler.{Rule, RuleScope, farm, group}
use open_asicmanager.Scheduler.Iteration.{list_schedulable_miners}
use open_asicmanager.Scheduler.Input.{
  InputError, ScheduleInput, schedule_normalize_input, get_value, is_blank,
}
use open_asicmanager.Scheduler.Table.{
  RuleTable, switched, same_scope, schedule_conflicting_rule, get_schedule_rule,
  create_schedule_rule, update_schedule_rule, set_schedule_rule_enabled, delete_schedule_rule,
}

-- An HTTPException, by status and detail, or an exception that no handler catches.
pub data ApiError : Type 0 where
  bad_input : InputError → ApiError
  invalid_json invalid_rule_id group_not_found rule_not_found : ApiError
  conflict_with : Rule → ApiError
  attribute_error type_error : ApiError

-- log_event: the action with what the message tells.
pub data RuleEvent : Type 0 where
  rule_create rule_update : ℕ → ScheduleInput → Option Group → RuleEvent
  rule_enable rule_disable : ℕ → RuleEvent
  rule_delete : ℕ → Rule → RuleEvent
  scheduler_on scheduler_off : RuleEvent

-- `enabled` says whether the setting scheduler_enabled is "1".
pub record ApiState : Type 0 where
  pub table : RuleTable
  pub groups : List Group
  pub miners : List Miner
  pub enabled : Bool
  pub events : List RuleEvent

abbrev pub Reply : Type 0 → Type 0
Reply A = Result ApiError A

abbrev pub parsed : Option Json → Result ApiError Json
parsed none = raised invalid_json
parsed (some body) = ok body

abbrev pub or_bad_input : {A : Type 0} → Result InputError A → Result ApiError A
or_bad_input (ok a) = ok a
or_bad_input (raised e) = raised (bad_input e)

abbrev pub or_not_found : ApiError → Option Group → Result ApiError Group
or_not_found e none = raised e
or_not_found e (some g) = ok g

validated_group : RuleScope → Option ℕ → List Group → Result ApiError (Option Group)
unfolding get_group
validated_group farm group_id groups = ok none
validated_group group none groups = raised type_error
validated_group group (some group_id) groups = do
  g ← or_not_found group_not_found (get_group group_id groups)
  ok (some g)

unfoldable pub validated_schedule_group :
    ScheduleInput → List Group → Result ApiError (Option Group)
unfolding validated_group
validated_schedule_group n groups = validated_group n.scope n.group_id groups

-- 409, with the rule that is in the way
abbrev pub no_conflict : Option Rule → Result ApiError (Unit {0})
no_conflict none = ok tt
no_conflict (some r) = raised (conflict_with r)

abbrev pub ended : ApiState → RuleTable → RuleEvent → ApiState
ended s t e = record s { table = t; events = s.events ++ e ∷ [] }

-- The handler's part before the INSERT: nothing is written.
create_checks : Option Json → ApiState → Result ApiError (ScheduleInput × Option Group)
unfolding validated_schedule_group
create_checks json s = do
  body ← parsed json
  n ← or_bad_input (schedule_normalize_input body none)
  g ← validated_schedule_group n s.groups
  no_conflict (schedule_conflicting_rule n none s.table.rules)
  ok (n, g)

reply_created :
    ScheduleInput
    → Option Group
    → Option Rule × RuleTable
    → ApiState
    → Result ApiError Rule × ApiState
reply_created n g (none, t) s = (raised type_error, record s { table = t })
reply_created n g (some r, t) s = (ok r, ended s t (rule_create r.id n g))

after_create :
    ℕ → Result ApiError (ScheduleInput × Option Group) → ApiState → Result ApiError Rule × ApiState
unfolding reply_created create_schedule_rule
after_create now (raised e) s = (raised e, s)
after_create now (ok (n, g)) s = reply_created n g (create_schedule_rule n now s.table) s

-- POST /api/schedule/rules
unfoldable pub api_schedule_rule_create :
    Option Json → ℕ → ApiState → Result ApiError Rule × ApiState
unfolding create_checks after_create
api_schedule_rule_create json now s = after_create now (create_checks json s) s

abbrev pub existing : Option Rule → Result ApiError Rule
existing none = raised rule_not_found
existing (some r) = ok r

abbrev pub same_action : Action → Action → Bool
same_action pause pause = true
same_action resume resume = true
same_action reboot reboot = true
same_action _ _ = false

unfoldable pub schedule_changed : Rule → ScheduleInput → Bool
schedule_changed current n =
    not (same_action current.action n.action)
    || not (current.time_minutes == n.time_minutes)
    || not (current.days_mask == n.days_mask)
    || not (same_scope current.scope n.scope)
    || not (same_id current.group_id n.group_id)
    || not current.enabled && n.enabled

unfoldable pub new_effective_from : Rule → ScheduleInput → ℕ → ℕ
unfolding schedule_changed
new_effective_from current n now =
    if n.enabled && schedule_changed current n then now else current.effective_from

update_checks : ℕ → Option Json → ApiState → Result ApiError (Rule × ScheduleInput × Option Group)
unfolding validated_schedule_group get_schedule_rule
update_checks rule_id json s = do
  current ← existing (get_schedule_rule rule_id s.table.rules)
  body ← parsed json
  n ← or_bad_input (schedule_normalize_input body (some current))
  g ← validated_schedule_group n s.groups
  no_conflict (schedule_conflicting_rule n (some rule_id) s.table.rules)
  ok (current, n, g)

updated : RuleEvent → Option Rule × RuleTable → ApiState → Result ApiError Rule × ApiState
updated e (none, t) s = (raised type_error, ended s t e)
updated e (some r, t) s = (ok r, ended s t e)

after_update :
    ℕ
    → ℕ
    → Result ApiError (Rule × ScheduleInput × Option Group)
    → ApiState
    → Result ApiError Rule × ApiState
unfolding updated update_schedule_rule new_effective_from
after_update rule_id now (raised e) s = (raised e, s)
after_update rule_id now (ok (current, n, g)) s =
    updated (rule_update rule_id n g)
      (update_schedule_rule rule_id n (new_effective_from current n now) now s.table) s

-- PUT /api/schedule/rules/{rule_id}
unfoldable pub api_schedule_rule_update :
    ℕ → Option Json → ℕ → ApiState → Result ApiError Rule × ApiState
unfolding update_checks after_update
api_schedule_rule_update rule_id json now s =
    after_update rule_id now (update_checks rule_id json s) s

enable_checks : Bool → ℕ → Rule → ApiState → Result ApiError (Unit {0})
unfolding validated_schedule_group
enable_checks false rule_id current s = ok tt
enable_checks true rule_id current s = do
  g ← validated_schedule_group (switched true current) s.groups
  no_conflict (schedule_conflicting_rule (switched true current) (some rule_id) s.table.rules)

toggle_checks : ℕ → ApiState → Result ApiError Rule
unfolding enable_checks get_schedule_rule
toggle_checks rule_id s = do
  current ← existing (get_schedule_rule rule_id s.table.rules)
  enable_checks (not current.enabled) rule_id current s
  ok current

toggle_event : Bool → ℕ → RuleEvent
toggle_event true rule_id = rule_enable rule_id
toggle_event false rule_id = rule_disable rule_id

after_toggle : ℕ → ℕ → Result ApiError Rule → ApiState → Result ApiError Rule × ApiState
unfolding updated toggle_event set_schedule_rule_enabled
after_toggle rule_id now (raised e) s = (raised e, s)
after_toggle rule_id now (ok current) s =
    let new_enabled = not current.enabled in
    updated (toggle_event new_enabled rule_id)
      (set_schedule_rule_enabled rule_id new_enabled
        (if new_enabled then now else current.effective_from) now s.table)
      s

-- POST /api/schedule/rules/{rule_id}/toggle
unfoldable pub api_schedule_rule_toggle : ℕ → ℕ → ApiState → Result ApiError Rule × ApiState
unfolding toggle_checks after_toggle
api_schedule_rule_toggle rule_id now s = after_toggle rule_id now (toggle_checks rule_id s) s

after_delete : ℕ → Option Rule × RuleTable → ApiState → Result ApiError ℕ × ApiState
after_delete rule_id (none, t) s = (raised rule_not_found, record s { table = t })
after_delete rule_id (some current, t) s = (ok rule_id, ended s t (rule_delete rule_id current))

-- DELETE /api/schedule/rules/{rule_id}
unfoldable pub api_schedule_rule_delete : ℕ → ApiState → Result ApiError ℕ × ApiState
unfolding after_delete delete_schedule_rule
api_schedule_rule_delete rule_id s = after_delete rule_id (delete_schedule_rule rule_id s.table) s

-- POST /api/scheduler/toggle
unfoldable pub scheduler_toggle : ApiState → Bool × ApiState
scheduler_toggle s =
    let new_value = not s.enabled in
    (
      new_value,
      record s {
        enabled = new_value;
        events = s.events ++ (if new_value then scheduler_on else scheduler_off) ∷ [];
      },
    )
