-- ===== src/Scheduler/Input.antt =====
-- The body of a request that creates or changes a schedule rule (app/scheduler/validation.py), and
-- how a rule's time is printed (app/scheduler/policy.py).
pub mod Bounds
pub mod Times
use Prim.Native.String.{◌++◌}
use open_asicmanager.Prelude.{
  ℕ, ◌/◌, ◌%◌, String, Bool, true, false, not, ◌||◌, Option, none, some, ltb, if◌then◌else◌, get_or,
  strip, count, is_empty, Result, ok, raised, raise_if, ◌>>=◌, ◌>>◌,
}
use open_asicmanager.Fleet.{Action, pause, resume, reboot}
use open_asicmanager.Values.{
  Json, null, boolean, integer, text, object, Fields, get, str, str_or, int, positive_int,
}
use open_asicmanager.Values.Integers.{ℤ, pos, is_zero, in_range, scale, ◌+ℤ◌}
use open_asicmanager.Values.Numerals.{two_digits, int_of_text, split_once, upper_is, lower_is}
use open_asicmanager.Scheduler.{Rule, RuleScope, farm, group}

-- HTTPException(400), by its detail.
pub data InputError : Type 0 where
  invalid_json_body bad_action invalid_time time_not_clock invalid_days no_day : InputError
  comment_too_long bad_scope farm_with_group group_required : InputError

pub record ScheduleInput : Type 0 where
  pub enabled : Bool
  pub action : Action
  pub time_minutes : ℕ
  pub days_mask : ℕ
  pub scope : RuleScope
  pub group_id : Option ℕ
  pub comment : String

unfoldable pub schedule_time_string : ℕ → String
schedule_time_string minutes = two_digits (minutes / 60) ++ (":" ++ two_digits (minutes % 60))

unfoldable pub schedule_parse_bool : Json → Bool
schedule_parse_bool (boolean b) = b
schedule_parse_bool (integer n) = not (is_zero n)
schedule_parse_bool value =
    let word = strip (str value) in
    lower_is word "1" || lower_is word "true" || lower_is word "yes" || lower_is word "on"

abbrev pub action_text : Action → String
action_text pause = "PAUSE"
action_text resume = "RESUME"
action_text reboot = "REBOOT"

abbrev pub scope_text : RuleScope → String
scope_text farm = "FARM"
scope_text group = "GROUP"

abbrev pub nullable : Option ℕ → Json
nullable none = null
nullable (some n) = integer (pos n)

-- current_value(name, default)
abbrev pub current_value : (Rule → Json) → Json → Option Rule → Json
current_value column default none = default
current_value column default (some rule) = column rule

-- data.get(name, default)
abbrev pub get_value : String → Json → Fields → Json
get_value name default body = get_or (get name body) default

unfoldable pub read_action : String → Result InputError Action
read_action word =
    if upper_is word "PAUSE"
    then ok pause
    else if upper_is word "RESUME"
    then ok resume
    else raised bad_action

abbrev pub or_raise : InputError → Option ℤ → Result InputError ℤ
or_raise e none = raised e
or_raise e (some n) = ok n

clock : Option ℤ → Option ℤ → Result InputError ℤ
clock (some hour) (some minute) = ok (scale hour 60 +ℤ minute)
clock _ _ = raised time_not_clock

split_clock : Option (String × String) → Result InputError ℤ
unfolding clock
split_clock none = raised time_not_clock
split_clock (some (hour, minute)) = clock (int_of_text hour) (int_of_text minute)

-- "HH:MM"
unfoldable pub read_clock : String → Result InputError ℤ
unfolding split_clock
read_clock time = split_clock (split_once b':' (strip time))

time_of : Option Json → Option Json → Option Rule → Result InputError ℤ
unfolding read_clock
time_of (some minutes) time current = or_raise invalid_time (int minutes)
time_of none (some time) current = read_clock (str time)
time_of none none none = ok (pos 420)
time_of none none (some rule) = ok (pos rule.time_minutes)

unfoldable pub bounded : InputError → ℕ → ℕ → ℤ → Result InputError ℕ
bounded e lo hi n = elim (in_range lo hi n) [ none ↦ raised e | some m ↦ ok m ]

unfoldable pub read_scope : String → Result InputError RuleScope
read_scope word =
    if upper_is word "FARM"
    then ok farm
    else if upper_is word "GROUP"
    then ok group
    else raised bad_scope

-- value in (None, "")
abbrev pub is_blank : Json → Bool
is_blank null = true
is_blank (text s) = is_empty s
is_blank _ = false

unfoldable pub read_group : RuleScope → Json → Result InputError (Option ℕ)
read_group farm value = if is_blank value then ok none else raised farm_with_group
read_group group value = elim (positive_int value) [
  | none ↦ raised group_required
  | some group_id ↦ ok (some group_id)
]

-- The members of the body, each with what it is when it is left out.
action_member : Fields → Option Rule → Json
action_member body current =
    get_value "action" (current_value (λ r. text (action_text r.action)) (text "PAUSE") current)
      body

enabled_member : Fields → Option Rule → Json
enabled_member body current =
    get_value "enabled"
      (current_value (λ r. integer (pos (if r.enabled then 1 else 0))) (integer (pos 1)) current)
      body

days_member : Fields → Option Rule → Json
days_member body current =
    get_value "days_mask"
      (current_value (λ r. integer (pos r.days_mask)) (integer (pos 31)) current) body

comment_member : Fields → Option Rule → Json
comment_member body current =
    get_value "comment" (current_value (λ r. text r.comment) (text "") current) body

scope_member : Fields → Option Rule → Json
scope_member body current =
    get_value "scope" (current_value (λ r. text (scope_text r.scope)) (text "FARM") current) body

group_member : Fields → Option Rule → Json
group_member body current =
    get_value "group_id" (current_value (λ r. nullable r.group_id) null current) body

read_time : Fields → Option Rule → Result InputError ℕ
unfolding time_of bounded
read_time body current = do
  minutes ← time_of (get "time_minutes" body) (get "time" body) current
  bounded invalid_time 0 1439 minutes

unfoldable pub read_days : Json → Result InputError ℕ
unfolding bounded
read_days value = do mask ← or_raise invalid_days (int value); bounded no_day 1 127 mask

unfoldable pub read_comment : Json → Result InputError String
read_comment value = do
  let comment = strip (str_or value "")
  raise_if (ltb 120 (count comment)) comment_too_long
  ok comment

normalize_members : Fields → Option Rule → Result InputError ScheduleInput
unfolding read_time read_action read_scope action_member enabled_member days_member comment_member
    scope_member group_member
normalize_members body current = do
  action ← read_action (strip (str (action_member body current)))
  time_minutes ← read_time body current
  days_mask ← read_days (days_member body current)
  let enabled = schedule_parse_bool (enabled_member body current)
  comment ← read_comment (comment_member body current)
  scope ← read_scope (strip (str_or (scope_member body current) "FARM"))
  group_id ← read_group scope (group_member body current)
  ok (record {
    enabled = enabled;
    action = action;
    time_minutes = time_minutes;
    days_mask = days_mask;
    scope = scope;
    group_id = group_id;
    comment = comment;
  })

-- `current` is the rule that is changed, if there is one.
unfoldable pub schedule_normalize_input : Json → Option Rule → Result InputError ScheduleInput
unfolding normalize_members
schedule_normalize_input (object _ body) current = normalize_members body current
schedule_normalize_input _ current = raised invalid_json_body
