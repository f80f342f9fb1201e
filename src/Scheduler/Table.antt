-- ===== src/Scheduler/Table.antt =====
-- The statements on schedule_rules that create and change rules (app/scheduler/repository.py).
pub mod Days
pub mod Apart
pub mod Sound
use open_asicmanager.Prelude.{
  ℕ, zero, suc, ◌+◌, ◌*◌, ◌/◌, ◌%◌, Bool, true, false, not, ◌&&◌, Option, none, some, List, [], ◌∷◌,
  ◌++◌, ◌==◌, if◌then◌else◌, first_row, update_rows, delete_rows, count_rows,
}
use open_asicmanager.Scheduler.{Rule, RuleScope, farm, group}
use open_asicmanager.Scheduler.Input.{ScheduleInput}

-- `next_rule` is the id that AUTOINCREMENT gives next.
pub record RuleTable : Type 0 where
  pub rules : List Rule
  pub next_rule : ℕ

-- a & b of two numbers of so many bits
unfoldable pub bit_and : ℕ → ℕ → ℕ → ℕ
bit_and zero a b = 0
bit_and (suc bits) a b =
    (if a % 2 == 1 && b % 2 == 1 then 1 else 0) + 2 * bit_and bits (a / 2) (b / 2)

-- An INTEGER of SQLite, which is not negative here.
abbrev pub integer_bits : ℕ
integer_bits = 63

abbrev pub same_scope : RuleScope → RuleScope → Bool
same_scope farm farm = true
same_scope group group = true
same_scope _ _ = false

-- (? IS NULL AND group_id IS NULL) OR group_id=?
abbrev pub same_group : Option ℕ → Option ℕ → Bool
same_group none none = true
same_group (some a) (some b) = b == a
same_group _ _ = false

abbrev pub is_rule : ℕ → Rule → Bool
is_rule rule_id r = r.id == rule_id

abbrev pub excluded : Option ℕ → Rule → Bool
excluded none r = false
excluded (some rule_id) r = is_rule rule_id r

unfoldable pub shares_day : ℕ → ℕ → Bool
unfolding bit_and
shares_day a b = not (bit_and integer_bits a b == 0)

-- The WHERE clause of the query.
unfoldable pub conflicts : ScheduleInput → Option ℕ → Rule → Bool
unfolding shares_day
conflicts normalized exclude_id r =
    r.enabled
    && r.time_minutes == normalized.time_minutes
    && shares_day r.days_mask normalized.days_mask
    && same_scope r.scope normalized.scope
    && same_group normalized.group_id r.group_id
    && not (excluded exclude_id r)

unfoldable pub schedule_conflicting_rule : ScheduleInput → Option ℕ → List Rule → Option Rule
unfolding conflicts
schedule_conflicting_rule normalized exclude_id rules =
    if normalized.enabled then first_row (conflicts normalized exclude_id) rules else none

unfoldable pub get_schedule_rule : ℕ → List Rule → Option Rule
get_schedule_rule rule_id rules = first_row (is_rule rule_id) rules

abbrev pub new_rule : ℕ → ScheduleInput → ℕ → Rule
new_rule rule_id normalized now = record {
  id = rule_id;
  enabled = normalized.enabled;
  action = normalized.action;
  time_minutes = normalized.time_minutes;
  days_mask = normalized.days_mask;
  scope = normalized.scope;
  group_id = normalized.group_id;
  comment = normalized.comment;
  effective_from = now;
  last_run_key = none;
  created_at = now;
  updated_at = now;
}

unfoldable pub create_schedule_rule : ScheduleInput → ℕ → RuleTable → Option Rule × RuleTable
unfolding get_schedule_rule
create_schedule_rule normalized now t =
    let rules = t.rules ++ new_rule t.next_rule normalized now ∷ [] in
    (get_schedule_rule t.next_rule rules, record { rules = rules; next_rule = t.next_rule + 1 })

abbrev pub changed_rule : ScheduleInput → ℕ → ℕ → Rule → Rule
changed_rule normalized effective_from now r = record r {
  enabled = normalized.enabled;
  action = normalized.action;
  time_minutes = normalized.time_minutes;
  days_mask = normalized.days_mask;
  scope = normalized.scope;
  group_id = normalized.group_id;
  comment = normalized.comment;
  effective_from = effective_from;
  last_run_key = none;
  updated_at = now;
}

unfoldable pub update_schedule_rule :
    ℕ → ScheduleInput → ℕ → ℕ → RuleTable → Option Rule × RuleTable
unfolding get_schedule_rule
update_schedule_rule rule_id normalized effective_from now t =
    let rules =
      update_rows (is_rule rule_id) (changed_rule normalized effective_from now) t.rules in
    (get_schedule_rule rule_id rules, record t { rules = rules })

abbrev pub switched_rule : Bool → ℕ → ℕ → Rule → Rule
switched_rule enabled effective_from now r = record r {
  enabled = enabled;
  effective_from = effective_from;
  last_run_key = none;
  updated_at = now;
}

unfoldable pub set_schedule_rule_enabled : ℕ → Bool → ℕ → ℕ → RuleTable → Option Rule × RuleTable
unfolding get_schedule_rule
set_schedule_rule_enabled rule_id enabled effective_from now t =
    let rules = update_rows (is_rule rule_id) (switched_rule enabled effective_from now) t.rules in
    (get_schedule_rule rule_id rules, record t { rules = rules })

delete_found : ℕ → Option Rule → RuleTable → Option Rule × RuleTable
delete_found rule_id none t = (none, t)
delete_found rule_id (some current) t =
    (some current, record t { rules = delete_rows (is_rule rule_id) t.rules })

unfoldable pub delete_schedule_rule : ℕ → RuleTable → Option Rule × RuleTable
unfolding get_schedule_rule delete_found
delete_schedule_rule rule_id t = delete_found rule_id (get_schedule_rule rule_id t.rules) t

abbrev pub of_group : ℕ → Rule → Bool
of_group group_id r = same_scope r.scope group && same_group (some group_id) r.group_id

-- The rules that stand in the way of deleting a group.
unfoldable pub count_group_schedule_rules : ℕ → List Rule → ℕ
count_group_schedule_rules group_id rules = count_rows (of_group group_id) rules

-- The columns of a rule, with `enabled` set, as the toggle handler checks them.
abbrev pub switched : Bool → Rule → ScheduleInput
switched enabled r = record {
  enabled = enabled;
  action = r.action;
  time_minutes = r.time_minutes;
  days_mask = r.days_mask;
  scope = r.scope;
  group_id = r.group_id;
  comment = r.comment;
}
