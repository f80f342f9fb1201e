-- ===== src/Scheduler/Api/Keeps.antt =====
-- The handlers of app/api/scheduler.py keep the invariant of schedule_rules.
use open_asicmanager.Prelude.{
  ℕ, ◌≡◌, [], ◌∷◌, subst, refl, Bool, true, false, Option, none, some, List, not, Result, ok,
  raised, Ensures, bind-Ensures, then-Ensures, ensured, arith,
}
use open_asicmanager.Values.{Json}
use open_asicmanager.Groups.{Group}
use open_asicmanager.Scheduler.{Rule}
use open_asicmanager.Scheduler.Input.{InputError, ScheduleInput, schedule_normalize_input}
use open_asicmanager.Scheduler.Input.Bounds.{IsAccepted, schedule_normalize_input-IsAccepted}
use open_asicmanager.Scheduler.Table.{
  RuleTable, switched, schedule_conflicting_rule, get_schedule_rule, create_schedule_rule,
}
use open_asicmanager.Scheduler.Table.Apart.{IsSound}
use open_asicmanager.Scheduler.Table.Sound.{
  create-IsSound, update-IsSound, switched-IsSound, delete-IsSound,
}
use open_asicmanager.Scheduler.Api.{
  ApiError, ApiState, RuleEvent, parsed, or_bad_input, existing, no_conflict,
  validated_schedule_group, create_checks, reply_created, after_create, api_schedule_rule_create,
  update_checks, updated, after_update, new_effective_from, api_schedule_rule_update, enable_checks,
  toggle_checks, after_toggle, api_schedule_rule_toggle, after_delete, api_schedule_rule_delete,
  scheduler_toggle,
}

input-IsAccepted :
    (body : Json) (current : Option Rule) {n : ScheduleInput}
    → or_bad_input (schedule_normalize_input body current) ≡ ok n
    → IsAccepted n
input-IsAccepted body current {n} h =
    by (schedule_normalize_input body current) (schedule_normalize_input-IsAccepted body current) h
  where
    by :
        (r : Result InputError ScheduleInput)
        → Ensures IsAccepted r
        → or_bad_input r ≡ ok n
        → IsAccepted n
    by (ok m) a e = let same : m ≡ n = ground arith in subst IsAccepted same a
    by (raised x) a e = cc

clear_of : (o : Option Rule) → no_conflict o ≡ ok tt → o ≡ none
clear_of none h = refl
clear_of (some r) h = cc

-- An input that passed the checks, against the rules without the one that is changed.
abbrev Passed : Option ℕ → List Rule → ScheduleInput → Type 0
Passed ex rules n = IsAccepted n × (schedule_conflicting_rule n ex rules ≡ none)

create_checks-Passed :
    (json : Option Json) (s : ApiState)
    → Ensures (λ p. Passed none s.table.rules p.0) (create_checks json s)
unfolding create_checks
create_checks-Passed json s = bind-Ensures _ (parsed json) _ (λ body h1.
    bind-Ensures _ (or_bad_input (schedule_normalize_input body none)) _ (λ n h2.
      bind-Ensures _ (validated_schedule_group n s.groups) _ (λ g h3.
        then-Ensures _ (no_conflict (schedule_conflicting_rule n none s.table.rules)) _
          (λ h4. (input-IsAccepted body none h2, clear_of _ h4)))))

create-Keeps :
    (now : ℕ) (s : ApiState) (r : Result ApiError (ScheduleInput × Option Group))
    → Ensures (λ p. Passed none s.table.rules p.0) r
    → IsSound s.table
    → IsSound (after_create now r s).1.table
unfolding after_create
create-Keeps now s (raised e) h w = w
create-Keeps now s (ok (n, g)) h w =
    by (create_schedule_rule n now s.table) (create-IsSound n now s.table h.0 h.1 w)
  where
    by : (o : Option Rule × RuleTable) → IsSound o.1 → IsSound (reply_created n g o s).1.table
    by (none, t) w = w
    by (some r, t) w = w

updated-Keeps :
    (e : RuleEvent) (o : Option Rule × RuleTable) (s : ApiState)
    → IsSound o.1
    → IsSound (updated e o s).1.table
unfolding updated
updated-Keeps e (none, t) s w = w
updated-Keeps e (some r, t) s w = w

update_checks-Passed :
    (rule_id : ℕ) (json : Option Json) (s : ApiState)
    → Ensures (λ p. Passed (some rule_id) s.table.rules p.1) (update_checks rule_id json s)
unfolding update_checks
update_checks-Passed rule_id json s =
    bind-Ensures _ (existing (get_schedule_rule rule_id s.table.rules)) _ (λ current h0.
      bind-Ensures _ (parsed json) _ (λ body h1.
        bind-Ensures _ (or_bad_input (schedule_normalize_input body (some current))) _ (λ n h2.
          bind-Ensures _ (validated_schedule_group n s.groups) _ (λ g h3.
            then-Ensures _ (no_conflict (schedule_conflicting_rule n (some rule_id) s.table.rules))
              _ (λ h4. (input-IsAccepted body (some current) h2, clear_of _ h4))))))

update-Keeps :
    (rule_id now : ℕ) (s : ApiState) (r : Result ApiError (Rule × ScheduleInput × Option Group))
    → Ensures (λ p. Passed (some rule_id) s.table.rules p.1) r
    → IsSound s.table
    → IsSound (after_update rule_id now r s).1.table
unfolding after_update
update-Keeps rule_id now s (raised e) h w = w
update-Keeps rule_id now s (ok (current, n, g)) h w =
    updated-Keeps _ _ s
      (update-IsSound rule_id n (new_effective_from current n now) now s.table h.0 h.1 w)

-- The rule that is toggled, found, and without conflict once it is switched.
abbrev Switchable : ℕ → List Rule → Rule → Type 0
Switchable rule_id rules r =
    (get_schedule_rule rule_id rules ≡ some r)
    × (schedule_conflicting_rule (switched (not r.enabled) r) (some rule_id) rules ≡ none)

enable-Clear :
    (enabled : Bool) (rule_id : ℕ) (r : Rule) (s : ApiState)
    → enable_checks enabled rule_id r s ≡ ok tt
    → schedule_conflicting_rule (switched enabled r) (some rule_id) s.table.rules ≡ none
unfolding enable_checks
enable-Clear false rule_id r s h = unfold schedule_conflicting_rule in refl
enable-Clear true rule_id r s h =
    ensured (λ _. schedule_conflicting_rule (switched true r) (some rule_id) s.table.rules ≡ none) _
      (bind-Ensures _ (validated_schedule_group (switched true r) s.groups) _
        (λ g _. after (schedule_conflicting_rule (switched true r) (some rule_id) s.table.rules)))
      h
  where
    after : (o : Option Rule) → Ensures (λ _. o ≡ none) (no_conflict o)
    after none = refl
    after (some r) = tt

toggle_checks-Switchable :
    (rule_id : ℕ) (s : ApiState)
    → Ensures (Switchable rule_id s.table.rules) (toggle_checks rule_id s)
unfolding toggle_checks
toggle_checks-Switchable rule_id s =
    bind-Ensures _ (existing (get_schedule_rule rule_id s.table.rules)) _ (λ r h0.
      then-Ensures _ (enable_checks (not r.enabled) rule_id r s) _
        (λ h1. (found _ h0, enable-Clear (not r.enabled) rule_id r s h1)))
  where
    found : (o : Option Rule) {r : Rule} → existing o ≡ ok r → o ≡ some r
    found none h = cc
    found (some x) h = ground arith

toggle-Keeps :
    (rule_id now : ℕ) (s : ApiState) (r : Result ApiError Rule)
    → Ensures (Switchable rule_id s.table.rules) r
    → IsSound s.table
    → IsSound (after_toggle rule_id now r s).1.table
unfolding after_toggle
toggle-Keeps rule_id now s (raised e) h w = w
toggle-Keeps rule_id now s (ok r) h w =
    updated-Keeps _ _ s (switched-IsSound rule_id (not r.enabled) _ now s.table h.0 h.1 w)

delete-Keeps :
    (rule_id : ℕ) (o : Option Rule × RuleTable) (s : ApiState)
    → IsSound o.1
    → IsSound (after_delete rule_id o s).1.table
unfolding after_delete
delete-Keeps rule_id (none, t) s w = w
delete-Keeps rule_id (some r, t) s w = w

-- A call of one of the handlers that write, at a time.
pub data ApiCall : Type 0 where
  create : Option Json → ℕ → ApiCall
  update : ℕ → Option Json → ℕ → ApiCall
  toggle : ℕ → ℕ → ApiCall
  delete : ℕ → ApiCall
  switch_scheduler : ApiCall

unfoldable pub call : ApiCall → ApiState → ApiState
call (create json now) s = (api_schedule_rule_create json now s).1
call (update rule_id json now) s = (api_schedule_rule_update rule_id json now s).1
call (toggle rule_id now) s = (api_schedule_rule_toggle rule_id now s).1
call (delete rule_id) s = (api_schedule_rule_delete rule_id s).1
call switch_scheduler s = (scheduler_toggle s).1

call-IsSound : (c : ApiCall) (s : ApiState) → IsSound s.table → IsSound (call c s).table
unfolding call api_schedule_rule_create api_schedule_rule_update api_schedule_rule_toggle
    api_schedule_rule_delete scheduler_toggle
call-IsSound (create json now) s w = create-Keeps now s _ (create_checks-Passed json s) w
call-IsSound (update rule_id json now) s w =
    update-Keeps rule_id now s _ (update_checks-Passed rule_id json s) w
call-IsSound (toggle rule_id now) s w =
    toggle-Keeps rule_id now s _ (toggle_checks-Switchable rule_id s) w
call-IsSound (delete rule_id) s w = delete-Keeps rule_id _ s (delete-IsSound rule_id s.table w)
call-IsSound switch_scheduler s w = w

unfoldable pub calls : List ApiCall → ApiState → ApiState
unfolding call
calls [] s = s
calls (c ∷ cs) s = calls cs (call c s)

-- Whatever requests come in, in any order and with any bodies, on a sound table: the rules keep
-- columns that are in range, ids are used once, and no two enabled rules of one scope and group act at
-- the same minute of a weekday that both select.
pub calls-IsSound :
    (cs : List ApiCall) (s : ApiState) → IsSound s.table → IsSound (calls cs s).table
unfolding calls
calls-IsSound [] s w = w
calls-IsSound (c ∷ cs) s w = calls-IsSound cs (call c s) (call-IsSound c s w)
