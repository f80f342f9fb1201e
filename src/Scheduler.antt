-- ===== src/Scheduler.antt =====
-- Schedule rules (app/scheduler/policy.py and app/scheduler/repository.py): when a rule acts next, when
-- it acted last, and what the rules want of a miner. A local date and time is the day's ordinal and
-- the time in the day in microseconds: the program compares times of one zone only, which Python
-- compares by their wall clock.
pub mod Input
pub mod Table
pub mod Api
pub mod Iteration
pub mod Occurrences
pub mod LastRun
pub mod Winners
pub mod Samples
use open_asicmanager.Prelude.{
  ℕ, zero, suc, ◌+◌, ◌-◌, ◌*◌, ◌/◌, ◌%◌, ◌^◌, String, Bool, true, false, not, ◌&&◌, ◌||◌, Option,
  none, some, List, [], ◌∷◌, ◌==◌, ltb, leb, if◌then◌else◌, select,
}
use open_asicmanager.Fleet.{Miner, Action, pause, resume, MinerState, mining, paused, reboot}

-- `day` is `date.toordinal()`, `ticks` the microseconds since midnight.
pub record Local : Type 0 where
  pub day : ℕ
  pub ticks : ℕ

-- a < b
unfoldable pub before : Local → Local → Bool
before a b = ltb a.day b.day || a.day == b.day && ltb a.ticks b.ticks

abbrev pub minute_ticks : ℕ
minute_ticks = 60000000

pub data RuleScope : Type 0 where
  farm group : RuleScope

-- schedule_rules; `effective_from` is 0 for NULL.
pub record Rule : Type 0 where
  pub id : ℕ
  pub enabled : Bool
  pub action : Action
  pub time_minutes : ℕ
  pub days_mask : ℕ
  pub scope : RuleScope
  pub group_id : Option ℕ
  pub comment : String
  pub effective_from : ℕ
  pub last_run_key : Option Local
  pub created_at : ℕ
  pub updated_at : ℕ

-- `date.weekday()`
abbrev pub weekday : ℕ → ℕ
weekday day = (day + 6) % 7

-- mask & (1 << day.weekday())
unfoldable pub selects : ℕ → ℕ → Bool
selects mask day = mask / 2 ^ weekday day % 2 == 1

-- The rule's time on a day.
abbrev pub on_day : Rule → ℕ → Local
on_day rule day = record { day = day; ticks = rule.time_minutes * minute_ticks }

-- The first offset of a range that passes: `left` numbers of the range are left, from `offset` on.
unfoldable pub first_offset : (ℕ → Bool) → ℕ → ℕ → Option ℕ
first_offset p zero offset = none
first_offset p (suc left) offset =
    let rest = first_offset p left (offset + 1) in if p offset then some offset else rest

-- The occurrence on the day of an offset.
abbrev pub at_offset : Rule → (ℕ → ℕ) → Option ℕ → Option Local
at_offset rule day none = none
at_offset rule day (some offset) = some (on_day rule (day offset))

-- The body of the loop of schedule_rule_next_run: selected, and candidate > now.
unfoldable pub next_test : Rule → Local → ℕ → Bool
next_test rule now offset =
    selects rule.days_mask (now.day + offset) && before now (on_day rule (now.day + offset))

unfoldable pub schedule_rule_next_run : Rule → Local → Option Local
unfolding first_offset next_test
schedule_rule_next_run rule now =
    let found =
      at_offset rule (λ offset. now.day + offset) (first_offset (next_test rule now) 9 0) in
    if rule.enabled then found else none

-- if effective_from and int(occurrence.timestamp()) < effective_from: continue
abbrev pub is_effective : (Local → ℕ) → Rule → Local → Bool
is_effective timestamp rule c = rule.effective_from == 0 || leb rule.effective_from (timestamp c)

-- The body of the loop of _rule_last_occurrence.
unfoldable pub last_test : (Local → ℕ) → Rule → Local → ℕ → Bool
last_test timestamp rule now offset =
    let c = on_day rule (now.day - offset) in
    selects rule.days_mask (now.day - offset) && not (before now c) && is_effective timestamp rule c

unfoldable pub rule_last_occurrence : (Local → ℕ) → Rule → Local → Option Local
unfolding first_offset last_test
rule_last_occurrence timestamp rule now =
    at_offset rule (λ offset. now.day - offset) (first_offset (last_test timestamp rule now) 8 0)

pub record Winner : Type 0 where
  pub rule : Rule
  pub occurrence : Local

-- One pass of the loop of _scope_state_details.
abbrev pub later_winner : Rule → Option Local → Option Winner → Option Winner
later_winner rule none w = w
later_winner rule (some c) none = some record { rule = rule; occurrence = c }
later_winner rule (some c) (some w) =
    if before w.occurrence c then some record { rule = rule; occurrence = c } else some w

unfoldable pub scope_winner : (Local → ℕ) → Local → Option Winner → List Rule → Option Winner
scope_winner timestamp now w [] = w
scope_winner timestamp now w (rule ∷ rules) =
    scope_winner timestamp now (later_winner rule (rule_last_occurrence timestamp rule now) w) rules

-- RESUME and PAUSE are the actions of rules.
unfoldable pub schedule_action_state : Action → Option MinerState
schedule_action_state resume = some mining
schedule_action_state pause = some paused
schedule_action_state reboot = none

abbrev pub winner_state : Option Winner → Option MinerState
winner_state none = none
winner_state (some w) = schedule_action_state w.rule.action

-- min of the candidates, of which some may be missing
unfoldable pub earlier : Option Local → Option Local → Option Local
earlier none b = b
earlier (some a) none = some a
earlier (some a) (some b) = if before b a then some b else some a

unfoldable pub scope_next_transition : Local → List Rule → Option Local
scope_next_transition now [] = none
scope_next_transition now (rule ∷ rules) =
    earlier (schedule_rule_next_run rule now) (scope_next_transition now rules)

abbrev pub is_farm : Rule → Bool
is_farm r = elim r.scope [ farm ↦ true | group ↦ false ]

-- scope is GROUP and the rule's group is the group
abbrev pub is_group : ℕ → Rule → Bool
is_group group_id r = elim r.scope [
  | farm ↦ false
  | group ↦ elim r.group_id [ none ↦ false | some g ↦ g == group_id ]
]

pub record Details : Type 0 where
  pub desired_state : Option MinerState
  pub source_scope : Option RuleScope
  pub rule : Option Winner
  pub next_transition : Option Local

abbrev pub rules_of_group : Option ℕ → List Rule → List Rule
rules_of_group none rules = []
rules_of_group (some group_id) rules = select (is_group group_id) rules

-- A GROUP occurrence decides; without one the FARM layer does.
unfoldable pub layered : Option Winner → Option Winner → Option Local → Option Local → Details
layered (some w) farm_winner group_next farm_next = record {
  desired_state = winner_state (some w);
  source_scope = some group;
  rule = some w;
  next_transition = group_next;
}
layered none none group_next farm_next = record {
  desired_state = none;
  source_scope = none;
  rule = none;
  next_transition = earlier farm_next group_next;
}
layered none (some w) group_next farm_next = record {
  desired_state = winner_state (some w);
  source_scope = some farm;
  rule = some w;
  next_transition = earlier farm_next group_next;
}

unfoldable pub effective_schedule_details : (Local → ℕ) → Option ℕ → List Rule → Local → Details
unfolding layered
effective_schedule_details timestamp group_id rules now =
    let farm_rules = select is_farm rules in
    let group_rules = rules_of_group group_id rules in
    layered (scope_winner timestamp now none group_rules)
      (scope_winner timestamp now none farm_rules) (scope_next_transition now group_rules)
      (scope_next_transition now farm_rules)
