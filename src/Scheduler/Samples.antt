-- ===== src/Scheduler/Samples.antt =====
-- The scheduler (app/scheduler) on a concrete fleet and two rules: the theorems applied, and runs.
mod Requests
use open_asicmanager.Prelude.{
  ℕ, ◌+◌, ◌*◌, ◌/◌, ◌≡◌, refl, arith, true, false, none, some, [], ◌∷◌, All, count_rows, select,
}
use open_asicmanager.Fleet.{Miner, awesome, paused, pause, resume, supported}
use open_asicmanager.Control.Jobs.Invariant.{WellFormed}
use open_asicmanager.Control.Queue.{QueueRuntime}
use open_asicmanager.Scheduler.{
  Local, Rule, farm, group, before, selects, schedule_rule_next_run, rule_last_occurrence,
  scope_winner, effective_schedule_details, schedule_action_state,
}
use open_asicmanager.Scheduler.Occurrences.{IsNext, schedule_rule_next_run-IsNext}
use open_asicmanager.Scheduler.LastRun.{IsLast, IsMonotone, rule_last_occurrence-IsLast}
use open_asicmanager.Scheduler.Winners.{Wins, scope_winner-Wins}
use open_asicmanager.Scheduler.Iteration.{SchedulerState, pass_over, scheduler_iteration}
use open_asicmanager.Scheduler.Iteration.Commands.{
  Justified, scheduler_iteration-Justified, scheduler_iteration-WellFormed,
}

-- Every day at 08:00 the farm mines,
abbrev morning : Rule
morning = record {
  id = 1;
  enabled = true;
  action = resume;
  time_minutes = 480;
  days_mask = 127;
  scope = farm;
  group_id = none;
  comment = "";
  effective_from = 0;
  last_run_key = none;
  created_at = 100;
  updated_at = 100;
}

-- and from Monday to Friday at 18:00 the group 3 pauses.
abbrev evening : Rule
evening = record {
  id = 2;
  enabled = true;
  action = pause;
  time_minutes = 1080;
  days_mask = 31;
  scope = group;
  group_id = some 3;
  comment = "";
  effective_from = 0;
  last_run_key = none;
  created_at = 100;
  updated_at = 100;
}

-- A zone at UTC.
abbrev epoch_seconds : Local → ℕ
epoch_seconds c = c.day * 86400 + c.ticks / 1000000

monotone : IsMonotone epoch_seconds
monotone a b t h = omega arith

-- Noon of a Monday.
abbrev noon : Local
noon = record { day = 8; ticks = 43200000000 }

abbrev rig : Miner
rig = record {
  id = 7;
  name = "rig-7";
  ip = "10.0.0.7";
  driver = awesome;
  enabled = true;
  schedule_enabled = true;
  group_id = none;
  manual_override_until = none;
  last_state = some paused;
  last_seen = some 734380;
  last_error = none;
  last_action = none;
  last_action_at = none;
}

abbrev state : SchedulerState
state = record {
  rules = morning ∷ evening ∷ [];
  seen_log = [];
  control = record {
    miners = rig ∷ [];
    jobs = [];
    next_job = 1;
    log = [];
    submitted = [];
    issued = [];
  };
  calls = [];
}

abbrev runtime : QueueRuntime
runtime = record { audit_source = λ source. source; next_transition = λ miner_id. none }

schedule_rule_next_run-IsNext_example : IsNext evening noon (schedule_rule_next_run evening noon)
schedule_rule_next_run-IsNext_example = (schedule_rule_next_run-IsNext evening noon).0 refl

rule_last_occurrence-IsLast_example :
    IsLast epoch_seconds evening noon (rule_last_occurrence epoch_seconds evening noon)
rule_last_occurrence-IsLast_example =
    rule_last_occurrence-IsLast epoch_seconds evening noon monotone

scope_winner-Wins_example :
    Wins
      (λ r. rule_last_occurrence epoch_seconds r noon)
      (morning ∷ evening ∷ [])
      (scope_winner epoch_seconds noon none (morning ∷ evening ∷ []))
scope_winner-Wins_example = scope_winner-Wins epoch_seconds noon (morning ∷ evening ∷ [])

scheduler_iteration-Justified_example :
    All
      (Justified
        (pass_over epoch_seconds noon (epoch_seconds noon) runtime state.rules)
        state.control.miners)
      (scheduler_iteration true epoch_seconds noon runtime state).calls
    × (scheduler_iteration false epoch_seconds noon runtime state ≡ state)
scheduler_iteration-Justified_example =
    scheduler_iteration-Justified epoch_seconds noon runtime state refl

state-WellFormed : WellFormed state.control
unfolding count_rows
state-WellFormed = record {
  one_active = λ m. omega arith;
  distinct_ids = λ i. omega arith;
  fresh_id = tt;
}

scheduler_iteration-WellFormed_example :
    WellFormed (scheduler_iteration true epoch_seconds noon runtime state).control
scheduler_iteration-WellFormed_example =
    scheduler_iteration-WellFormed true epoch_seconds noon runtime state state-WellFormed

-- On Monday at noon the group's next pause is the same day,
next_run : schedule_rule_next_run evening noon ≡ some (record { day = 8; ticks = 64800000000 })
unfolding schedule_rule_next_run selects before
next_run = refl

-- its last one was on Friday,
last_run :
    rule_last_occurrence epoch_seconds evening noon ≡ some (record { day = 5; ticks = 64800000000 })
unfolding rule_last_occurrence selects before
last_run = refl

-- and the rig, outside of the group, is resumed.
rig_resumed : (scheduler_iteration true epoch_seconds noon runtime state).calls ≡ (7, resume) ∷ []
unfolding scheduler_iteration select supported effective_schedule_details scope_winner
    rule_last_occurrence selects before schedule_action_state
rig_resumed = refl
