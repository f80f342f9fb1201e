-- ===== src/Scheduler/Iteration.antt =====
-- One pass of the scheduler (app/scheduler/service.py): for each miner under the scheduler, mark the
-- rule that decides as seen, and ask for a command when the miner is not in the state that is wanted.
pub mod Commands
use open_asicmanager.Prelude.{
  ℕ, ◌+◌, Bool, true, false, not, ◌&&◌, ◌||◌, Option, none, some, List, [], ◌∷◌, ◌++◌, ◌==◌, ltb,
  leb, if◌then◌else◌, get_or, select, update_rows, count_rows,
}
use open_asicmanager.Fleet.{
  Miner, MinerState, mining, paused, starting, idle, unknown, Action, pause, resume, supported,
}
use open_asicmanager.Control.{ControlState}
use open_asicmanager.Control.Queue.{QueueRuntime, queue_control}
use open_asicmanager.Scheduler.{Local, Rule, Winner, Details, effective_schedule_details}

-- SELECT * FROM miners WHERE enabled=1 AND schedule_enabled=1 AND driver IN (…)
abbrev pub schedulable : Miner → Bool
schedulable m = m.enabled && m.schedule_enabled && supported m.driver

unfoldable pub list_schedulable_miners : List Miner → List Miner
list_schedulable_miners miners = select schedulable miners

-- The rules with their run keys, the SCHEDULE_RULE_ACTIVE events, the control pipeline, and the calls of
-- queue_control that were made, in order.
pub record SchedulerState : Type 0 where
  pub rules : List Rule
  pub seen_log : List Winner
  pub control : ControlState
  pub calls : List (ℕ × Action)

abbrev pub same_local : Local → Local → Bool
same_local a b = a.day == b.day && a.ticks == b.ticks

-- COALESCE(last_run_key, '') <> ?
abbrev pub other_key : Local → Option Local → Bool
other_key key none = true
other_key key (some k) = not (same_local k key)

abbrev pub unseen : ℕ → Local → Rule → Bool
unseen rule_id key r = r.id == rule_id && other_key key r.last_run_key

-- The occurrence stands for the run key, its text to the minute.
unfoldable pub mark_schedule_rule_seen : ℕ → Local → List Rule → Bool × List Rule
mark_schedule_rule_seen rule_id key rules = (
  not (count_rows (unseen rule_id key) rules == 0),
  update_rows (unseen rule_id key) (λ r. record r { last_run_key = some key }) rules,
)

unfoldable pub schedule_mark_rule_seen : Option Winner → SchedulerState → SchedulerState
unfolding mark_schedule_rule_seen
schedule_mark_rule_seen none s = s
schedule_mark_rule_seen (some w) s =
    let (changed, rules) = mark_schedule_rule_seen w.rule.id w.occurrence s.rules in
    record s { rules = rules; seen_log = if changed then s.seen_log ++ w ∷ [] else s.seen_log }

abbrev pub control_cooldown : ℕ
control_cooldown = 30

-- The action for a target and the state the miner is in.
unfoldable pub action_for : MinerState → MinerState → Option Action
action_for mining paused = some resume
action_for mining idle = some resume
action_for paused mining = some pause
action_for paused starting = some pause
action_for paused idle = some pause
action_for _ _ = none

-- override_until <= now, last seen at most 60 seconds ago, no action in the last 30 seconds
abbrev pub may_act : ℕ → Miner → Bool
may_act now_epoch m =
    leb (get_or m.manual_override_until 0) now_epoch
    && leb now_epoch (get_or m.last_seen 0 + 60)
    && leb (get_or m.last_action_at 0 + control_cooldown) now_epoch

unfoldable pub scheduler_action : ℕ → Option MinerState → Miner → Option Action
unfolding action_for
scheduler_action now_epoch none m = none
scheduler_action now_epoch (some target) m =
    if may_act now_epoch m then action_for target (get_or m.last_state unknown) else none

-- What a pass reads: the clocks, the runtime of the queue, and the enabled rules at its start.
pub record Pass : Type 0 where
  pub timestamp : Local → ℕ
  pub now : Local
  pub now_epoch : ℕ
  pub queue : QueueRuntime
  pub enabled_rules : List Rule

abbrev pub details_of : Pass → Miner → Details
details_of p m = effective_schedule_details p.timestamp m.group_id p.enabled_rules p.now

-- `except Exception: pass`: what queue_control raises is dropped.
request : Pass → ℕ → Option Action → SchedulerState → SchedulerState
request p miner_id none s = s
request p miner_id (some action) s = record s {
  control = (queue_control p.queue p.now_epoch miner_id action false s.control).1;
  calls = s.calls ++ (miner_id, action) ∷ [];
}

-- The body of the loop.
unfoldable pub visit : Pass → Miner → SchedulerState → SchedulerState
unfolding request schedule_mark_rule_seen scheduler_action
visit p m s =
    let d = details_of p m in
    request p m.id (scheduler_action p.now_epoch d.desired_state m)
      (schedule_mark_rule_seen d.rule s)

unfoldable pub visit_all : Pass → List Miner → SchedulerState → SchedulerState
unfolding visit
visit_all p [] s = s
visit_all p (m ∷ ms) s = visit_all p ms (visit p m s)

abbrev pub is_enabled : Rule → Bool
is_enabled r = r.enabled

abbrev pub pass_over : (Local → ℕ) → Local → ℕ → QueueRuntime → List Rule → Pass
pass_over timestamp now now_epoch queue rules = record {
  timestamp = timestamp;
  now = now;
  now_epoch = now_epoch;
  queue = queue;
  enabled_rules = select is_enabled rules;
}

-- `scheduler_enabled` is the setting of that name; the miners are read once, at the start.
unfoldable pub scheduler_iteration :
    Bool → (Local → ℕ) → Local → QueueRuntime → SchedulerState → SchedulerState
unfolding visit_all list_schedulable_miners
scheduler_iteration scheduler_enabled timestamp now queue s =
    let p = pass_over timestamp now (timestamp now) queue s.rules in
    let after = visit_all p (list_schedulable_miners s.control.miners) s in
    if scheduler_enabled then after else s
