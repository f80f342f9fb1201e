-- ===== src/Anomalies/Samples.antt =====
-- Transitions of app/anomalies/repository.py on a concrete table: a rig that is offline past its
-- grace period, the theorems applied, and runs.
use open_asicmanager.Prelude.{
  ℕ, ◌≡◌, refl, arith, true, false, none, some, [], ◌∷◌, count_rows, first_row, last_row,
}
use open_asicmanager.Fleet.{Miner, awesome, offline}
use open_asicmanager.Anomalies.Issues.{
  IssueState, offline_issue, code_eq, critical, Observation, transition_anomaly_condition,
  active_issue, candidate, set_issue_acknowledgement, clear_issue_acknowledgement,
}
use open_asicmanager.Anomalies.Issues.Invariant.{WellFormed, transition-WellFormed}
use open_asicmanager.Anomalies.Issues.Condition.{alarmed, view}
use open_asicmanager.Anomalies.Issues.Lifecycle.{transition_refines}
use open_asicmanager.Anomalies.Issues.Alerts.{transition-Reports, acknowledgement_keeps-view}

abbrev rig : Miner
rig = record {
  id = 7;
  name = "rig-7";
  ip = "10.0.0.7";
  driver = awesome;
  enabled = true;
  schedule_enabled = true;
  group_id = none;
  manual_override_until = none;
  last_state = some offline;
  last_seen = some 1000;
  last_error = none;
  last_action = none;
  last_action_at = none;
}

-- Offline since 1000, with a grace period of 120 seconds.
abbrev waiting_state : IssueState
waiting_state = record {
  issues = [];
  next_issue = 1;
  candidates =
      record { miner_id = 7; code = offline_issue; since_ts = 1000; last_seen_ts = 1060 } ∷ [];
}

abbrev seen_at : ℕ → Observation
seen_at now = record {
  miner = rig;
  code = offline_issue;
  severity = critical;
  observed = true;
  grace_seconds = 120;
  message = "offline";
  now = now;
  suppress_new = false;
}

waiting_state-WellFormed : WellFormed waiting_state
unfolding count_rows
waiting_state-WellFormed = record {
  one_active = λ m c. omega arith;
  distinct_ids = λ i. omega arith;
  fresh_id = tt;
}

transition-WellFormed_example :
    WellFormed (transition_anomaly_condition (seen_at 1120) waiting_state).after
transition-WellFormed_example =
    transition-WellFormed (seen_at 1120) waiting_state waiting_state-WellFormed

transition_refines_example :
    view 7 offline_issue (transition_anomaly_condition (seen_at 1120) waiting_state).after
    ≡ alarmed 1 1000
unfolding code_eq view active_issue last_row candidate first_row
transition_refines_example =
    transition_refines (seen_at 1120) waiting_state 7 offline_issue waiting_state-WellFormed

transition-Reports_example :
    ((transition_anomaly_condition (seen_at 1120) waiting_state).opened ≡ true)
    × ((transition_anomaly_condition (seen_at 1120) waiting_state).resolved_issue ≡ false)
unfolding code_eq view active_issue last_row candidate first_row transition_anomaly_condition
transition-Reports_example =
    transition-Reports (seen_at 1120) waiting_state waiting_state-WellFormed

-- One second earlier the condition is still pending.
too_early : (transition_anomaly_condition (seen_at 1119) waiting_state).opened ≡ false
unfolding transition_anomaly_condition last_row first_row code_eq
too_early = refl

abbrev open_state : IssueState
open_state = (transition_anomaly_condition (seen_at 1120) waiting_state).after

acknowledgement_keeps-view_example :
    (view 7 offline_issue (set_issue_acknowledgement 1 "ops" none 1200 open_state).1
      ≡ view 7 offline_issue open_state)
    × (view 7 offline_issue (clear_issue_acknowledgement 1 open_state).1
        ≡ view 7 offline_issue open_state)
acknowledgement_keeps-view_example =
    acknowledgement_keeps-view 1 "ops" none 1200 open_state 7 offline_issue
