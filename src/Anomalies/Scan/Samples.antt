-- ===== src/Anomalies/Scan/Samples.antt =====
-- A scan (app/anomalies/service.py) of a rig that has been offline for long, under the maintenance of
-- its group and without it.
use open_asicmanager.Prelude.{
  ℕ, ◌≡◌, refl, arith, inl, inr, String, Bool, true, false, none, some, [], ◌∷◌, leb, count_rows,
  first_row, last_row,
}
use open_asicmanager.Fleet.{Miner, awesome, offline, state_eq}
use open_asicmanager.Maintenance.{Window, Member, group_scope, active_maintenance_snapshot}
use open_asicmanager.Maintenance.Requests.{maintenance_status}
use open_asicmanager.Anomalies.Issues.{offline_issue, code_eq, transition_anomaly_condition}
use open_asicmanager.Anomalies.Issues.Invariant.{WellFormed}
use open_asicmanager.Anomalies.Issues.Condition.{is_alarmed, view}
use open_asicmanager.Anomalies.Scan.{
  ScanMessage, ScanRow, AnomalyState, issue_open, anomaly_scan, set_anomaly_condition,
  maintenance_active, offline_observed, schedule_applicable,
}
use open_asicmanager.Anomalies.Scan.Suppression.{maintenance_holds_back}

abbrev rig : Miner
rig = record {
  id = 7;
  name = "rig-7";
  ip = "10.0.0.7";
  driver = awesome;
  enabled = true;
  schedule_enabled = true;
  group_id = some 3;
  manual_override_until = none;
  last_state = some offline;
  last_seen = some 1000;
  last_error = none;
  last_action = none;
  last_action_at = none;
}

abbrev group_window : Window
group_window = record {
  id = 1;
  scope = group_scope;
  miner_id = none;
  group_id = some 3;
  group_name = some "hall A";
  starts_at = 1000;
  ends_at = 5000;
  note = none;
  created_by = "ops";
  created_at = 1000;
  updated_by = none;
  updated_at = none;
  ended_at = none;
  ended_by = none;
}

abbrev rig_member : Member
rig_member = record { window_id = 1; miner_id = 7; miner_name = "rig-7"; miner_ip = "10.0.0.7" }

abbrev text : ScanMessage ℕ → String
text m = "condition"

abbrev at_least : ℕ → ℕ → Bool
at_least t threshold = leb threshold t

abbrev row : ScanRow ℕ at_least text
row = record {
  miner = rig;
  temp = none;
  has_control_job = false;
  active_control_action = none;
  policy = record {
    offline_grace_seconds = 180;
    hot_temp_c = 85;
    hot_clear_c = 82;
    hot_grace_seconds = 180;
    schedule_grace_seconds = 600;
  };
  desired = none;
  offline_at = 2000;
  hot_at = 2000;
  schedule_at = 2000;
}

-- Offline since 1000.
abbrev waiting_state : AnomalyState
waiting_state = record {
  tables = record {
    issues = [];
    next_issue = 1;
    candidates =
        record { miner_id = 7; code = offline_issue; since_ts = 1000; last_seen_ts = 1970 } ∷ [];
  };
  log = [];
}

waiting_state-WellFormed : WellFormed waiting_state.tables
unfolding count_rows
waiting_state-WellFormed = record {
  one_active = λ m c. omega arith;
  distinct_ids = λ i. omega arith;
  fresh_id = tt;
}

maintenance_holds_back_example :
    let t =
      anomaly_scan ℕ at_least text 2000 true
        (active_maintenance_snapshot 2000 (group_window ∷ []) (rig_member ∷ []))
        (row ∷ [])
        waiting_state in
    WellFormed t.tables
    × (is_alarmed (view 7 offline_issue t.tables) ≡ true
        → is_alarmed (view 7 offline_issue waiting_state.tables) ≡ true)
unfolding maintenance_status
maintenance_holds_back_example =
    maintenance_holds_back ℕ at_least text 2000 true (group_window ∷ []) (rig_member ∷ [])
      (row ∷ []) 7 offline_issue waiting_state waiting_state-WellFormed
      (inr (inr (rig_member, (inl refl, (refl, (group_window, (inl refl, (refl, (refl, refl)))))))))

-- Without maintenance the issue is opened.
opened :
    (anomaly_scan ℕ at_least text 2000 true
      (record { farm_active = false; miner_ids = [] })
      (row ∷ [])
      waiting_state).log
    ≡ issue_open offline_issue 7 ∷ []
unfolding anomaly_scan set_anomaly_condition transition_anomaly_condition offline_observed state_eq
    last_row maintenance_active first_row code_eq schedule_applicable
opened = refl
