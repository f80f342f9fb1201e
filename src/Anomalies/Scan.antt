-- ===== src/Anomalies/Scan.antt =====
-- The anomaly scan (app/anomalies/service.py), with the tests of app/anomalies/policy.py: for each
-- miner, one transition for each of the three conditions. Temperatures are only compared, so their
-- type and order are parameters, as is the text of a message.
pub mod Samples
pub mod Suppression
use open_asicmanager.Prelude.{
  ℕ, ◌+◌, String, Bool, true, false, not, ◌&&◌, ◌||◌, Option, none, some, List, [], ◌∷◌, ◌++◌, ◌==◌,
  ltb, leb, if◌then◌else◌, get_or, is_some,
}
use open_asicmanager.Fleet.{Miner, MinerState, state_eq, offline, unknown, Action, reboot}
use open_asicmanager.Maintenance.{Snapshot}
use open_asicmanager.Anomalies.Issues.{
  IssueCode, offline_issue, overheat_issue, schedule_mismatch, Severity, info, warning, critical,
  IssueState, active_issue_exists, Observation, Transitioned, transition_anomaly_condition,
}

pub data ScanMessage (Temp : Type 0) : Type 0 where
  disabled is_offline no_temperature not_applicable : ScanMessage Temp
  reachable : MinerState → ScanMessage Temp
  temperature : Temp → ScanMessage Temp
  expected : Option MinerState → MinerState → ScanMessage Temp

-- state == "OFFLINE" and active_control_action != "reboot"
abbrev pub is_reboot : Option Action → Bool
is_reboot (some reboot) = true
is_reboot _ = false

unfoldable pub offline_observed : MinerState → Option Action → Bool
offline_observed state active_control_action =
    state_eq state offline && not (is_reboot active_control_action)

unfoldable pub schedule_applicable : Bool → Option MinerState → Bool → Bool → Bool → Bool
schedule_applicable scheduler_enabled desired schedule_enabled override_active has_control_job =
    scheduler_enabled
    && is_some desired
    && schedule_enabled
    && not override_active
    && not has_control_job

-- The events ISSUE_OPEN and ISSUE_RESOLVED.
pub data Alert : Type 0 where
  issue_open issue_resolved : IssueCode → ℕ → Alert

pub record AnomalyState : Type 0 where
  pub tables : IssueState
  pub log : List Alert

abbrev alerts : Observation → Transitioned → List Alert
alerts o t =
    (if t.opened then issue_open o.code o.miner.id ∷ [] else [])
    ++ (if t.resolved_issue then issue_resolved o.code o.miner.id ∷ [] else [])

unfoldable pub set_anomaly_condition : Observation → AnomalyState → AnomalyState
set_anomaly_condition o s =
    let t = transition_anomaly_condition o s.tables in
    record { tables = t.after; log = s.log ++ alerts o t }

abbrev pub has_member : ℕ → List ℕ → Bool
has_member m [] = false
has_member m (x ∷ xs) = x == m || has_member m xs

unfoldable pub maintenance_active : Snapshot → ℕ → Bool
maintenance_active maintenance m = maintenance.farm_active || has_member m maintenance.miner_ids

module _ (Temp : Type 0) (at_least : Temp → Temp → Bool) (text : ScanMessage Temp → String) where
  -- The effective policy of a miner.
  pub record Policy : Type 0 where
    pub offline_grace_seconds : ℕ
    pub hot_temp_c : Temp
    pub hot_clear_c : Temp
    pub hot_grace_seconds : ℕ
    pub schedule_grace_seconds : ℕ

  -- A row of anomaly_scan_snapshot, with the policy and the desired state that the scan looks up for
  -- it, and the clock at its three transitions.
  pub record ScanRow : Type 0 where
    pub miner : Miner
    pub temp : Option Temp
    pub has_control_job : Bool
    pub active_control_action : Option Action
    pub policy : Policy
    pub desired : Option MinerState
    pub offline_at : ℕ
    pub hot_at : ℕ
    pub schedule_at : ℕ

  unfoldable pub overheat_observed : Option Temp → Bool → Temp → Temp → Bool
  overheat_observed none issue_active hot_temp_c hot_clear_c = false
  overheat_observed (some t) issue_active hot_temp_c hot_clear_c =
      at_least t (if issue_active then hot_clear_c else hot_temp_c)

  abbrev state_of : ScanRow → MinerState
  state_of r = get_or r.miner.last_state unknown

  abbrev disabled_observation : ScanRow → IssueCode → ℕ → Bool → Observation
  disabled_observation r code now suppress = record {
    miner = r.miner;
    code = code;
    severity = info;
    observed = false;
    grace_seconds = 0;
    message = text disabled;
    now = now;
    suppress_new = suppress;
  }

  abbrev offline_observation : ScanRow → Bool → Observation
  offline_observation r suppress =
      let observed = offline_observed (state_of r) r.active_control_action in
      record {
        miner = r.miner;
        code = offline_issue;
        severity = critical;
        observed = observed;
        grace_seconds = r.policy.offline_grace_seconds;
        message = text (if observed then is_offline else reachable (state_of r));
        now = r.offline_at;
        suppress_new = suppress;
      }

  temp_message : Option Temp → ScanMessage Temp
  temp_message none = no_temperature
  temp_message (some t) = temperature t

  -- `hot_active` is whether the miner has an active OVERHEAT issue when its temperature is judged.
  hot_observation : ScanRow → Bool → Bool → Observation
  unfolding temp_message overheat_observed
  hot_observation r hot_active suppress = record {
    miner = r.miner;
    code = overheat_issue;
    severity = critical;
    observed = overheat_observed r.temp hot_active r.policy.hot_temp_c r.policy.hot_clear_c;
    grace_seconds = r.policy.hot_grace_seconds;
    message = text (temp_message r.temp);
    now = r.hot_at;
    suppress_new = suppress;
  }

  -- state != desired
  differs : MinerState → Option MinerState → Bool
  differs state none = true
  differs state (some d) = not (state_eq state d)

  mismatch_observation : ℕ → Bool → ScanRow → Bool → Observation
  unfolding differs
  mismatch_observation now scheduler_enabled r suppress =
      let applicable =
        schedule_applicable scheduler_enabled r.desired r.miner.schedule_enabled
          (ltb now (get_or r.miner.manual_override_until 0)) r.has_control_job in
      record {
        miner = r.miner;
        code = schedule_mismatch;
        severity = warning;
        observed = applicable && differs (state_of r) r.desired;
        grace_seconds = r.policy.schedule_grace_seconds;
        message = text (if applicable then expected r.desired (state_of r) else not_applicable);
        now = r.schedule_at;
        suppress_new = suppress;
      }

  scan_disabled : ScanRow → Bool → AnomalyState → AnomalyState
  scan_disabled r suppress s =
      set_anomaly_condition (disabled_observation r schedule_mismatch r.schedule_at suppress) (
        set_anomaly_condition (disabled_observation r overheat_issue r.hot_at suppress)
          (set_anomaly_condition (disabled_observation r offline_issue r.offline_at suppress) s))

  scan_enabled : ℕ → Bool → ScanRow → Bool → AnomalyState → AnomalyState
  unfolding hot_observation mismatch_observation
  scan_enabled now scheduler_enabled r suppress s =
      let t = set_anomaly_condition (offline_observation r suppress) s in
      let hot_active = active_issue_exists r.miner.id overheat_issue t.tables in
      set_anomaly_condition (mismatch_observation now scheduler_enabled r suppress)
        (set_anomaly_condition (hot_observation r hot_active suppress) t)

  -- The body of the loop.
  unfoldable pub scan_row : ℕ → Bool → Snapshot → ScanRow → AnomalyState → AnomalyState
  unfolding scan_disabled scan_enabled
  scan_row now scheduler_enabled maintenance r s =
      let suppress = maintenance_active maintenance r.miner.id in
      let checked = scan_enabled now scheduler_enabled r suppress s in
      let quiet = scan_disabled r suppress s in if r.miner.enabled then checked else quiet

  unfoldable pub anomaly_scan : ℕ → Bool → Snapshot → List ScanRow → AnomalyState → AnomalyState
  unfolding scan_row
  anomaly_scan now scheduler_enabled maintenance [] s = s
  anomaly_scan now scheduler_enabled maintenance (r ∷ rs) s =
      anomaly_scan now scheduler_enabled maintenance rs
        (scan_row now scheduler_enabled maintenance r s)
