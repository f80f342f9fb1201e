-- ===== src/Anomalies/Issues.antt =====
-- The issues table and the anomaly_candidates table (app/anomalies/repository.py): a condition that
-- is observed for long enough opens an issue, and one that is not observed resolves it. The proofs
-- are in the modules below.
pub mod Invariant
pub mod Condition
pub mod OwnKey
pub mod OtherKeys
pub mod Lifecycle
pub mod Alerts
use open_asicmanager.Prelude.{
  ℕ, ◌+◌, String, Bool, true, false, ◌&&◌, Option, none, some, List, [], ◌∷◌, ◌++◌, ◌==◌, leb,
  if◌then◌else◌, is_some, first_row, last_row, update_rows, delete_rows,
}
use open_asicmanager.Fleet.{Miner}

pub data IssueCode : Type 0 where
  offline_issue overheat_issue schedule_mismatch : IssueCode

unfoldable pub code_eq : IssueCode → IssueCode → Bool
code_eq offline_issue offline_issue = true
code_eq overheat_issue overheat_issue = true
code_eq schedule_mismatch schedule_mismatch = true
code_eq _ _ = false

pub data Severity : Type 0 where
  info warning critical : Severity

pub data IssueStatus : Type 0 where
  active resolved : IssueStatus

abbrev pub is_active_status : IssueStatus → Bool
is_active_status active = true
is_active_status resolved = false

pub record Issue : Type 0 where
  pub id : ℕ
  pub miner_id : ℕ
  pub ip : String
  pub name : String
  pub code : IssueCode
  pub severity : Severity
  pub status : IssueStatus
  pub first_seen : ℕ
  pub last_seen : ℕ
  pub resolved_at : Option ℕ
  pub acknowledged_at : Option ℕ
  pub acknowledged_by : Option String
  pub acknowledgement_note : Option String
  pub message : String

pub record Candidate : Type 0 where
  pub miner_id : ℕ
  pub code : IssueCode
  pub since_ts : ℕ
  pub last_seen_ts : ℕ

-- `next_issue` is the id that AUTOINCREMENT gives next.
pub record IssueState : Type 0 where
  pub issues : List Issue
  pub next_issue : ℕ
  pub candidates : List Candidate

-- miner_id=? AND code=? AND status='ACTIVE'
abbrev pub active_for : ℕ → IssueCode → Issue → Bool
active_for miner_id code i =
    i.miner_id == miner_id && code_eq i.code code && is_active_status i.status

-- miner_id=? AND code=?
abbrev pub candidate_for : ℕ → IssueCode → Candidate → Bool
candidate_for miner_id code c = c.miner_id == miner_id && code_eq c.code code

abbrev pub is_issue : ℕ → Issue → Bool
is_issue issue_id i = i.id == issue_id

unfoldable pub active_issue : ℕ → IssueCode → IssueState → Option Issue
active_issue miner_id code s = last_row (active_for miner_id code) s.issues

unfoldable pub candidate : ℕ → IssueCode → IssueState → Option Candidate
candidate miner_id code s = first_row (candidate_for miner_id code) s.candidates

unfoldable pub active_issue_exists : ℕ → IssueCode → IssueState → Bool
unfolding active_issue
active_issue_exists miner_id code s = is_some (active_issue miner_id code s)

-- The arguments of a transition.
pub record Observation : Type 0 where
  pub miner : Miner
  pub code : IssueCode
  pub severity : Severity
  pub observed : Bool
  pub grace_seconds : ℕ
  pub message : String
  pub now : ℕ
  pub suppress_new : Bool

pub record Transitioned : Type 0 where
  pub opened : Bool
  pub resolved_issue : Bool
  pub after : IssueState

abbrev quiet : IssueState → Transitioned
quiet s = record { opened = false; resolved_issue = false; after = s }

delete_candidate : Observation → IssueState → IssueState
delete_candidate o s = record s {
  candidates = delete_rows (candidate_for o.miner.id o.code) s.candidates;
}

abbrev pub seen_again : Observation → Issue → Issue
seen_again o i = record i { last_seen = o.now; message = o.message; severity = o.severity }

pub refresh_issue : Observation → ℕ → IssueState → IssueState
refresh_issue o issue_id s = record s {
  issues = update_rows (is_issue issue_id) (seen_again o) s.issues;
}

abbrev pub new_candidate : Observation → Candidate
new_candidate o = record {
  miner_id = o.miner.id;
  code = o.code;
  since_ts = o.now;
  last_seen_ts = o.now;
}

insert_candidate : Observation → IssueState → IssueState
insert_candidate o s = record s { candidates = s.candidates ++ new_candidate o ∷ [] }

refresh_candidate : Observation → IssueState → IssueState
refresh_candidate o s = record s {
  candidates =
      update_rows (candidate_for o.miner.id o.code) (λ c. record c { last_seen_ts = o.now })
        s.candidates;
}

abbrev pub new_issue : Observation → ℕ → ℕ → Issue
new_issue o issue_id since = record {
  id = issue_id;
  miner_id = o.miner.id;
  ip = o.miner.ip;
  name = o.miner.name;
  code = o.code;
  severity = o.severity;
  status = active;
  first_seen = since;
  last_seen = o.now;
  resolved_at = none;
  acknowledged_at = none;
  acknowledged_by = none;
  acknowledgement_note = none;
  message = o.message;
}

insert_issue : Observation → ℕ → IssueState → IssueState
insert_issue o since s = record s {
  issues = s.issues ++ new_issue o s.next_issue since ∷ [];
  next_issue = s.next_issue + 1;
}

abbrev pub resolve : Observation → Issue → Issue
resolve o i = record i {
  status = resolved;
  last_seen = o.now;
  resolved_at = some o.now;
  message = o.message;
}

resolve_issue : Observation → ℕ → IssueState → IssueState
resolve_issue o issue_id s = record s {
  issues = update_rows (is_issue issue_id) (resolve o) s.issues;
}

-- `if observed:` with no active issue and no maintenance.
observe_candidate : Observation → Option Candidate → IssueState → Transitioned
unfolding insert_candidate refresh_candidate insert_issue delete_candidate
observe_candidate o none s = quiet (insert_candidate o s)
observe_candidate o (some c) s =
    let t = refresh_candidate o s in
    if leb (c.since_ts + o.grace_seconds) o.now
    then record {
      opened = true;
      resolved_issue = false;
      after = delete_candidate o (insert_issue o c.since_ts t);
    }
    else quiet t

-- `if observed:`
pub observe : Observation → Option Issue → Option Candidate → IssueState → Transitioned
unfolding observe_candidate refresh_issue delete_candidate
observe o (some i) c s = quiet (refresh_issue o i.id s)
observe o none c s =
    if o.suppress_new then quiet (delete_candidate o s) else observe_candidate o c s

-- `else:`
pub unobserved : Observation → Option Issue → IssueState → Transitioned
unfolding resolve_issue delete_candidate
unobserved o none s = quiet (delete_candidate o s)
unobserved o (some i) s = record {
  opened = false;
  resolved_issue = true;
  after = resolve_issue o i.id (delete_candidate o s);
}

unfoldable pub transition_anomaly_condition : Observation → IssueState → Transitioned
unfolding observe unobserved active_issue candidate
transition_anomaly_condition o s =
    let active = active_issue o.miner.id o.code s in
    let waiting = candidate o.miner.id o.code s in
    if o.observed then observe o active waiting s else unobserved o active s

abbrev pub acknowledge : ℕ → String → Option String → Issue → Issue
acknowledge now actor note i = record i {
  acknowledged_at = some now;
  acknowledged_by = some actor;
  acknowledgement_note = note;
}

abbrev pub clear_acknowledgement : Issue → Issue
clear_acknowledgement i = record i {
  acknowledged_at = none;
  acknowledged_by = none;
  acknowledgement_note = none;
}

-- UPDATE … WHERE id=?, with the row that had the id before, if any: without one (`cursor.rowcount == 0`)
-- it is rolled back; else the row is read again.
pub update_found : ℕ → (Issue → Issue) → Option Issue → IssueState → Option Issue × IssueState
update_found issue_id f none s = (none, s)
update_found issue_id f (some i) s =
    let t = update_rows (is_issue issue_id) f s.issues in
    (first_row (is_issue issue_id) t, record s { issues = t })

pub update_issue : ℕ → (Issue → Issue) → IssueState → Option Issue × IssueState
unfolding update_found
update_issue issue_id f s = update_found issue_id f (first_row (is_issue issue_id) s.issues) s

unfoldable pub set_issue_acknowledgement :
    ℕ → String → Option String → ℕ → IssueState → Option Issue × IssueState
unfolding update_issue
set_issue_acknowledgement issue_id actor note now s =
    update_issue issue_id (acknowledge now actor note) s

unfoldable pub clear_issue_acknowledgement : ℕ → IssueState → Option Issue × IssueState
unfolding update_issue
clear_issue_acknowledgement issue_id s = update_issue issue_id clear_acknowledgement s
