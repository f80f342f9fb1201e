-- ===== src/Control/Bulk/Selection.antt =====
-- The miners that a bulk request selects, with their jobs, and the preview (app/control/bulk.py, and the
-- queries of app/control/repository.py).
pub mod Rows
pub mod Prepared
use open_asicmanager.Prelude.{
  ℕ, ◌+◌, ◌-◌, String, Bool, true, false, not, ◌&&◌, Option, none, some, List, [], ◌∷◌, ◌==◌, ltb,
  map, if◌then◌else◌, length, select, first_row, count_rows, is_some, Result, ok, raised, raise_if,
  ◌>>=◌, ◌>>◌,
}
use open_asicmanager.Fleet.{Action, Driver, Miner, MinerState, supported}
use open_asicmanager.Groups.{Group, get_group, is_member}
use open_asicmanager.Values.{Json}
use open_asicmanager.Control.{
  ControlJob, JobStatus, ControlState, Rejection, not_found, disabled, unsupported_driver,
  has_active_job,
}
use open_asicmanager.Control.Jobs.{get_active_control_job}
use open_asicmanager.Control.Bulk.{
  bulk_control_max_targets, BulkError, group_not_found, group_empty, group_too_large, Chosen,
  chosen_miners, chosen_group, BulkRequest,
}
use open_asicmanager.Control.Bulk.Requests.{
  member, normalize_bulk_control_request, normalize_bulk_control_action,
}

-- A row of _bulk_control_selection_query: the miner, its group's name, and its unfinished job.
pub record BulkRow : Type 0 where
  pub miner : Miner
  pub group_name : Option String
  pub active : Option ControlJob

name_of : Option Group → Option String
name_of none = none
name_of (some g) = some g.name

-- LEFT JOIN miner_groups
group_name_of : Option ℕ → List Group → Option String
unfolding name_of get_group
group_name_of none groups = none
group_name_of (some group_id) groups = name_of (get_group group_id groups)

unfoldable pub bulk_row : List Group → ControlState → Miner → BulkRow
unfolding group_name_of
bulk_row groups s m = record {
  miner = m;
  group_name = group_name_of m.group_id groups;
  active = get_active_control_job m.id s;
}

-- m.id IN (…)
unfoldable pub list_bulk_control_miners_by_ids : List ℕ → List Group → ControlState → List BulkRow
unfolding bulk_row
list_bulk_control_miners_by_ids ids groups s =
    map (bulk_row groups s) (select (λ m. member m.id ids) s.miners)

-- m.group_id=?
unfoldable pub list_bulk_control_miners_by_group : ℕ → List Group → ControlState → List BulkRow
unfolding bulk_row
list_bulk_control_miners_by_group group_id groups s =
    map (bulk_row groups s) (select (is_member group_id) s.miners)

pub record ActiveJob : Type 0 where
  pub job_id : ℕ
  pub status : JobStatus
  pub action : Action
  pub target_state : MinerState

abbrev pub public_job : ControlJob → ActiveJob
public_job j = record {
  job_id = j.id;
  status = j.status;
  action = j.action;
  target_state = j.target_state;
}

public_active_job : Option ControlJob → Option ActiveJob
public_active_job none = none
public_active_job (some j) = some (public_job j)

-- The reason of a refusal, or `none` for an eligible miner.
unfoldable pub eligibility : Option BulkRow → Option Rejection
eligibility none = some not_found
eligibility (some row) =
    if not row.miner.enabled
    then some disabled
    else if not (supported row.miner.driver)
    then some unsupported_driver
    else if is_some row.active
    then some has_active_job
    else none

-- The columns of an unknown miner are null.
pub record Target : Type 0 where
  pub miner_id : ℕ
  pub miner : Option Miner
  pub group_name : Option String
  pub eligible : Bool
  pub rejection : Option Rejection
  pub active_job : Option ActiveJob

unfoldable pub public_target : ℕ → Option BulkRow → Target
unfolding eligibility public_active_job
public_target requested_id none = record {
  miner_id = requested_id;
  miner = none;
  group_name = none;
  eligible = false;
  rejection = eligibility none;
  active_job = none;
}
public_target requested_id (some row) = record {
  miner_id = row.miner.id;
  miner = some row.miner;
  group_name = row.group_name;
  eligible = not (is_some (eligibility (some row)));
  rejection = eligibility (some row);
  active_job = public_active_job row.active;
}

-- A selected id, and the row that was read for it.
abbrev pub Internal : Type 0
Internal = ℕ × Option BulkRow

abbrev pub row_id : ℕ → BulkRow → Bool
row_id miner_id row = row.miner.id == miner_id

-- by_id.get(miner_id) for each requested id
unfoldable pub targets_of_ids : List BulkRow → List ℕ → List Internal
targets_of_ids rows [] = []
targets_of_ids rows (i ∷ ids) = (i, first_row (row_id i) rows) ∷ targets_of_ids rows ids

unfoldable pub targets_of_rows : List BulkRow → List Internal
targets_of_rows rows = map (λ row. (row.miner.id, some row)) rows

-- The group, for a selection by group.
abbrev pub Selected : Type 0
Selected = Option Group × List Internal

pub found_group : Option Group → Result BulkError Group
found_group none = raised group_not_found
found_group (some g) = ok g

pub no_rows : List BulkRow → Bool
no_rows [] = true
no_rows (row ∷ rows) = false

pub select_chosen : Chosen → List Group → ControlState → Result BulkError Selected
unfolding found_group no_rows get_group
select_chosen (chosen_miners ids) groups s =
    ok (none, targets_of_ids (list_bulk_control_miners_by_ids ids groups s) ids)
select_chosen (chosen_group group_id) groups s = do
  g ← found_group (get_group group_id groups)
  let rows = list_bulk_control_miners_by_group group_id groups s
  raise_if (no_rows rows) group_empty
  raise_if (ltb bulk_control_max_targets (length rows)) (group_too_large (length rows))
  ok (some g, targets_of_rows rows)

abbrev pub public_of : Internal → Target
public_of (i, row) = public_target i row

abbrev pub is_eligible : Target → Bool
is_eligible t = t.eligible

pub record Resolved : Type 0 where
  pub normalized : BulkRequest
  pub selection : Option Group
  pub targets : List Internal
  pub public_targets : List Target
  pub requested_count : ℕ
  pub eligible_count : ℕ
  pub rejected_count : ℕ

resolved_as : BulkRequest → Selected → Resolved
resolved_as request (g, targets) =
    let public = map public_of targets in
    let eligible_count = count_rows is_eligible public in
    record {
      normalized = request;
      selection = g;
      targets = targets;
      public_targets = public;
      requested_count = length public;
      eligible_count = eligible_count;
      rejected_count = length public - eligible_count;
    }

unfoldable pub resolve_bulk_control_selection :
    Json → List Group → ControlState → Result BulkError Resolved
unfolding select_chosen resolved_as
resolve_bulk_control_selection payload groups s = do
  request ← normalize_bulk_control_request payload
  selected ← select_chosen request.chosen groups s
  ok (resolved_as request selected)

-- The answer repeats the fields of `Resolved` but for the internal ones.
unfoldable pub bulk_control_preview :
    String → Json → List Group → ControlState → Result BulkError (Action × Resolved)
bulk_control_preview word payload groups s = do
  action ← normalize_bulk_control_action word
  resolved ← resolve_bulk_control_selection payload groups s
  ok (action, resolved)
