-- ===== src/Maintenance/Samples.antt =====
-- Maintenance windows on a concrete fleet (app/maintenance_windows, app/api/maintenance.py): the
-- theorems applied, and runs.
use open_asicmanager.Prelude.{
  ◌≡◌, refl, arith, ◌↔◌, inl, inr, true, none, some, [], ◌∷◌, In, count_rows, first_row, Ensures,
  raised, select, ok, update_rows,
}
use open_asicmanager.Fleet.{Miner, awesome, mining, get_miner}
use open_asicmanager.Maintenance.{
  miner_scope, group_scope, scope_eq, Window, MaintenanceState, same_target, get_maintenance_window,
  find_maintenance_conflict, active_maintenance_snapshot, ended, create_maintenance_window,
  extend_maintenance_window,
}
use open_asicmanager.Maintenance.Requests.{
  CreateBody, ExtendBody, absent, null, integer, normalize_maintenance_create,
  normalize_maintenance_extend,
}
use open_asicmanager.Maintenance.Requests.Accepted.{
  Acceptable, normalize_maintenance_create-Acceptable,
}
use open_asicmanager.Maintenance.Invariant.{shape}
use open_asicmanager.Maintenance.Protection.{
  ActiveWith, IsFarm, IsProtected, active_maintenance_snapshot_iff,
}
use open_asicmanager.Maintenance.Handlers.{
  overlaps_window, refuse, api_maintenance_create, api_maintenance_extend, api_maintenance_end,
}
use open_asicmanager.Maintenance.Handlers.Creates.{IsKept, api_maintenance_create-IsKept}
use open_asicmanager.Maintenance.Handlers.Changes.{api_maintenance_changes-IsKept}
use open_asicmanager.Maintenance.Handlers.Ending.{Ended, api_maintenance_end-Ended}
use open_asicmanager.Maintenance.Handlers.Extending.{Decides, api_maintenance_extend-Decides}

abbrev rig : Miner
rig = record {
  id = 7;
  name = "rig-7";
  ip = "10.0.0.7";
  driver = awesome;
  enabled = true;
  schedule_enabled = true;
  group_id = some 3;
  manual_override_until = none;
  last_state = some mining;
  last_seen = some 1000;
  last_error = none;
  last_action = none;
  last_action_at = none;
}

-- A window for the group 3, with the rig as its member.
abbrev group_window : Window
group_window = record {
  id = 1;
  scope = group_scope;
  miner_id = none;
  group_id = some 3;
  group_name = some "hall A";
  starts_at = 1000;
  ends_at = 5000;
  note = none;
  created_by = "ops";
  created_at = 1000;
  updated_by = none;
  updated_at = none;
  ended_at = none;
  ended_by = none;
}

abbrev plant : MaintenanceState
plant = record {
  miners = rig ∷ [];
  groups = record { id = 3; name = "hall A" } ∷ [];
  windows = group_window ∷ [];
  next_window = 2;
  members =
      record { window_id = 1; miner_id = 7; miner_name = "rig-7"; miner_ip = "10.0.0.7" } ∷ [];
  log = [];
}

plant-IsKept : IsKept plant
unfolding count_rows shape
plant-IsKept = record {
  apart = λ x y i j ne. elim i [
    | inl e ↦ elim j [ inl f ↦ absurd (ne (ground arith)) | inr f ↦ absurd f ]
    | inr e ↦ absurd e
  ];
  sound = ((refl, (omega arith, omega arith)), tt);
  distinct_ids = λ i. ground arith;
  fresh_id = (omega arith, tt);
}

-- One hour for the rig alone, from the present.
abbrev rig_body : CreateBody
rig_body = record {
  unknown = [];
  scope = some miner_scope;
  miner_id = integer 7;
  group_id = null;
  starts_at = absent;
  ends_at = integer 5600;
  note = absent;
}

abbrev group_body : CreateBody
group_body = record {
  unknown = [];
  scope = some group_scope;
  miner_id = null;
  group_id = integer 3;
  starts_at = absent;
  ends_at = integer 5600;
  note = absent;
}

abbrev longer : ExtendBody
longer = record { unknown = []; ends_at = integer 6000; note = absent }

normalize_maintenance_create-Acceptable_example :
    Ensures (Acceptable 2000) (normalize_maintenance_create (some rig_body) 2000)
normalize_maintenance_create-Acceptable_example =
    normalize_maintenance_create-Acceptable (some rig_body) 2000

api_maintenance_create-IsKept_example :
    IsKept (api_maintenance_create (some rig_body) "ops" 2000 plant).1
api_maintenance_create-IsKept_example =
    api_maintenance_create-IsKept (some rig_body) "ops" 2000 plant plant-IsKept

api_maintenance_changes-IsKept_example :
    IsKept (api_maintenance_extend 1 (some longer) "ops" 2000 plant).1
    × IsKept (api_maintenance_end 1 "ops" 2000 plant).1
api_maintenance_changes-IsKept_example =
    api_maintenance_changes-IsKept 1 (some longer) "ops" 2000 plant plant-IsKept

active_maintenance_snapshot_iff_example :
    (((active_maintenance_snapshot 2000 plant.windows plant.members).farm_active ≡ true)
      ↔ ActiveWith 2000 IsFarm plant.windows)
    × (In 7 (active_maintenance_snapshot 2000 plant.windows plant.members).miner_ids
        ↔ IsProtected 2000 7 plant.windows plant.members)
active_maintenance_snapshot_iff_example =
    active_maintenance_snapshot_iff 2000 plant.windows plant.members 7

api_maintenance_end-Ended_example :
    Ended 1 (ended "ops" 2000 group_window) plant (api_maintenance_end 1 "ops" 2000 plant)
unfolding get_maintenance_window first_row
api_maintenance_end-Ended_example =
    api_maintenance_end-Ended 1 "ops" 2000 group_window plant refl (refl, omega arith)

abbrev longer_window : Window
longer_window = record group_window {
  ends_at = 6000;
  updated_by = some "ops";
  updated_at = some 2000;
}

api_maintenance_extend-Decides_example :
    Decides 1 longer_window plant (api_maintenance_extend 1 (some longer) "ops" 2000 plant)
unfolding get_maintenance_window first_row normalize_maintenance_extend
api_maintenance_extend-Decides_example =
    api_maintenance_extend-Decides 1 (some longer) "ops" 2000 group_window plant plant-IsKept refl
      refl

-- The window of the group is extended,
group_extended : (api_maintenance_extend 1 (some longer) "ops" 2000 plant).0 ≡ ok longer_window
unfolding api_maintenance_extend get_maintenance_window first_row normalize_maintenance_extend
    find_maintenance_conflict same_target scope_eq extend_maintenance_window update_rows
group_extended = refl

-- but not into the group's next window.
abbrev next_window : Window
next_window = record group_window { id = 2; starts_at = 5500; ends_at = 7000 }

abbrev busy_plant : MaintenanceState
busy_plant = record plant { windows = group_window ∷ next_window ∷ []; next_window = 3 }

extension_refused :
    api_maintenance_extend 1 (some longer) "ops" 2000 busy_plant
    ≡ refuse (overlaps_window 2) busy_plant
unfolding api_maintenance_extend get_maintenance_window first_row normalize_maintenance_extend
    find_maintenance_conflict same_target scope_eq
extension_refused = refl

-- The rig is protected by its group's window,
rig_protected : (active_maintenance_snapshot 2000 plant.windows plant.members).miner_ids ≡ 7 ∷ []
unfolding active_maintenance_snapshot select first_row scope_eq
rig_protected = refl

-- a second window of the group that overlaps the first is refused,
overlap_refused :
    (api_maintenance_create (some group_body) "ops" 2000 plant).0 ≡ raised (overlaps_window 1)
unfolding api_maintenance_create normalize_maintenance_create find_maintenance_conflict first_row
    same_target scope_eq
overlap_refused = refl

-- and one of the rig itself is stored.
rig_stored : (api_maintenance_create (some rig_body) "ops" 2000 plant).1.next_window ≡ 3
unfolding api_maintenance_create normalize_maintenance_create get_miner first_row
    find_maintenance_conflict same_target scope_eq create_maintenance_window
rig_stored = refl
