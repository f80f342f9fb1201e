-- ===== src/Maintenance/Handlers.antt =====
-- The HTTP handlers of maintenance windows (app/api/maintenance.py), as functions on the tables, each as
-- one step. The handler that extends reads the window before it awaits the body of its request: the
-- model takes the body to be there already, so that no other request comes between.
pub mod Creates
pub mod Changes
pub mod Ending
pub mod Extending
use open_asicmanager.Prelude.{
  ℕ, ◌+◌, String, Bool, true, false, not, ◌&&◌, Option, none, some, List, [], ◌∷◌, ◌++◌, leb, ltb,
  if◌then◌else◌, Result, ok, raised, first_row,
}
use open_asicmanager.Fleet.{Miner, get_miner}
use open_asicmanager.Maintenance.{
  Scope, farm, miner_scope, group_scope, Window, Event, EventAction, maintenance_create,
  maintenance_extend, maintenance_end, MaintenanceState, Normalized, TypeError, CreateError,
  no_group, empty_group, no_group_id, get_maintenance_window, find_maintenance_conflict,
  create_maintenance_window, extend_maintenance_window, end_maintenance_window,
}
use open_asicmanager.Maintenance.Requests.{
  CreateBody, ExtendBody, RequestError, WindowStatus, ended, scheduled, active, expired,
  normalize_maintenance_create, normalize_maintenance_extend, maintenance_status,
}

-- What a handler answers: the window, or an HTTP error with its reason.
pub data Failure : Type 0 where
  bad_request : RequestError → Failure
  miner_not_found group_not_found no_members window_not_found : Failure
  overlaps_window : ℕ → Failure
  finished_already : WindowStatus → Failure
  not_extended not_ended : Failure
  server_error : Failure

abbrev pub Answer : Type 0
Answer = Result Failure Window × MaintenanceState

abbrev pub refuse : Failure → MaintenanceState → Answer
refuse e s = (raised e, s)

pub log_event : EventAction → Option Miner → Window → MaintenanceState → MaintenanceState
log_event action miner w s = record s {
  log = s.log ++ record { action = action; miner = miner; window = w } ∷ [];
}

-- `_scope_miner`: the miner of a MINER request, or a 404.
abbrev pub scope_miner : Scope → Option ℕ → List Miner → Result Failure (Option Miner)
scope_miner miner_scope (some m) miners = elim (get_miner m miners) [
  | none ↦ raised miner_not_found
  | some miner ↦ ok (some miner)
]
scope_miner miner_scope none miners = raised miner_not_found
scope_miner _ m miners = ok none

pub created : Option Miner → Result CreateError Window × MaintenanceState → Answer
unfolding log_event
created miner (raised no_group, s) = refuse group_not_found s
created miner (raised empty_group, s) = refuse no_members s
created miner (raised no_group_id, s) = refuse server_error s
created miner (ok w, s) = (ok w, log_event maintenance_create miner w s)

pub without_conflict :
    Normalized
    → Option Miner
    → String
    → ℕ
    → Result TypeError (Option Window)
    → MaintenanceState
    → Answer
unfolding created
without_conflict n miner actor now (raised e) s = refuse server_error s
without_conflict n miner actor now (ok (some w)) s = refuse (overlaps_window w.id) s
without_conflict n miner actor now (ok none) s =
    created miner (create_maintenance_window n actor now s)

pub for_miner : Normalized → String → ℕ → Result Failure (Option Miner) → MaintenanceState → Answer
unfolding without_conflict
for_miner n actor now (raised e) s = refuse e s
for_miner n actor now (ok miner) s =
    without_conflict n miner actor now
      (find_maintenance_conflict n.scope n.miner_id n.group_id n.starts_at n.ends_at none s.windows)
      s

pub normalized : String → ℕ → Result RequestError Normalized → MaintenanceState → Answer
unfolding for_miner
normalized actor now (raised e) s = refuse (bad_request e) s
normalized actor now (ok n) s = for_miner n actor now (scope_miner n.scope n.miner_id s.miners) s

unfoldable pub api_maintenance_create : Option CreateBody → String → ℕ → MaintenanceState → Answer
unfolding normalized
api_maintenance_create body actor now s =
    normalized actor now (normalize_maintenance_create body now) s

-- `get_miner(row["miner_id"]) if row["scope"] == "MINER" else None`
abbrev pub row_miner : Window → List Miner → Option Miner
row_miner w miners = elim w.scope [
  | miner_scope ↦ elim w.miner_id [ none ↦ none | some m ↦ get_miner m miners ]
  | _ ↦ none
]

-- The changed row, or the refusal where no row was changed.
pub changed : EventAction → Failure → Option Window × List Window → MaintenanceState → Answer
unfolding log_event
changed action e (none, windows) s = refuse e s
changed action e (some w, windows) s =
    (ok w, log_event action (row_miner w s.miners) w (record s { windows = windows }))

pub extend_checked :
    Window
    → ℕ
    → Option String
    → String
    → ℕ
    → Result TypeError (Option Window)
    → MaintenanceState
    → Answer
unfolding changed
extend_checked current ends_at written actor now (raised e) s = refuse server_error s
extend_checked current ends_at written actor now (ok (some w)) s = refuse (overlaps_window w.id) s
extend_checked current ends_at written actor now (ok none) s =
    changed maintenance_extend not_extended
      (extend_maintenance_window current.id ends_at written actor now s.windows) s

pub extend_normalized :
    Window → String → ℕ → Result RequestError (ℕ × Option String) → MaintenanceState → Answer
unfolding extend_checked
extend_normalized current actor now (raised e) s = refuse (bad_request e) s
extend_normalized current actor now (ok (ends_at, written)) s =
    extend_checked current ends_at written actor now
      (find_maintenance_conflict current.scope current.miner_id current.group_id current.starts_at
        ends_at (some current.id) s.windows)
      s

pub extend_found : Option ExtendBody → String → ℕ → Option Window → MaintenanceState → Answer
unfolding extend_normalized
extend_found body actor now none s = refuse window_not_found s
extend_found body actor now (some current) s =
    extend_normalized current actor now (normalize_maintenance_extend body current now) s

unfoldable pub api_maintenance_extend :
    ℕ → Option ExtendBody → String → ℕ → MaintenanceState → Answer
unfolding extend_found
api_maintenance_extend window_id body actor now s =
    extend_found body actor now (get_maintenance_window window_id s.windows) s

-- `if status in ("ENDED", "EXPIRED")`
pub end_status : ℕ → String → ℕ → WindowStatus → MaintenanceState → Answer
unfolding changed
end_status window_id actor now ended s = refuse (finished_already ended) s
end_status window_id actor now expired s = refuse (finished_already expired) s
end_status window_id actor now _ s =
    changed maintenance_end not_ended (end_maintenance_window window_id actor now s.windows) s

pub end_found : ℕ → String → ℕ → Option Window → MaintenanceState → Answer
unfolding end_status
end_found window_id actor now none s = refuse window_not_found s
end_found window_id actor now (some current) s =
    end_status window_id actor now (maintenance_status current now) s

unfoldable pub api_maintenance_end : ℕ → String → ℕ → MaintenanceState → Answer
unfolding end_found
api_maintenance_end window_id actor now s =
    end_found window_id actor now (get_maintenance_window window_id s.windows) s
