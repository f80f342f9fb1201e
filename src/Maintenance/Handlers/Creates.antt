-- ===== src/Maintenance/Handlers/Creates.antt =====
-- The create handler of app/api/maintenance.py keeps the invariant of the maintenance_windows table.
use open_asicmanager.Prelude.{
  ℕ, ◌≡◌, refl, String, Option, none, some, List, [], arith, first_row, first_none→In, Result, ok,
  raised, Ensures,
}
use open_asicmanager.Fleet.{Miner}
use open_asicmanager.Maintenance.{
  Scope, farm, miner_scope, group_scope, Window, MaintenanceState, Normalized, TypeError,
  CreateError, no_group, empty_group, no_group_id, conflicts, find_maintenance_conflict, new_window,
  insert_window, group_members, create_for_group, create_in_scope, create_maintenance_window,
}
use open_asicmanager.Maintenance.Requests.{CreateBody, RequestError}
use open_asicmanager.Maintenance.Requests.Accepted.{
  Acceptable, normalize_maintenance_create-Acceptable,
}
use open_asicmanager.Maintenance.Handlers.{
  Failure, log_event, created, without_conflict, for_miner, normalized, api_maintenance_create,
}
use open_asicmanager.Maintenance.Invariant.{WellFormed, insert-WellFormed}

abbrev pub IsKept : MaintenanceState → Type 0
IsKept s = WellFormed s.windows s.next_window

insert_window-IsKept :
    (n : Normalized) (actor : String) (now : ℕ) (name : Option String) (rows : List Miner)
    (s : MaintenanceState)
    → Acceptable now n
    → first_row (conflicts n.scope n.miner_id n.group_id n.starts_at n.ends_at none) s.windows
      ≡ none
    → IsKept s
    → IsKept (insert_window n actor now name rows s).1
unfolding insert_window
insert_window-IsKept n actor now name rows s a free wf =
    insert-WellFormed (new_window n actor now name s.next_window) s.windows s.next_window refl
      (a.0, a.1.0)
      (λ y i. ground (
        arith,
        first_none→In (conflicts n.scope n.miner_id n.group_id n.starts_at n.ends_at none) s.windows
            free i,
      ))
      wf

create_in_scope-IsKept :
    (scope : Scope) (n : Normalized) (actor : String) (now : ℕ) (s : MaintenanceState)
    → Acceptable now n
    → first_row (conflicts n.scope n.miner_id n.group_id n.starts_at n.ends_at none) s.windows
      ≡ none
    → IsKept s
    → IsKept (create_in_scope scope n actor now s).1
unfolding create_in_scope create_for_group
create_in_scope-IsKept group_scope n actor now s a free wf = for_group (group_members n.group_id s)
  where
    for_group :
        (r : Result CreateError (String × List Miner)) → IsKept (create_for_group n actor now r s).1
    for_group (raised e) = wf
    for_group (ok (name, rows)) = insert_window-IsKept n actor now (some name) rows s a free wf
create_in_scope-IsKept farm n actor now s a free wf =
    insert_window-IsKept n actor now none [] s a free wf
create_in_scope-IsKept miner_scope n actor now s a free wf =
    insert_window-IsKept n actor now none [] s a free wf

created-IsKept :
    (miner : Option Miner) (r : Result CreateError Window) (s : MaintenanceState)
    → IsKept s
    → IsKept (created miner (r, s)).1
unfolding created log_event
created-IsKept miner (raised no_group) s wf = wf
created-IsKept miner (raised empty_group) s wf = wf
created-IsKept miner (raised no_group_id) s wf = wf
created-IsKept miner (ok w) s wf = wf

-- Where the search finds nothing, no window conflicts.
pub no_conflict :
    (scope : Scope) (m g : Option ℕ) (starts_at ends_at : ℕ) (x : Option ℕ) (windows : List Window)
    → find_maintenance_conflict scope m g starts_at ends_at x windows ≡ ok none
    → first_row (conflicts scope m g starts_at ends_at x) windows ≡ none
unfolding find_maintenance_conflict
no_conflict farm m g starts_at ends_at x windows h = ground arith
no_conflict miner_scope none g starts_at ends_at x windows h = ground arith
no_conflict miner_scope (some m) g starts_at ends_at x windows h = ground arith
no_conflict group_scope m none starts_at ends_at x windows h = ground arith
no_conflict group_scope m (some g) starts_at ends_at x windows h = ground arith

without_conflict-IsKept :
    (n : Normalized) (miner : Option Miner) (actor : String) (now : ℕ)
    (r : Result TypeError (Option Window)) (s : MaintenanceState)
    → Acceptable now n
    → find_maintenance_conflict n.scope n.miner_id n.group_id n.starts_at n.ends_at none s.windows
      ≡ r
    → IsKept s
    → IsKept (without_conflict n miner actor now r s).1
unfolding without_conflict create_maintenance_window
without_conflict-IsKept n miner actor now (raised e) s a h wf = wf
without_conflict-IsKept n miner actor now (ok (some w)) s a h wf = wf
without_conflict-IsKept n miner actor now (ok none) s a h wf =
    let (r, t) = create_in_scope n.scope n actor now s in
    created-IsKept miner r t (
      create_in_scope-IsKept n.scope n actor now s a
        (no_conflict n.scope n.miner_id n.group_id n.starts_at n.ends_at none s.windows h) wf)

for_miner-IsKept :
    (n : Normalized) (actor : String) (now : ℕ) (r : Result Failure (Option Miner))
    (s : MaintenanceState)
    → Acceptable now n
    → IsKept s
    → IsKept (for_miner n actor now r s).1
unfolding for_miner
for_miner-IsKept n actor now (raised e) s a wf = wf
for_miner-IsKept n actor now (ok miner) s a wf =
    without_conflict-IsKept n miner actor now _ s a refl wf

normalized-IsKept :
    (actor : String) (now : ℕ) (r : Result RequestError Normalized) (s : MaintenanceState)
    → Ensures (Acceptable now) r
    → IsKept s
    → IsKept (normalized actor now r s).1
unfolding normalized
normalized-IsKept actor now (raised e) s a wf = wf
normalized-IsKept actor now (ok n) s a wf = for_miner-IsKept n actor now _ s a wf

-- Whatever is asked for, a create request keeps a well formed table well formed: two windows of
-- one target that have not been ended never overlap in time, every window fits its scope and lasts
-- at most seven days, and ids are used once.
pub api_maintenance_create-IsKept :
    (body : Option CreateBody) (actor : String) (now : ℕ) (s : MaintenanceState)
    → IsKept s
    → IsKept (api_maintenance_create body actor now s).1
unfolding api_maintenance_create
api_maintenance_create-IsKept body actor now s wf =
    normalized-IsKept actor now _ s (normalize_maintenance_create-Acceptable body now) wf
