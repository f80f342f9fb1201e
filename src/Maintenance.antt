-- ===== src/Maintenance.antt =====
-- Maintenance windows (app/maintenance_windows/repository.py): the tables maintenance_windows and
-- maintenance_window_members, and the statements on them. The requests, the HTTP handlers and the
-- proofs are in the modules below.
pub mod Requests
pub mod Handlers
pub mod Invariant
pub mod Protection
pub mod Samples
use open_asicmanager.Prelude.{
  ℕ, ◌+◌, String, Bool, true, false, not, ◌&&◌, ◌||◌, Option, none, some, List, [], ◌∷◌, ◌++◌, map,
  ◌==◌, leb, ltb, if◌then◌else◌, is_some, select, first_row, update_rows, Result, ok, raised,
}
use open_asicmanager.Fleet.{Miner}

pub data Scope : Type 0 where
  farm miner_scope group_scope : Scope

unfoldable pub scope_eq : Scope → Scope → Bool
scope_eq farm farm = true
scope_eq miner_scope miner_scope = true
scope_eq group_scope group_scope = true
scope_eq _ _ = false

pub record Window : Type 0 where
  pub id : ℕ
  pub scope : Scope
  pub miner_id : Option ℕ
  pub group_id : Option ℕ
  pub group_name : Option String
  pub starts_at : ℕ
  pub ends_at : ℕ
  pub note : Option String
  pub created_by : String
  pub created_at : ℕ
  pub updated_by : Option String
  pub updated_at : Option ℕ
  pub ended_at : Option ℕ
  pub ended_by : Option String

-- maintenance_window_members: who was in the group when the window was created.
pub record Member : Type 0 where
  pub window_id : ℕ
  pub miner_id : ℕ
  pub miner_name : String
  pub miner_ip : String

pub record MinerGroup : Type 0 where
  pub id : ℕ
  pub name : String

-- The events that a handler logs, with the window.
pub data EventAction : Type 0 where
  maintenance_create maintenance_extend maintenance_end : EventAction

pub record Event : Type 0 where
  pub action : EventAction
  pub miner : Option Miner
  pub window : Window

-- `next_window` is the id that AUTOINCREMENT gives next.
pub record MaintenanceState : Type 0 where
  pub miners : List Miner
  pub groups : List MinerGroup
  pub windows : List Window
  pub next_window : ℕ
  pub members : List Member
  pub log : List Event

abbrev pub is_window : ℕ → Window → Bool
is_window window_id w = w.id == window_id

unfoldable pub get_maintenance_window : ℕ → List Window → Option Window
get_maintenance_window window_id windows = first_row (is_window window_id) windows

-- column = ?
abbrev pub holds : ℕ → Option ℕ → Bool
holds n none = false
holds n (some m) = m == n

-- scope = ? and the condition on the ids that the scope adds; `int(None)` raises.
pub data TypeError : Type 0 where
  int_of_none : TypeError

unfoldable pub same_target : Scope → Option ℕ → Option ℕ → Window → Bool
same_target farm m g w =
    scope_eq farm w.scope && not (is_some w.miner_id) && not (is_some w.group_id)
same_target miner_scope none g w = false
same_target miner_scope (some m) g w = scope_eq miner_scope w.scope && holds m w.miner_id
same_target group_scope m none w = false
same_target group_scope m (some g) w = scope_eq group_scope w.scope && holds g w.group_id

-- ended_at IS NULL AND starts_at < ? AND ends_at > ?
abbrev pub overlaps : ℕ → ℕ → Window → Bool
overlaps starts_at ends_at w =
    not (is_some w.ended_at) && ltb w.starts_at ends_at && ltb starts_at w.ends_at

-- id != ?
abbrev pub not_excluded : Option ℕ → Window → Bool
not_excluded none w = true
not_excluded (some n) w = not (w.id == n)

abbrev pub conflicts : Scope → Option ℕ → Option ℕ → ℕ → ℕ → Option ℕ → Window → Bool
conflicts scope miner_id group_id starts_at ends_at exclude_id w =
    overlaps starts_at ends_at w
    && same_target scope miner_id group_id w
    && not_excluded exclude_id w

unfoldable pub find_maintenance_conflict :
    Scope → Option ℕ → Option ℕ → ℕ → ℕ → Option ℕ → List Window → Result TypeError (Option Window)
find_maintenance_conflict miner_scope none g starts_at ends_at exclude_id windows =
    raised int_of_none
find_maintenance_conflict group_scope m none starts_at ends_at exclude_id windows =
    raised int_of_none
find_maintenance_conflict scope m g starts_at ends_at exclude_id windows =
    ok (first_row (conflicts scope m g starts_at ends_at exclude_id) windows)

-- What a request to create a window becomes.
pub record Normalized : Type 0 where
  pub scope : Scope
  pub miner_id : Option ℕ
  pub group_id : Option ℕ
  pub starts_at : ℕ
  pub ends_at : ℕ
  pub note : Option String

pub data CreateError : Type 0 where
  no_group empty_group : CreateError
  no_group_id : CreateError  -- `int(None)`

abbrev pub in_group : ℕ → Miner → Bool
in_group group_id m = holds group_id m.group_id

abbrev is_group : ℕ → MinerGroup → Bool
is_group group_id g = g.id == group_id

abbrev pub new_window : Normalized → String → ℕ → Option String → ℕ → Window
new_window n actor now group_name window_id = record {
  id = window_id;
  scope = n.scope;
  miner_id = n.miner_id;
  group_id = n.group_id;
  group_name = group_name;
  starts_at = n.starts_at;
  ends_at = n.ends_at;
  note = n.note;
  created_by = actor;
  created_at = now;
  updated_by = none;
  updated_at = none;
  ended_at = none;
  ended_by = none;
}

abbrev pub member_of : ℕ → Miner → Member
member_of window_id m = record {
  window_id = window_id;
  miner_id = m.id;
  miner_name = m.name;
  miner_ip = m.ip;
}

pub insert_window :
    Normalized
    → String
    → ℕ
    → Option String
    → List Miner
    → MaintenanceState
    → Window × MaintenanceState
insert_window n actor now group_name member_rows s =
    let w = new_window n actor now group_name s.next_window in
    (
      w,
      record s {
        windows = s.windows ++ w ∷ [];
        next_window = s.next_window + 1;
        members = s.members ++ map (member_of s.next_window) member_rows;
      },
    )

-- The group's name and its miners at this time.
pub group_members : Option ℕ → MaintenanceState → Result CreateError (String × List Miner)
group_members none s = raised no_group_id
group_members (some group_id) s = elim (first_row (is_group group_id) s.groups) [
  | none ↦ raised no_group
  | some g ↦ elim (select (in_group group_id) s.miners) [
    | [] ↦ raised empty_group
    | m ∷ ms ↦ ok (g.name, m ∷ ms)
  ]
]

pub create_for_group :
    Normalized
    → String
    → ℕ
    → Result CreateError (String × List Miner)
    → MaintenanceState
    → Result CreateError Window × MaintenanceState
unfolding insert_window
create_for_group n actor now (raised e) s = (raised e, s)
create_for_group n actor now (ok (name, member_rows)) s =
    let (w, t) = insert_window n actor now (some name) member_rows s in (ok w, t)

pub create_in_scope :
    Scope
    → Normalized
    → String
    → ℕ
    → MaintenanceState
    → Result CreateError Window × MaintenanceState
unfolding insert_window group_members create_for_group
create_in_scope group_scope n actor now s =
    create_for_group n actor now (group_members n.group_id s) s
create_in_scope _ n actor now s = let (w, t) = insert_window n actor now none [] s in (ok w, t)

-- A raise rolls back.
unfoldable pub create_maintenance_window :
    Normalized → String → ℕ → MaintenanceState → Result CreateError Window × MaintenanceState
unfolding create_in_scope
create_maintenance_window n actor now s = create_in_scope n.scope n actor now s

-- UPDATE … WHERE id=? AND ended_at IS NULL
abbrev pub open_window : ℕ → Window → Bool
open_window window_id w = w.id == window_id && not (is_some w.ended_at)

abbrev pub extended : ℕ → Option String → String → ℕ → Window → Window
extended ends_at note actor now w = record w {
  ends_at = ends_at;
  note = note;
  updated_by = some actor;
  updated_at = some now;
}

abbrev pub ended : String → ℕ → Window → Window
ended actor now w = record w {
  ended_at = some now;
  ended_by = some actor;
  updated_by = some actor;
  updated_at = some now;
}

-- The UPDATE, with the row that it changes, if any: none is `cursor.rowcount == 0`.
pub update_open : ℕ → (Window → Window) → Option Window → List Window → Option Window × List Window
unfolding get_maintenance_window
update_open window_id f none windows = (none, windows)
update_open window_id f (some w) windows =
    let rows = update_rows (open_window window_id) f windows in
    (get_maintenance_window window_id rows, rows)

unfoldable pub extend_maintenance_window :
    ℕ → ℕ → Option String → String → ℕ → List Window → Option Window × List Window
unfolding update_open
extend_maintenance_window window_id ends_at note actor now windows =
    update_open window_id (extended ends_at note actor now)
      (first_row (open_window window_id) windows) windows

unfoldable pub end_maintenance_window : ℕ → String → ℕ → List Window → Option Window × List Window
unfolding update_open
end_maintenance_window window_id actor now windows =
    update_open window_id (ended actor now) (first_row (open_window window_id) windows) windows

-- ended_at IS NULL AND starts_at <= ? AND ends_at > ?
abbrev pub active_at : ℕ → Window → Bool
active_at now w = not (is_some w.ended_at) && leb w.starts_at now && ltb now w.ends_at

pub record Snapshot : Type 0 where
  pub farm_active : Bool
  pub miner_ids : List ℕ

any_farm : List Window → Bool
any_farm [] = false
any_farm (w ∷ ws) = scope_eq w.scope farm || any_farm ws

-- row["scope"] == "MINER" and row["miner_id"] is not None
add_id : Scope → Option ℕ → List ℕ → List ℕ
add_id miner_scope (some m) rest = m ∷ rest
add_id _ _ rest = rest

scope_ids : List Window → List ℕ
unfolding add_id
scope_ids [] = []
scope_ids (w ∷ ws) = add_id w.scope w.miner_id (scope_ids ws)

-- JOIN maintenance_windows mw ON mw.id=mwm.window_id WHERE mw.scope='GROUP' AND …
abbrev pub group_active : ℕ → List Window → Member → Bool
group_active now windows r = is_some (
    first_row (λ w. is_window r.window_id w && scope_eq w.scope group_scope && active_at now w)
      windows)

abbrev pub member_id : Member → ℕ
member_id r = r.miner_id

-- `miner_ids` is a set: the list stands for its members.
unfoldable pub active_maintenance_snapshot : ℕ → List Window → List Member → Snapshot
unfolding any_farm scope_ids
active_maintenance_snapshot now windows members =
    let rows = select (active_at now) windows in
    record {
      farm_active = any_farm rows;
      miner_ids = scope_ids rows ++ map member_id (select (group_active now windows) members);
    }
