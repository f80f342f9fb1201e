-- ===== src/Groups.antt =====
-- Miner groups (app/miner_groups/repository.py): the miner_groups table, whose normalized name is
-- unique, and the membership of the miners. An IntegrityError of SQLite is that constraint.
use package.text.Mathlib.Text.{◌==◌ as str_eq}
use open_asicmanager.Prelude.{
  ℕ, ◌+◌, String, Bool, true, false, not, ◌&&◌, Option, none, some, List, [], ◌∷◌, ◌++◌, ◌==◌,
  if◌then◌else◌, is_some, first_row, update_rows, delete_rows, count_rows, Result, ok, raised,
}
use open_asicmanager.Fleet.{Miner, get_miner, update_miner}

pub record Group : Type 0 where
  pub id : ℕ
  pub name : String
  pub normalized_name : String
  pub created_by : String
  pub created_at : ℕ
  pub updated_by : Option String
  pub updated_at : Option ℕ

-- `policies` lists the ids of the groups that have a row of group_anomaly_policy_overrides.
pub record GroupState : Type 0 where
  pub groups : List Group
  pub next_group : ℕ
  pub miners : List Miner
  pub policies : List ℕ

abbrev pub is_group_id : ℕ → Group → Bool
is_group_id group_id g = g.id == group_id

unfoldable pub get_group : ℕ → List Group → Option Group
get_group group_id groups = first_row (is_group_id group_id) groups

abbrev pub is_member : ℕ → Miner → Bool
is_member group_id m = elim m.group_id [ none ↦ false | some g ↦ g == group_id ]

-- SELECT COUNT(*) FROM miners WHERE group_id=?
unfoldable pub member_count : ℕ → List Miner → ℕ
member_count group_id miners = count_rows (is_member group_id) miners

pub data GroupFault : Type 0 where
  name_exists : GroupFault

abbrev pub has_name : String → Group → Bool
has_name normalized_name g = str_eq g.normalized_name normalized_name

unfoldable pub create_group :
    String → String → String → ℕ → GroupState → Result GroupFault (Option Group) × GroupState
unfolding get_group
create_group name normalized_name actor now s =
    let taken = is_some (first_row (has_name normalized_name) s.groups) in
    let row : Group = record {
      id = s.next_group;
      name = name;
      normalized_name = normalized_name;
      created_by = actor;
      created_at = now;
      updated_by = none;
      updated_at = none;
    } in
    let groups = s.groups ++ row ∷ [] in
    if taken then (raised name_exists, s) else (
      ok (get_group s.next_group groups),
      record s { groups = groups; next_group = s.next_group + 1 },
    )

-- Another group has the name.
abbrev pub has_name_elsewhere : ℕ → String → Group → Bool
has_name_elsewhere group_id normalized_name g =
    not (g.id == group_id) && str_eq g.normalized_name normalized_name

abbrev pub renamed : String → String → String → ℕ → Group → Group
renamed name normalized_name actor now g = record g {
  name = name;
  normalized_name = normalized_name;
  updated_by = some actor;
  updated_at = some now;
}

rename_existing :
    ℕ
    → String
    → String
    → String
    → ℕ
    → Option Group
    → GroupState
    → Result GroupFault (Option Group) × GroupState
unfolding get_group
rename_existing group_id name normalized_name actor now none s = (ok none, s)
rename_existing group_id name normalized_name actor now (some g) s =
    let groups =
      update_rows (is_group_id group_id) (renamed name normalized_name actor now) s.groups in
    if is_some (first_row (has_name_elsewhere group_id normalized_name) s.groups)
    then (raised name_exists, s)
    else (ok (get_group group_id groups), record s { groups = groups })

unfoldable pub rename_group :
    ℕ → String → String → String → ℕ → GroupState → Result GroupFault (Option Group) × GroupState
unfolding get_group rename_existing
rename_group group_id name normalized_name actor now s =
    rename_existing group_id name normalized_name actor now (get_group group_id s.groups) s

-- The row that is gone and the number of its members.
delete_existing : ℕ → Option Group → GroupState → Option (Group × ℕ) × GroupState
unfolding member_count
delete_existing group_id none s = (none, s)
delete_existing group_id (some g) s = (
  some (g, member_count group_id s.miners),
  record s {
    policies = delete_rows (λ p. p == group_id) s.policies;
    miners = update_rows (is_member group_id) (λ m. record m { group_id = none }) s.miners;
    groups = delete_rows (is_group_id group_id) s.groups;
  },
)

unfoldable pub delete_group : ℕ → GroupState → Option (Group × ℕ) × GroupState
unfolding get_group delete_existing
delete_group group_id s = delete_existing group_id (get_group group_id s.groups) s

-- The status that `set_miner_group` returns, with the old group of the miner.
pub data Membership : Type 0 where
  miner_not_found : Membership
  group_not_found unchanged updated : Option ℕ → Membership

abbrev pub same_id : Option ℕ → Option ℕ → Bool
same_id none none = true
same_id (some a) (some b) = a == b
same_id _ _ = false

-- group_id is not None, and no group has it
missing : Option ℕ → List Group → Bool
unfolding get_group
missing none groups = false
missing (some group_id) groups = not (is_some (get_group group_id groups))

set_found : ℕ → Option ℕ → Option Miner → GroupState → Membership × GroupState
unfolding missing update_miner
set_found miner_id group_id none s = (miner_not_found, s)
set_found miner_id group_id (some m) s =
    if missing group_id s.groups
    then (group_not_found m.group_id, s)
    else if same_id m.group_id group_id
    then (unchanged m.group_id, s)
    else (
      updated m.group_id,
      record s { miners = update_miner miner_id (λ x. record x { group_id = group_id }) s.miners },
    )

unfoldable pub set_miner_group : ℕ → Option ℕ → GroupState → Membership × GroupState
unfolding set_found get_miner
set_miner_group miner_id group_id s = set_found miner_id group_id (get_miner miner_id s.miners) s
