-- ===== src/Control/Bulk/Requests.antt =====
-- The checks on a bulk request (app/control/bulk.py, normalize_bulk_control_request and
-- normalize_bulk_control_action).
pub mod Sorted
pub mod Accepted
use package.text.Mathlib.Text.{◌==◌ as str_eq}
use open_asicmanager.Prelude.{
  ℕ, String, Bool, true, false, not, ◌&&◌, ◌||◌, Option, none, some, List, [], ◌∷◌, ◌==◌, ltb, leb,
  if◌then◌else◌, length, get_or, strip, Result, ok, raised, raise_if, ◌>>=◌, ◌>>◌,
}
use open_asicmanager.Fleet.{Action, pause, resume, reboot}
use open_asicmanager.Values.{
  Json, null, boolean, array, object, Items, Fields, get, keys, elements, positive_int,
}
use open_asicmanager.Values.Numerals.{lower_is}
use open_asicmanager.Control.Bulk.{
  bulk_control_max_targets, BulkError, not_an_object, one_selection, confirm_not_boolean,
  ids_not_array, ids_empty, ids_duplicate, too_many, bad_action, unknown_fields, not_positive,
  Chosen, chosen_miners, chosen_group, BulkRequest,
}

is_allowed : String → Bool
is_allowed name = str_eq name "miner_ids" || str_eq name "group_id" || str_eq name "confirm_reboot"

-- set(payload) - allowed
unknown_names : List String → List String
unfolding is_allowed
unknown_names [] = []
unknown_names (name ∷ names) =
    let rest = unknown_names names in if is_allowed name then rest else name ∷ rest

no_unknown_fields : List String → Result BulkError (Unit {0})
no_unknown_fields [] = ok tt
no_unknown_fields (name ∷ names) = raised (unknown_fields (name ∷ names))

-- name in payload and payload[name] is not None
given : Option Json → Option Json
given (some null) = none
given value = value

read_confirm : Json → Result BulkError Bool
read_confirm (boolean b) = ok b
read_confirm _ = raised confirm_not_boolean

unfoldable pub bulk_positive_int : String → Json → Result BulkError ℕ
bulk_positive_int name value = elim (positive_int value) [
  | none ↦ raised (not_positive name)
  | some n ↦ ok n
]

read_ids : List Json → Result BulkError (List ℕ)
unfolding bulk_positive_int
read_ids [] = ok []
read_ids (value ∷ values) = do
  n ← bulk_positive_int "miner_ids item" value
  rest ← read_ids values
  ok (n ∷ rest)

unfoldable pub member : ℕ → List ℕ → Bool
member n [] = false
member n (m ∷ ms) = m == n || member n ms

-- len(set(ids)) != len(ids)
pub has_duplicate : List ℕ → Bool
unfolding member
has_duplicate [] = false
has_duplicate (n ∷ ns) = member n ns || has_duplicate ns

insert_sorted : ℕ → List ℕ → List ℕ
insert_sorted n [] = n ∷ []
insert_sorted n (m ∷ ms) = let rest = insert_sorted n ms in if leb n m then n ∷ m ∷ ms else m ∷ rest

-- sorted(ids)
unfoldable pub sorted : List ℕ → List ℕ
unfolding insert_sorted
sorted [] = []
sorted (n ∷ ns) = insert_sorted n (sorted ns)

is_none : List Json → Bool
is_none [] = true
is_none (x ∷ xs) = false

values_of : Json → Result BulkError (List Json)
unfolding elements
values_of (array _ xs) = ok (elements xs)
values_of _ = raised ids_not_array

choose_miners : Json → Result BulkError Chosen
unfolding values_of read_ids is_none has_duplicate
choose_miners value = do
  values ← values_of value
  raise_if (is_none values) ids_empty
  ids ← read_ids values
  raise_if (has_duplicate ids) ids_duplicate
  raise_if (ltb bulk_control_max_targets (length ids)) too_many
  ok (chosen_miners (sorted ids))

choose_group : Json → Result BulkError Chosen
unfolding bulk_positive_int
choose_group value = do group_id ← bulk_positive_int "group_id" value; ok (chosen_group group_id)

-- Exactly one of the two; the check on confirm_reboot comes between.
choose : Option Json → Option Json → Result BulkError Bool → Result BulkError BulkRequest
unfolding choose_miners choose_group
choose (some ids) none confirm = do
  confirm_reboot ← confirm
  chosen ← choose_miners ids
  ok (record { chosen = chosen; confirm_reboot = confirm_reboot })
choose none (some group_id) confirm = do
  confirm_reboot ← confirm
  chosen ← choose_group group_id
  ok (record { chosen = chosen; confirm_reboot = confirm_reboot })
choose _ _ confirm = raised one_selection

normalize_fields : Fields → Result BulkError BulkRequest
unfolding no_unknown_fields unknown_names given read_confirm choose
normalize_fields payload = do
  no_unknown_fields (unknown_names (keys payload))
  choose (given (get "miner_ids" payload)) (given (get "group_id" payload))
      (read_confirm (get_or (get "confirm_reboot" payload) (boolean false)))

unfoldable pub normalize_bulk_control_request : Json → Result BulkError BulkRequest
unfolding normalize_fields
normalize_bulk_control_request (object _ payload) = normalize_fields payload
normalize_bulk_control_request _ = raised not_an_object

unfoldable pub normalize_bulk_control_action : String → Result BulkError Action
normalize_bulk_control_action action =
    let word = strip action in
    if lower_is word "pause"
    then ok pause
    else if lower_is word "resume"
    then ok resume
    else if lower_is word "reboot"
    then ok reboot
    else raised bad_action
