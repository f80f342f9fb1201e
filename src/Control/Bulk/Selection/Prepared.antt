-- ===== src/Control/Bulk/Selection/Prepared.antt =====
-- What a selection hands to the run of a bulk command (app/control/bulk.py).
use open_asicmanager.Prelude.{
  ◌≡◌, refl, List, map, All, length, count_rows, raise_if, Ensures, Ensures-map, ltb, bind-Ensures,
  then-Ensures, ensured,
}
use open_asicmanager.Groups.{Group, get_group}
use open_asicmanager.Values.{Json, null, boolean, integer, float, text, array, object, get}
use open_asicmanager.Control.{ControlState}
use open_asicmanager.Control.Bulk.Requests.{normalize_bulk_control_request}
use open_asicmanager.Control.Bulk.Requests.Sorted.{IsAscending}
use open_asicmanager.Control.Bulk.Requests.Accepted.{
  Honours, Chooses, normalize_bulk_control_request-Honours,
}
use open_asicmanager.Control.Bulk.{
  group_empty, group_too_large, Chosen, chosen_miners, chosen_group,
}
use open_asicmanager.Control.Bulk.Selection.{
  select_chosen, found_group, no_rows, list_bulk_control_miners_by_group, Internal, public_of,
  is_eligible, Resolved, resolve_bulk_control_selection,
}
use open_asicmanager.Control.Bulk.Selection.Rows.{
  NoRepeat, IsCurrent, ids_of, target_ids, by_ids-IsCurrent, by_group-IsCurrent,
  IsAscending-NoRepeat,
}

abbrev Ascends : Chosen → Type 0
Ascends (chosen_miners ids) = IsAscending ids
Ascends (chosen_group group_id) = Unit

honoured-Ascends : (v w : Json) (c : Chosen) → Honours v w c → Ascends c
honoured-Ascends v w (chosen_miners ids) h = h.0
honoured-Ascends v w (chosen_group g) h = tt

request-Ascends :
    (payload : Json) → Ensures (λ r. Ascends r.chosen) (normalize_bulk_control_request payload)
unfolding normalize_bulk_control_request
request-Ascends (object printed fs) =
    Ensures-map (Chooses (get "miner_ids" fs) (get "group_id" fs)) (λ r. Ascends r.chosen)
      (normalize_bulk_control_request (object printed fs)) (λ r h. honoured-Ascends _ _ r.chosen h)
      (normalize_bulk_control_request-Honours printed fs)
request-Ascends null = tt
request-Ascends (boolean b) = tt
request-Ascends (integer n) = tt
request-Ascends (float x) = tt
request-Ascends (text s) = tt
request-Ascends (array _ xs) = tt

-- The targets of a selection: no id twice, each as it was read.
abbrev pub Served : ControlState → List Internal → Type 0
Served s targets = NoRepeat (target_ids targets) × All (IsCurrent s) targets

chosen-Served :
    (c : Chosen) (groups : List Group) (s : ControlState)
    → NoRepeat (ids_of s.miners)
    → Ascends c
    → Ensures (λ selected. Served s selected.1) (select_chosen c groups s)
unfolding select_chosen
chosen-Served (chosen_miners ids) groups s u a =
    by_ids-IsCurrent ids groups s (IsAscending-NoRepeat ids a)
chosen-Served (chosen_group group_id) groups s u a =
    bind-Ensures _ (found_group (get_group group_id groups)) _ (λ g h1.
      then-Ensures _
        (raise_if (no_rows (list_bulk_control_miners_by_group group_id groups s)) group_empty) _
        (λ h2.
          then-Ensures _
            (raise_if (ltb 50 (length (list_bulk_control_miners_by_group group_id groups s)))
              (group_too_large (length (list_bulk_control_miners_by_group group_id groups s))))
            _ (λ h3. by_group-IsCurrent group_id groups s u)))

abbrev pub Prepared : ControlState → Resolved → Type 0
Prepared s r =
    Served s r.targets
    × (r.public_targets ≡ map public_of r.targets)
    × (r.eligible_count ≡ count_rows is_eligible r.public_targets)

pub resolved-Prepared :
    (payload : Json) (groups : List Group) (s : ControlState)
    → NoRepeat (ids_of s.miners)
    → Ensures (Prepared s) (resolve_bulk_control_selection payload groups s)
unfolding resolve_bulk_control_selection
resolved-Prepared payload groups s u =
    bind-Ensures (Prepared s) (normalize_bulk_control_request payload) _ (λ request h1.
      bind-Ensures (Prepared s) (select_chosen request.chosen groups s) _ (λ selected h2. (
        ensured (λ z. Served s z.1) (select_chosen request.chosen groups s)
            (chosen-Served request.chosen groups s u (
              ensured (λ r. Ascends r.chosen) (normalize_bulk_control_request payload)
                (request-Ascends payload) h1))
            h2,
        refl,
        refl,
      )))
