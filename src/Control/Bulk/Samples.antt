-- ===== src/Control/Bulk/Samples.antt =====
-- A bulk command on a concrete fleet (app/control/bulk.py): the theorems applied, and runs.
use open_asicmanager.Prelude.{
  strip, is_space, Bool, ◌≡◌, refl, true, false, List, [], ◌∷◌, ok, raised, Result, map, Ensures,
  select, first_row, last_row,
}
use open_asicmanager.Fleet.{supported}
use open_asicmanager.Values.{
  Json, integer, array, object, Fields, Items, item, end, field, empty, get, keys, positive_int,
  elements,
}
use open_asicmanager.Values.Integers.{pos}
use open_asicmanager.Control.Samples.{fleet, runtime, fleet-WellFormed}
use open_asicmanager.Control.Jobs.Invariant.{WellFormed}
use open_asicmanager.Control.Bulk.{BulkError}
use open_asicmanager.Control.Bulk.Requests.{
  normalize_bulk_control_request, normalize_bulk_control_action, sorted, member, bulk_positive_int,
}
use open_asicmanager.Values.Numerals.{reads, to_lower}
use open_asicmanager.Control.Jobs.{get_active_control_job}
use open_asicmanager.Groups.{get_group}
use open_asicmanager.Control.Queue.{queue_control}
use open_asicmanager.Control.Bulk.Requests.Accepted.{
  Chooses, normalize_bulk_control_request-Honours,
}
use open_asicmanager.Control.Bulk.Selection.{
  bulk_control_preview, resolve_bulk_control_selection, targets_of_ids, public_target,
  list_bulk_control_miners_by_ids, bulk_row, eligibility,
}
use open_asicmanager.Control.Bulk.Execution.{
  execute_bulk_control, BulkReport, was_accepted, serve_all, serve, call_queue,
}
use open_asicmanager.Control.Bulk.Execution.Keeps.{execute_bulk_control-WellFormed}
use open_asicmanager.Control.Bulk.Execution.Delivery.{Agrees, execute_bulk_control-Agrees}

-- An unknown miner, and the rig.
abbrev two : Items
two = item (integer (pos 9)) (item (integer (pos 7)) end)

abbrev members : Fields
members = field "miner_ids" (array "[9, 7]" two) empty

abbrev payload : Json
payload = object "{'miner_ids': [9, 7]}" members

normalize_bulk_control_request-Honours_example :
    Ensures
      (Chooses (get "miner_ids" members) (get "group_id" members))
      (normalize_bulk_control_request payload)
normalize_bulk_control_request-Honours_example =
    normalize_bulk_control_request-Honours "{'miner_ids': [9, 7]}" members

execute_bulk_control-WellFormed_example :
    WellFormed (execute_bulk_control runtime (λ i. 1000) "Pause" payload [] fleet).1
execute_bulk_control-WellFormed_example =
    execute_bulk_control-WellFormed runtime (λ i. 1000) "Pause" payload [] fleet fleet-WellFormed

execute_bulk_control-Agrees_example :
    Agrees fleet
      (bulk_control_preview "Pause" payload [] fleet)
      (execute_bulk_control runtime (λ i. 1000) "Pause" payload [] fleet)
execute_bulk_control-Agrees_example =
    execute_bulk_control-Agrees runtime (λ i. 1000) "Pause" payload [] fleet (tt, tt)

abbrev flags : Result BulkError BulkReport → List Bool
flags (ok r) = map was_accepted r.results
flags (raised e) = []

-- The rig comes first, and is paused; the unknown miner is not.
rig_paused :
    flags (execute_bulk_control runtime (λ i. 1000) "Pause" payload [] fleet).0 ≡ true ∷ false ∷ []
unfolding execute_bulk_control normalize_bulk_control_action reads strip is_space to_lower
    resolve_bulk_control_selection normalize_bulk_control_request keys get positive_int serve_all
    targets_of_ids sorted public_target first_row list_bulk_control_miners_by_ids select serve
    bulk_positive_int member bulk_row eligibility get_active_control_job supported get_group
    last_row elements queue_control call_queue
rig_paused = refl
