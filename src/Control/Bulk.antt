-- ===== src/Control/Bulk.antt =====
-- Bulk control (app/control/bulk.py): one command for a list of miners or for a group. The parts: the
-- request (`Requests`), the selected miners and the preview (`Selection`), and the run over them
-- (`Execution`), which calls the queue of `Control.Queue`. The laws are in the modules below these.
pub mod Requests
pub mod Selection
pub mod Execution
mod Samples
use open_asicmanager.Prelude.{ℕ, String, Bool, Option, List}

abbrev pub bulk_control_max_targets : ℕ
bulk_control_max_targets = 50

-- BulkControlValidationError, by its text. The unknown names stand in the order of the body.
pub data BulkError : Type 0 where
  not_an_object one_selection confirm_not_boolean ids_not_array ids_empty : BulkError
  ids_duplicate too_many bad_action group_not_found group_empty confirm_required : BulkError
  unknown_fields : List String → BulkError
  not_positive : String → BulkError
  group_too_large : ℕ → BulkError

-- selection_type with what it selects.
pub data Chosen : Type 0 where
  chosen_miners : List ℕ → Chosen
  chosen_group : ℕ → Chosen

pub record BulkRequest : Type 0 where
  pub chosen : Chosen
  pub confirm_reboot : Bool
