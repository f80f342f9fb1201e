-- ===== src/Control/Bulk/Execution/Keeps.antt =====
-- A bulk command keeps the jobs table well formed (app/control/bulk.py).
use open_asicmanager.Prelude.{ℕ, String, List, [], ◌∷◌, Result, ok, raised}
use open_asicmanager.Fleet.{Action}
use open_asicmanager.Groups.{Group}
use open_asicmanager.Values.{Json}
use open_asicmanager.Control.{ControlState}
use open_asicmanager.Control.Jobs.Invariant.{WellFormed}
use open_asicmanager.Control.Queue.{QueueRuntime}
use open_asicmanager.Control.Bulk.{BulkError}
use open_asicmanager.Control.Bulk.Selection.{Internal, Resolved, public_of}
use open_asicmanager.Control.Bulk.Execution.{
  serve, serve_all, execute_checks, run_checked, execute_bulk_control,
}
use open_asicmanager.Control.Bulk.Execution.Frame.{serve_public-WellFormed}

module _ (rt : QueueRuntime) (now : ℕ → ℕ) where
  serve_all-WellFormed :
      (a : Action) (targets : List Internal) (s : ControlState)
      → WellFormed s
      → WellFormed (serve_all rt now a targets s).1
  unfolding serve_all
  serve_all-WellFormed a [] s w = w
  serve_all-WellFormed a (t ∷ targets) s w =
      serve_all-WellFormed a targets (serve rt now a t s).1
        (serve_public-WellFormed rt now a (public_of t) (public_of t).rejection s w)

  run_checked-WellFormed :
      (r : Result BulkError (Action × Resolved)) (s : ControlState)
      → WellFormed s
      → WellFormed (run_checked rt now r s).1
  unfolding run_checked
  run_checked-WellFormed (raised e) s w = w
  run_checked-WellFormed (ok (a, resolved)) s w = serve_all-WellFormed a resolved.targets s w

  -- Whatever a bulk request asks for, accepted, partly refused or an error, the jobs table keeps its
  -- invariant: at most one unfinished job for each miner, no id used twice, the next id new.
  pub execute_bulk_control-WellFormed :
      (word : String) (payload : Json) (groups : List Group) (s : ControlState)
      → WellFormed s
      → WellFormed (execute_bulk_control rt now word payload groups s).1
  unfolding execute_bulk_control
  execute_bulk_control-WellFormed word payload groups s w =
      run_checked-WellFormed (execute_checks word payload groups s) s w
