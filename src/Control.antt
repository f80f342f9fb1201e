-- ===== src/Control.antt =====
-- The control pipeline (app/control). Here its data: a row of control_jobs, the audit events that
-- the pipeline writes, and the state that queue and workers share. Texts that the program builds
-- (`message`, `action` of an event) are data with the values that are put into them.
pub mod Policy
pub mod Jobs
pub mod Queue
pub mod Worker
pub mod Reboot
pub mod System
pub mod Bulk
mod Samples
use open_asicmanager.Prelude.{ℕ, String, Bool, Option, List}
use open_asicmanager.Fleet.{Action, Driver, Miner, MinerState}

pub data JobStatus : Type 0 where
  queued running verified failed aborted : JobStatus

-- The RuntimeErrors of the pipeline, by their texts.
pub data Fault : Type 0 where
  invalid_control_action invalid_action_or_driver invalid_action : Fault
  no_such_miner asic_disabled firmware_not_configured reboot_unsupported : Fault

-- Why bulk control does not queue a target: rejection_code with its reason. `not_accepted` is the
-- RuntimeError of bulk control itself.
pub data Rejection : Type 0 where
  not_found disabled unsupported_driver has_active_job not_accepted : Rejection
  queue_error : Fault → Rejection

-- The texts written to control_jobs.message and action_log.message.
pub data Message : Type 0 where
  miner_not_found restarted : Message
  waiting_for : MinerState → MinerState → ℕ → ℕ → Message
  verified_target : MinerState → ℕ → Message
  not_sent : ℕ → String → Message
  verification_timeout : MinerState → MinerState → ℕ → Message
  sending_reboot transition_not_observed return_timeout : Message
  reboot_not_sent : String → Message
  waiting_transition : MinerState → Message
  waiting_return : MinerState → ℕ → Message
  reboot_verified : MinerState → MinerState → ℕ → Message
  job_target : ℕ → MinerState → Message
  job_reboot : ℕ → Message
  attempt_sent : ℕ → Option String → Message
  attempt_raised : ℕ → String → Message
  reboot_sent : Option String → Message
  transition_observed : MinerState → Message
  bulk_rejected : Rejection → Option ℕ → Message
  bulk_queue_failure : Rejection → Message

pub record ControlJob : Type 0 where
  pub id : ℕ
  pub created_at : ℕ
  pub started_at : Option ℕ
  pub completed_at : Option ℕ
  pub miner_id : ℕ
  pub ip : String
  pub name : String
  pub source : String
  pub action : Action
  pub target_state : MinerState
  pub status : JobStatus
  pub attempts : ℕ
  pub max_attempts : ℕ
  pub final_state : Option MinerState
  pub message : Option Message

-- f"{action.upper()}_QUEUED" and its like.
pub data EventName : Type 0 where
  action_queued action_sent action_retry action_send_failed : Action → EventName
  action_verified action_failed : Action → EventName
  reboot_transition : EventName
  bulk_action_rejected : Action → EventName

pub record LogEvent : Type 0 where
  pub source : String
  pub event : EventName
  pub miner : Option Miner
  pub success : Bool
  pub text : Message

-- What is handed to the thread pool.
pub data Submission : Type 0 where
  verified_control_worker reboot_worker : ℕ → Submission

-- `next_job` is the id that AUTOINCREMENT gives next, and `issued` lists the commands that were
-- handed to a firmware driver, in order.
pub record ControlState : Type 0 where
  pub miners : List Miner
  pub jobs : List ControlJob
  pub next_job : ℕ
  pub log : List LogEvent
  pub submitted : List Submission
  pub issued : List (ℕ × Action)
