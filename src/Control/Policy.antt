-- ===== src/Control/Policy.antt =====
-- Targets, timeouts and retries of the control pipeline (app/control/policy.py).
use open_asicmanager.Prelude.{ℕ, Bool, true, false, Result, ok, raised}
use open_asicmanager.Fleet.{
  Action, pause, resume, reboot, Driver, awesome, bitmain_stock, Miner, MinerState, mining, paused,
  starting, idle, unknown,
}
use open_asicmanager.Control.{Fault, invalid_control_action, invalid_action_or_driver}

abbrev pub control_awesome_retry_after : ℕ
control_awesome_retry_after = 30

abbrev pub control_awesome_pause_timeout : ℕ
control_awesome_pause_timeout = 90

abbrev pub control_awesome_resume_timeout : ℕ
control_awesome_resume_timeout = 180

abbrev pub control_stock_retry_after : ℕ
control_stock_retry_after = 60

abbrev pub control_stock_pause_timeout : ℕ
control_stock_pause_timeout = 180

abbrev pub control_stock_resume_timeout : ℕ
control_stock_resume_timeout = 360

unfoldable pub control_target : Action → Result Fault MinerState
control_target pause = ok paused
control_target resume = ok mining
control_target reboot = raised invalid_control_action

driver_timeout : Action → Driver → Result Fault ℕ
driver_timeout pause bitmain_stock = ok control_stock_pause_timeout
driver_timeout resume bitmain_stock = ok control_stock_resume_timeout
driver_timeout pause awesome = ok control_awesome_pause_timeout
driver_timeout resume awesome = ok control_awesome_resume_timeout
driver_timeout _ _ = raised invalid_action_or_driver

unfoldable pub control_timeout : Action → Miner → Result Fault ℕ
unfolding driver_timeout
control_timeout action miner = driver_timeout action miner.driver

driver_retry_after : Driver → ℕ
driver_retry_after bitmain_stock = control_stock_retry_after
driver_retry_after _ = control_awesome_retry_after

unfoldable pub control_retry_after : Miner → ℕ
unfolding driver_retry_after
control_retry_after miner = driver_retry_after miner.driver

unfoldable pub should_retry_command : Action → MinerState → Bool
should_retry_command pause mining = true
should_retry_command pause starting = true
should_retry_command pause idle = true
should_retry_command pause unknown = true
should_retry_command resume paused = true
should_retry_command resume idle = true
should_retry_command resume unknown = true
should_retry_command _ _ = false
