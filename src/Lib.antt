-- ===== src/Lib.antt =====
-- OpenASICManager: models of the Python application under app/, with their proofs.
--
-- The program watches and controls ASIC miners. Its state is a SQLite database, whose tables are
-- modelled as lists of rows in the order of their ids; a statement is a function on such a list
-- (`Prelude.Rows`), and a function of a repository module takes the table and gives the new one. A
-- failure of SQLite itself is not modelled. The parts:
--
--   Fleet: app/db.py (the miners table, `get_miner`), app/monitoring/service.py `poll_miner` with
--     app/monitoring/repository.py.
--   Control, Control.Policy, Control.Jobs, Control.Queue, Control.Worker, Control.Reboot: app/control.
--     A command enters by `queue_control` or `queue_reboot`, which insert a row of control_jobs and
--     submit a worker; the worker sends the command to a firmware driver, polls the miner, and ends
--     the job as VERIFIED or FAILED. The database, the audit log, the submissions to the thread pool
--     and the commands handed to a driver are the fields of one state, `ControlState`. Control.System has
--     the steps of this state, in any order: commands, writes of workers to their unfinished jobs,
--     writes elsewhere, and the recovery at a restart (app/db.py, `init_db`).
--   Anomalies.Issues: app/anomalies/repository.py, `transition_anomaly_condition` and the acknowledgement
--     of an issue, on the tables issues and anomaly_candidates. The caller's observation (the miner,
--     the code, whether it is observed, grace period, time, maintenance) is a record.
--   Anomalies.Scan: app/anomalies/service.py, `anomaly_scan`, with the tests of app/anomalies/policy.py.
--   Maintenance: app/maintenance_windows/repository.py, the tables and their statements;
--     Maintenance.Requests: app/maintenance_windows/policy.py, with a JSON body as a record of its
--     members, a number being a natural number; Maintenance.Handlers: app/api/maintenance.py, the
--     handlers that create, extend and end a window. The anomaly scan reads the snapshot of
--     `Maintenance` to hold back new issues.
--   Scheduler: app/scheduler/policy.py and app/scheduler/repository.py, when a rule acts and which rule
--     decides; Scheduler.Iteration: app/scheduler/service.py, `scheduler_iteration`, which calls
--     `queue_control` of Control.Queue. A local time is the ordinal of its day and the microseconds
--     since midnight, and `datetime.timestamp` is a parameter. Scheduler.Input, Scheduler.Table and
--     Scheduler.Api: app/scheduler/validation.py, the writes of app/scheduler/repository.py and the
--     handlers of app/api/scheduler.py, from a JSON body to the reply.
--   Control.Bulk: app/control/bulk.py, a command for chosen miners or for a group: the request
--     (Requests), the preview (Selection) and the execution (Execution), which calls the queue of
--     Control.Queue once for each miner that may take the command.
--   Groups: app/miner_groups/repository.py, the groups and which miner is in which.
--   Anomalies.Policies: app/anomalies/policy.py, the global thresholds, a group's overrides and a
--     miner's, with the changes of overrides in Patches; Policies.Store, with its children Snapshots
--     and Checks: how app/anomalies/repository.py keeps, checks and loads them.
--   Values: what the parts share of Python's values: JSON, integers below zero, `int(text)` and
--     `str(int)`.
--
-- Time, the stop flag, the replies of the firmware drivers (app/drivers), and what polls and other
-- threads write to the miners table are the environment: a worker is a function of a list of rounds,
-- one for each pass of its loop, with all that the pass reads. A theorem over every list of rounds
-- covers every run. When the rounds are used up the model says `waiting`; that seventy-three rounds
-- suffice for a pause or resume is proved from the longest timeout, 360 seconds, and the five seconds
-- of a wait. The part of the queue under its lock is one step. So is a handler of an HTTP request, with
-- its body there when it begins.
--
-- `int(text)` reads the decimal digits of ASCII only, and has no limit on their number. Numbers
-- of floating point are a parameter: a record `Floats` of the operations that the policies use, with the
-- laws that a printed number reads back and that small integers are exact. The masks of days are
-- combined as integers of SQLite, which have 63 bits beside the sign. A dict is a record of its
-- known members and the names of others; where several members are bad, the error names the first in
-- the order of the fields. A stored row of overrides holds a value of the column's type or none for
-- each field.
--
-- Texts that the program composes (log messages, event names) are data with the values put into them.
-- Text columns with a fixed vocabulary are enumerations, with a constructor for any other text where
-- the program can store one.
--
-- Not modelled: the remaining HTTP routes, recurring maintenance, discovery, telemetry, the inventory,
-- the service history and the operations calendar, which are left for later; the firmware transports,
-- Telegram, the dashboard, backup and upgrade, which are operations on devices, files and processes.
pub mod Anomalies
pub mod Control
pub mod Fleet
pub mod Groups
pub mod Maintenance
pub mod Prelude
pub mod Scheduler
pub mod Values
