-- ===== src/Control/Samples.antt =====
-- The control pipeline on a concrete fleet. Here the queue: its theorems applied, and runs of it. The
-- workers are in the module below.
mod Workers
use open_asicmanager.Prelude.{
  ℕ, zero, suc, ◌+◌, ◌≤◌, ◌≡◌, ◌≢◌, refl, inl, Bool, true, false, ◌&&◌, Option, none, some, List,
  [], ◌∷◌, ◌++◌, arith, ok, length, All, count_rows, first_row, last_row, update_rows, Result,
  raised,
}
use open_asicmanager.Fleet.{
  Miner, awesome, bitmain_stock, mining, paused, offline, unset, pause, resume, reboot, supported,
  get_miner, update_miner, Reading, read, unreachable, poll_miner,
}
use open_asicmanager.Control.{
  ControlJob, queued, verified, aborted, ControlState, job_target,
  verified_control_worker as submitted_worker,
}
use open_asicmanager.Control.Policy.{
  control_target, control_timeout, control_retry_after, should_retry_command,
}
use open_asicmanager.Control.Jobs.{
  new_job, get_control_job, get_active_control_job, update_control_job, set_last_command,
  abort_unfinished_jobs, create_control_job,
}
use open_asicmanager.Control.Jobs.Invariant.{WellFormed}
use open_asicmanager.Control.Queue.{
  QueueRuntime, control_max_attempts, queued_event, queue_control, queue_reboot,
}
use open_asicmanager.Control.Queue.OneActive.{queue_control-WellFormed}
use open_asicmanager.Control.Queue.Outcomes.{
  accepted?, control_action?, ready?, idle?, source_of, overridden, queue_control-accepts,
  queue_control_refused, queue_control_queues,
}
use open_asicmanager.Control.Worker.{
  answered, refused, Round, Verification, verification, WorkerEnd, finished, waiting,
  verified_control_worker, pass, need_send, verify_loop, in_time, finish_control_job,
}

abbrev pub rig : Miner
rig = record {
  id = 7;
  name = "rig-7";
  ip = "10.0.0.7";
  driver = awesome;
  enabled = true;
  schedule_enabled = true;
  group_id = none;
  manual_override_until = none;
  last_state = some mining;
  last_seen = some 1000;
  last_error = none;
  last_action = none;
  last_action_at = none;
}

abbrev pub fleet : ControlState
fleet = record { miners = rig ∷ []; jobs = []; next_job = 1; log = []; submitted = []; issued = [] }

abbrev pub runtime : QueueRuntime
runtime = record { audit_source = λ source. source; next_transition = λ miner_id. some 5000 }

pub fleet-WellFormed : WellFormed fleet
unfolding count_rows
fleet-WellFormed = record {
  one_active = λ m. omega arith;
  distinct_ids = λ i. omega arith;
  fresh_id = tt;
}

abbrev pub pausing : ControlState
pausing = (queue_control runtime 1000 7 pause true fleet).1

queue_control-WellFormed_example : WellFormed pausing
queue_control-WellFormed_example =
    queue_control-WellFormed runtime 1000 7 pause true fleet fleet-WellFormed

pausing_accepted : accepted? (queue_control runtime 1000 7 pause true fleet) ≡ true
unfolding queue_control first_row last_row supported
pausing_accepted = refl

queue_control-accepts_example :
    accepted? (queue_control runtime 1000 7 resume false pausing)
    ≡ (true && ready? (get_miner 7 pausing.miners) && idle? (get_active_control_job 7 pausing))
queue_control-accepts_example = queue_control-accepts runtime 1000 7 resume false pausing

second_refused : accepted? (queue_control runtime 1001 7 resume false pausing) ≡ false
unfolding queue_control first_row last_row supported update_rows update_miner
second_refused = refl

queue_control_refused_example : (queue_control runtime 1001 7 resume false pausing).1 ≡ pausing
queue_control_refused_example =
    queue_control_refused runtime 1001 7 resume false pausing second_refused

known : get_miner 7 fleet.miners ≡ some rig
unfolding first_row get_miner
known = refl

queue_control_queues_example :
    let out = queue_control runtime 1000 7 pause true fleet in
    let job = new_job rig (source_of runtime true) pause paused control_max_attempts 1000 1 in
    (out.0
      ≡ ok (record {
        accepted = true;
        already_active = false;
        job_id = 1;
        status = queued;
        action = pause;
        target_state = paused;
      }))
    × (get_control_job 1 out.1 ≡ some job)
    × (get_active_control_job 7 out.1 ≡ some job)
    × (get_miner 7 out.1.miners ≡ some (overridden runtime true rig))
    × (out.1.submitted ≡ submitted_worker 1 ∷ [])
    × (out.1.log ≡ queued_event (source_of runtime true) pause rig (job_target 1 paused) ∷ [])
unfolding control_target supported get_active_control_job last_row
queue_control_queues_example =
    queue_control_queues runtime 1000 rig pause paused true fleet fleet-WellFormed known refl refl
      refl refl
