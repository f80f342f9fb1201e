-- ===== src/Control/Samples/Workers.antt =====
-- The workers on a concrete fleet (app/control/worker.py): their theorems applied, and runs of them.
use open_asicmanager.Prelude.{
  ℕ, zero, suc, ◌+◌, ◌≡◌, ◌≢◌, refl, inl, true, false, ◌&&◌, Option, none, some, List, [], ◌∷◌,
  arith, ok, length, All, count_rows, first_row, update_rows, if◌then◌else◌,
}
use open_asicmanager.Fleet.{
  Miner, Action, unset, MinerState, awesome, mining, paused, starting, offline, pause, reboot,
  rebooted, supported, get_miner, state_eq,
}
use open_asicmanager.Control.{ControlJob, ControlState, running}
use open_asicmanager.Control.Policy.{control_timeout}
use open_asicmanager.Control.Jobs.{
  new_job, get_control_job, set_last_command, set_status, update_control_job, abort_unfinished_jobs,
  set_fields, set_started_at,
}
use open_asicmanager.Control.Worker.{
  answered, Round, verification, finished, crashed, waiting, verified_control_worker, seconds,
  in_time, pass,
}
use open_asicmanager.Control.Jobs.Invariant.{WellFormed}
use open_asicmanager.Control.System.{
  Steps, WorkerSteps, write, restart, done, next, EndedRow, pipeline_keeps,
}
use open_asicmanager.Control.Worker.Keeps.{verified_control_worker-WorkerSteps}
use open_asicmanager.Control.Queue.{queue_control, queue_reboot}
use open_asicmanager.Control.Queue.Outcomes.{accepted?}
use open_asicmanager.Control.Worker.Stuck.{start, commanded, changed_elsewhere, lost_driver_blocks}
use open_asicmanager.Control.Worker.Row.{EndsWell}
use open_asicmanager.Control.Worker.Ends.{verified_control_worker-EndsWell}
use open_asicmanager.Control.Worker.Sends.{Issued, verified_control_worker-Issued}
use open_asicmanager.Control.Worker.Halts.{
  Paced, Undisturbed, IsFinished, verified_control_worker_halts, verified_control_worker_finishes,
}
use open_asicmanager.Control.Reboot.{
  RebootRound, RebootRun, reboot_worker, after_send, after_transition, transition_loop,
  transition_pass, return_loop, return_pass, reboot_transition_timeout, reboot_return_timeout,
}
use open_asicmanager.Control.Reboot.Phases.{
  observations, live, two_operational, verified?, reboot_shown, miners_when_shown,
}
use open_asicmanager.Control.Reboot.Ends.{reboot_worker-verified, reboot_worker-issued}
use open_asicmanager.Control.Reboot.Row.{JobRow, status_after, reboot_worker-JobRow}
use open_asicmanager.Control.Samples.{rig, fleet, runtime}

abbrev pause_job : ControlJob
pause_job = new_job rig "MANUAL" pause paused 3 1000 1

abbrev queued_pause : ControlState
queued_pause = record fleet { jobs = pause_job ∷ []; next_job = 2 }

-- A pass every five seconds; the rig pauses at the first poll.
abbrev pass_at : ℕ → Round
pass_at t = record {
  stop_set = false;
  head_time = t;
  retry_time = t;
  device = answered none;
  sent_time = t;
  wait_stopped = false;
  poll = λ ms. record rig { last_state = some paused } ∷ [];
  now = 1000;
}

passes : ℕ → ℕ → List Round
passes zero t = []
passes (suc n) t = pass_at t ∷ passes n (t + 5000)

passes-Paced : (n t : ℕ) → Paced t (passes n t)
unfolding passes
passes-Paced zero t = tt
passes-Paced (suc n) t = (inl (omega arith), passes-Paced n (t + 5000))

passes-Undisturbed : (n t : ℕ) → All (Undisturbed 7) (passes n t)
unfolding passes get_miner first_row
passes-Undisturbed zero t = tt
passes-Undisturbed (suc n) t =
    (record { no_stop = refl; kept = λ ms h. refl }, passes-Undisturbed n (t + 5000))

length-passes : (n t : ℕ) → length (passes n t) ≡ n
unfolding passes
length-passes zero t = refl
length-passes (suc n) t = omega (arith, length-passes n (t + 5000))

job_known : get_control_job 1 queued_pause ≡ some pause_job
unfolding get_control_job first_row
job_known = refl

rig_known : get_miner 7 queued_pause.miners ≡ some rig
unfolding get_miner first_row
rig_known = refl

ninety_seconds : control_timeout pause rig ≡ ok 90
unfolding control_timeout
ninety_seconds = refl

-- One pass is enough here, and the job is VERIFIED.
pause_verified : (verified_control_worker 1 1000 0 (passes 73 0) queued_pause).0 ≡ finished true
unfolding verified_control_worker in_time pass passes first_row get_miner update_rows supported
pause_verified = refl

verified_control_worker-EndsWell_example :
    let out = verified_control_worker 1 1000 0 (passes 73 0) queued_pause in
    EndsWell (verification pause_job rig 90 0) out.0 out.1
verified_control_worker-EndsWell_example =
    verified_control_worker-EndsWell pause_job rig 1000 0 90 (passes 73 0) queued_pause job_known
      refl rig_known ninety_seconds

verified_control_worker-Issued_example :
    Issued 7 pause [] 3 (verified_control_worker 1 1000 0 (passes 73 0) queued_pause).1
verified_control_worker-Issued_example =
    verified_control_worker-Issued pause_job rig 1000 0 90 (passes 73 0) queued_pause job_known
      rig_known ninety_seconds

verified_control_worker_halts_example :
    (verified_control_worker 1 1000 0 (passes 73 0) queued_pause).0 ≢ waiting
verified_control_worker_halts_example =
    verified_control_worker_halts pause_job rig 1000 0 90 (passes 73 0) queued_pause job_known
      rig_known ninety_seconds (passes-Paced 73 0) (omega (arith, length-passes 73 0))

verified_control_worker_finishes_example :
    IsFinished (verified_control_worker 1 1000 0 (passes 73 0) queued_pause).0
verified_control_worker_finishes_example =
    verified_control_worker_finishes pause_job rig 1000 0 90 (passes 73 0) queued_pause job_known
      rig_known ninety_seconds (passes-Paced 73 0) (omega (arith, length-passes 73 0))
      (passes-Undisturbed 73 0)

abbrev reboot_job : ControlJob
reboot_job = new_job rig "MANUAL" reboot rebooted 1 1000 1

abbrev queued_reboot : ControlState
queued_reboot = record fleet { jobs = reboot_job ∷ []; next_job = 2 }

abbrev poll_to : ℕ → Option MinerState → RebootRound
poll_to t state = record {
  stop_set = false;
  head_time = t;
  wait_stopped = false;
  poll = λ ms. record rig { last_state = state } ∷ [];
  now = 1000;
}

abbrev reboot_run : RebootRun
reboot_run = record {
  now = 1000;
  device = answered none;
  sent_time = 0;
  transition_rounds = poll_to 0 (some mining) ∷ poll_to 5000 (some offline) ∷ [];
  seen_time = 10000;
  return_rounds =
      poll_to 10000 (some mining)
      ∷ poll_to 15000 (some starting)
      ∷ poll_to 20000 (some mining)
      ∷ poll_to 25000 (some mining)
      ∷ [];
}

reboot_known : get_control_job 1 queued_reboot ≡ some reboot_job
unfolding get_control_job first_row
reboot_known = refl

rig_known' : get_miner 7 queued_reboot.miners ≡ some rig
unfolding get_miner first_row
rig_known' = refl

rig_supported : supported rig.driver ≡ true
unfolding supported
rig_supported = refl

reboot_verified : verified? (reboot_worker 1 reboot_run queued_reboot).0 ≡ true
unfolding reboot_worker after_send after_transition transition_loop transition_pass return_loop
    return_pass first_row get_miner update_rows supported state_eq
reboot_verified = refl

reboot_worker-verified_example :
    let before = (set_last_command 7 reboot 1000 queued_reboot).miners in
    let first = live (0 + seconds reboot_transition_timeout) reboot_run.transition_rounds in
    let second = live (10000 + seconds reboot_return_timeout) reboot_run.return_rounds in
    verified? (reboot_worker 1 reboot_run queued_reboot).0 ≡ (
      reboot_shown mining (observations 7 before first)
      && two_operational (observations 7 (miners_when_shown 7 mining before first) second))
reboot_worker-verified_example =
    reboot_worker-verified reboot_job rig reboot_run none queued_reboot reboot_known rig_known'
      rig_supported refl

reboot_worker-issued_example :
    (reboot_worker 1 reboot_run queued_reboot).1.issued
    ≡ (if supported awesome then (7, reboot) ∷ [] else [])
reboot_worker-issued_example =
    reboot_worker-issued reboot_job rig reboot_run queued_reboot reboot_known rig_known'

reboot_worker-JobRow_example :
    let out = reboot_worker 1 reboot_run queued_reboot in JobRow 1 (status_after out.0) out.1
reboot_worker-JobRow_example =
    reboot_worker-JobRow reboot_job rig reboot_run queued_reboot reboot_known rig_known'

queued_pause-WellFormed : WellFormed queued_pause
unfolding count_rows
queued_pause-WellFormed = record {
  one_active = λ m. ground arith;
  distinct_ids = λ i. ground arith;
  fresh_id = (omega arith, tt);
}

verified_control_worker-WorkerSteps_example :
    let t = (verified_control_worker 1 1000 0 (passes 73 0) queued_pause).1 in
    WellFormed t × WorkerSteps 1 queued_pause t × Steps queued_pause t
verified_control_worker-WorkerSteps_example =
    verified_control_worker-WorkerSteps pause_job 1000 0 (passes 73 0) queued_pause
      queued_pause-WellFormed job_known refl

-- A worker's first write, and a restart.
abbrev running_pause : ControlState
running_pause = update_control_job 1 (set_status running ∷ []) queued_pause

pipeline_keeps_example :
    WellFormed (abort_unfinished_jobs 2000 running_pause)
    × ((i : ℕ) (row : ControlJob)
        → EndedRow i row queued_pause
        → EndedRow i row (abort_unfinished_jobs 2000 running_pause))
pipeline_keeps_example =
    pipeline_keeps queued_pause (abort_unfinished_jobs 2000 running_pause) queued_pause-WellFormed (
      next queued_pause running_pause _
        (next queued_pause queued_pause running_pause (done queued_pause)
          (write 1 (set_status running ∷ []) queued_pause pause_job job_known refl))
        (restart 2000 running_pause))

-- The rig's firmware was unset after its job was queued.
abbrev unset_rig : Miner
unset_rig = record rig { driver = unset }

abbrev lost_fleet : ControlState
lost_fleet = record queued_pause { miners = unset_rig ∷ [] }

-- The miner is given back its firmware, and a command for it is refused.
abbrev after_crash : ControlState
after_crash = (verified_control_worker 1 1000 0 [] lost_fleet).1

abbrev restored : ControlState
restored = record after_crash { miners = rig ∷ [] }

lost_driver_blocks_example :
    ((verified_control_worker 1 1000 0 [] lost_fleet).0 ≡ crashed)
    × (get_control_job 1 (queue_control runtime 1500 7 Action.resume true restored).1
        ≡ some (set_fields (set_status running ∷ set_started_at 1000 ∷ []) pause_job))
    × (accepted? (
          queue_control runtime 2000 7 pause true
            (queue_control runtime 1500 7 Action.resume true restored).1)
        ≡ false)
    × (accepted?
          (queue_reboot runtime 2000 7 (queue_control runtime 1500 7 Action.resume true restored).1)
        ≡ false)
unfolding get_control_job get_miner first_row supported
lost_driver_blocks_example =
    lost_driver_blocks pause_job unset_rig 1000 0 [] lost_fleet
      (queue_control runtime 1500 7 Action.resume true restored).1 runtime 2000 pause true refl refl
      refl
      (commanded after_crash restored runtime 1500 7 Action.resume true
        (changed_elsewhere after_crash after_crash restored (start after_crash) refl refl))
