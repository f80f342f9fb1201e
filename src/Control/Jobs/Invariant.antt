-- ===== src/Control/Jobs/Invariant.antt =====
-- The invariant of the control_jobs table, and what each statement on the table does to it.
use open_asicmanager.Prelude.{
  sym, subst, ℕ, ◌+◌, ◌≤◌, ◌<◌, String, ◌≡◌, refl, ◌∙◌, ap, true, none, some, List, [], ◌∷◌, arith,
  ==_iff, All, update_rows, count_rows, count-append, count-update-le, first-update_self,
  first-update_ne, ◌≢◌, count_of_last_none, unique_row, count-update-le_All, All-update, All-append,
  All-map,
}
use open_asicmanager.Fleet.{Action, Miner, MinerState}
use open_asicmanager.Control.{ControlJob, ControlState}
use open_asicmanager.Control.Jobs.{
  is_job, is_active, active_job, active_for, get_control_job, get_active_control_job, JobField,
  set_started_at, set_field, set_fields, update_control_job, new_job, create_control_job, abort_job,
  abort_unfinished_jobs,
}

abbrev pub IsBelow : ℕ → ControlJob → Type 0
IsBelow n j = j.id < n

-- At most one job of a miner is queued or running, ids are not used twice, and the next id is new.
pub record WellFormed (s : ControlState) : Type 0 where
  pub one_active : (m : ℕ) → count_rows (active_for m) s.jobs ≤ 1
  pub distinct_ids : (i : ℕ) → count_rows (is_job i) s.jobs ≤ 1
  pub fresh_id : All (IsBelow s.next_job) s.jobs

count_of_below :
    (i n : ℕ) (xs : List ControlJob) → All (IsBelow n) xs → n ≤ i → count_rows (is_job i) xs ≡ 0
unfolding count_rows
count_of_below i n [] h le = refl
count_of_below i n (x ∷ xs) h le = ground (arith, count_of_below i n xs h.1 le, h.0)

pub create-WellFormed :
    (miner : Miner) (source : String) (action : Action) (target : MinerState) (max_attempts now : ℕ)
    (s : ControlState)
    → get_active_control_job miner.id s ≡ none
    → WellFormed s
    → WellFormed (create_control_job miner source action target max_attempts now s)
unfolding create_control_job get_active_control_job count_rows
create-WellFormed miner source action target max_attempts now s idle w = record {
  one_active = λ m. ground (
    arith,
    count-append (active_for m) s.jobs (new ∷ []),
    w.one_active m,
    count_of_last_none (active_for miner.id) s.jobs idle,
    ==_iff miner.id m,
    ap (λ k. count_rows (active_for k) s.jobs) {x = miner.id} {y = m},
  );
  distinct_ids = λ i. ground (
    arith,
    count-append (is_job i) s.jobs (new ∷ []),
    w.distinct_ids i,
    count_of_below i s.next_job s.jobs w.fresh_id,
  );
  fresh_id =
      All-append (IsBelow (s.next_job + 1)) s.jobs (new ∷ [])
        (All-map (IsBelow s.next_job) (IsBelow (s.next_job + 1)) s.jobs (λ j h. omega arith)
          w.fresh_id)
        (omega arith, tt);
}
  where
    new : ControlJob
    new = new_job miner source action target max_attempts now s.next_job

set_field_keys :
    (x : JobField) (j : ControlJob)
    → ((set_field x j).id ≡ j.id) × ((set_field x j).miner_id ≡ j.miner_id)
unfolding set_field
set_field_keys (set_started_at t) j = ground arith
set_field_keys _ j = ground arith

-- An UPDATE of a job keeps its id and its miner.
pub set_fields_keys :
    (fields : List JobField) (j : ControlJob)
    → ((set_fields fields j).id ≡ j.id) × ((set_fields fields j).miner_id ≡ j.miner_id)
unfolding set_fields
set_fields_keys [] j = ground arith
set_fields_keys (x ∷ xs) j = ground (arith, set_field_keys x j, set_fields_keys xs (set_field x j))

-- Whether an UPDATE of the job wakes a job that had ended.
abbrev pub KeepsEnded : ℕ → List JobField → ControlState → Type 0
KeepsEnded job_id fields s =
    All
      (λ j.
        is_job job_id j ≡ true
        → is_active (set_fields fields j).status ≡ true
        → is_active j.status ≡ true)
      s.jobs

pub update-WellFormed :
    (job_id : ℕ) (fields : List JobField) (s : ControlState)
    → KeepsEnded job_id fields s
    → WellFormed s
    → WellFormed (update_control_job job_id fields s)
unfolding update_control_job
update-WellFormed job_id fields s keeps w = record {
  one_active = λ m. omega (
    arith,
    w.one_active m,
    count-update-le_All (active_for m) (is_job job_id) (set_fields fields) s.jobs (
        All-map
          (λ j.
            is_job job_id j ≡ true
            → is_active (set_fields fields j).status ≡ true
            → is_active j.status ≡ true)
          (λ j.
            is_job job_id j ≡ true
            → active_for m (set_fields fields j) ≡ true
            → active_for m j ≡ true)
          s.jobs (λ j h e a. ground (arith, h, set_fields_keys fields j)) keeps),
  );
  distinct_ids = λ i. omega (
    arith,
    w.distinct_ids i,
    count-update-le (is_job i) (is_job job_id) (set_fields fields) s.jobs
        (λ j e. ground (arith, set_fields_keys fields j)),
  );
  fresh_id =
      All-update (IsBelow s.next_job) (is_job job_id) (set_fields fields) s.jobs
        (λ j h. omega (arith, set_fields_keys fields j)) w.fresh_id;
}

-- While the job is active, any UPDATE of it keeps the invariant.
pub KeepsEnded-of_active :
    (job_id : ℕ) (fields : List JobField) (s : ControlState) {job : ControlJob}
    → WellFormed s
    → get_control_job job_id s ≡ some job
    → is_active job.status ≡ true
    → KeepsEnded job_id fields s
unfolding get_control_job
KeepsEnded-of_active job_id fields s {job} w found active =
    All-map (λ j. is_job job_id j ≡ true → j ≡ job)
      (λ j.
        is_job job_id j ≡ true
        → is_active (set_fields fields j).status ≡ true
        → is_active j.status ≡ true)
      s.jobs (λ j h e a. rw (h e) active)
      (unique_row (is_job job_id) s.jobs found (w.distinct_ids job_id))

-- The recovery at start ends every unfinished job.
pub abort-WellFormed :
    (now : ℕ) (s : ControlState) → WellFormed s → WellFormed (abort_unfinished_jobs now s)
unfolding abort_unfinished_jobs
abort-WellFormed now s w = record {
  one_active = λ m. omega (
    arith,
    w.one_active m,
    count-update-le (active_for m) active_job (abort_job now) s.jobs (λ j e. ground arith),
  );
  distinct_ids = λ i. omega (
    arith,
    w.distinct_ids i,
    count-update-le (is_job i) active_job (abort_job now) s.jobs (λ j e. ground arith),
  );
  fresh_id =
      All-update (IsBelow s.next_job) active_job (abort_job now) s.jobs (λ j h. h) w.fresh_id;
}

count-abort :
    (now : ℕ) (xs : List ControlJob)
    → count_rows active_job (update_rows active_job (abort_job now) xs) ≡ 0
unfolding count_rows update_rows
count-abort now [] = refl
count-abort now (x ∷ xs) = ground (arith, count-abort now xs)

pub abort_leaves_none_active :
    (now : ℕ) (s : ControlState) → count_rows active_job (abort_unfinished_jobs now s).jobs ≡ 0
unfolding abort_unfinished_jobs
abort_leaves_none_active now s = count-abort now s.jobs

-- Reading a job after an UPDATE of it.
pub found-update :
    (i : ℕ) (fields : List JobField) (s : ControlState) {row : ControlJob}
    → get_control_job i s ≡ some row
    → get_control_job i (update_control_job i fields s) ≡ some (set_fields fields row)
unfolding get_control_job update_control_job
found-update i fields s h =
    first-update_self (is_job i) (set_fields fields) s.jobs
      (λ j e. ground (arith, set_fields_keys fields j))
    ∙ rw h refl

-- Reading another job.
pub found-update_ne :
    (i k : ℕ) (fields : List JobField) (s : ControlState)
    → i ≢ k
    → get_control_job k (update_control_job i fields s) ≡ get_control_job k s
unfolding get_control_job update_control_job
found-update_ne i k fields s ne =
    first-update_ne (is_job k) (is_job i) (set_fields fields) s.jobs
      (λ j e. ground (arith, set_fields_keys fields j))

-- The invariant reads the jobs and the next id only.
pub same-WellFormed :
    (s t : ControlState) → t.jobs ≡ s.jobs → t.next_job ≡ s.next_job → WellFormed s → WellFormed t
same-WellFormed s t e f w = record {
  one_active = λ m. subst (λ js. count_rows (active_for m) js ≤ 1) (sym e) (w.one_active m);
  distinct_ids = λ i. subst (λ js. count_rows (is_job i) js ≤ 1) (sym e) (w.distinct_ids i);
  fresh_id =
      subst (λ n. All (IsBelow n) t.jobs) (sym f)
        (subst (λ js. All (IsBelow s.next_job) js) (sym e) w.fresh_id);
}
