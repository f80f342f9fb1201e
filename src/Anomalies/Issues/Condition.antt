-- ===== src/Anomalies/Issues/Condition.antt =====
-- The condition of a miner and a code as the tables of app/anomalies/repository.py show it, and its
-- abstract steps.
use open_asicmanager.Prelude.{
  ℕ, ◌+◌, ◌≡◌, refl, ap, ◌∙◌, Bool, true, false, ◌&&◌, Option, none, some, arith, ◌==◌, ==_refl,
  leb, if◌then◌else◌, All, All-always, map_row, last_row, first_row, update_rows, last_row-In,
  unique-In, last-update,
}
use open_asicmanager.Anomalies.Issues.{
  IssueCode, code_eq, Issue, IssueState, Candidate, active_for, candidate_for, is_issue,
  active_issue, candidate, Observation, seen_again, new_issue, new_candidate, refresh_issue,
}
use open_asicmanager.Anomalies.Issues.Invariant.{WellFormed, code_eq_refl}

-- The abstract state of a miner and a code.
pub data Condition : Type 0 where
  clear : Condition
  pending : ℕ → Condition  -- since
  alarmed : ℕ → ℕ → Condition  -- the issue's id, and since when the condition was seen

abbrev pub condition : Option Issue → Option Candidate → Condition
condition (some i) c = alarmed i.id i.first_seen
condition none (some c) = pending c.since_ts
condition none none = clear

unfoldable pub view : ℕ → IssueCode → IssueState → Condition
view m c s = condition (active_issue m c s) (candidate m c s)

-- The abstract step, with the id of a new issue.
abbrev pub step_pending : Observation → ℕ → ℕ → Condition
step_pending o n t =
    if o.suppress_new
    then clear
    else if leb (t + o.grace_seconds) o.now
    then alarmed n t
    else pending t

abbrev pub step_observed : Observation → ℕ → Condition → Condition
step_observed o n (alarmed i t) = alarmed i t
step_observed o n (pending t) = step_pending o n t
step_observed o n clear = if o.suppress_new then clear else pending o.now

abbrev pub step : Observation → ℕ → Condition → Condition
step o n c = if o.observed then step_observed o n c else clear

abbrev pub is_alarmed : Condition → Bool
is_alarmed (alarmed i t) = true
is_alarmed _ = false

abbrev pub same_key : Observation → ℕ → IssueCode → Bool
same_key o m c = o.miner.id == m && code_eq o.code c

-- A condition does not see the fields that an UPDATE of an issue sets.
pub condition-map :
    (q : Issue → Bool) (f : Issue → Issue) (a : Option Issue) (k : Option Candidate)
    → ((x : Issue) → ((f x).id ≡ x.id) × ((f x).first_seen ≡ x.first_seen))
    → condition (map_row q f a) k ≡ condition a k
condition-map q f none k h = refl
condition-map q f (some x) k h = ground (arith, h x)

-- The ACTIVE issue with the id is the one that was found.
pub found_by_id :
    (m : ℕ) (c : IssueCode) (s : IssueState) {i : Issue}
    → WellFormed s
    → active_issue m c s ≡ some i
    → All (λ x. is_issue i.id x ≡ true → x ≡ i) s.issues × (active_for m c i ≡ true)
unfolding active_issue
found_by_id m c s {i} w e =
    let (there, matches) = last_row-In (active_for m c) s.issues e in
    (unique-In (is_issue i.id) i s.issues there (==_refl i.id) (w.distinct_ids i.id), matches)

refresh-active :
    (o : Observation) (m : ℕ) (c : IssueCode) (i : ℕ) (s : IssueState)
    → last_row (active_for m c) (update_rows (is_issue i) (seen_again o) s.issues)
      ≡ map_row (is_issue i) (seen_again o) (last_row (active_for m c) s.issues)
refresh-active o m c i s = last-update (active_for m c) (is_issue i) (seen_again o) s.issues (
    All-always (λ x. is_issue i x ≡ true → active_for m c (seen_again o x) ≡ active_for m c x)
      s.issues (λ x t. refl))

-- An open issue that is seen again: every key keeps its condition.
pub refresh-view :
    (o : Observation) (m : ℕ) (c : IssueCode) (i : ℕ) (s : IssueState)
    → view m c (refresh_issue o i s) ≡ view m c s
unfolding view refresh_issue active_issue candidate
refresh-view o m c i s =
    ap (λ a. condition a (first_row (candidate_for m c) s.candidates)) (refresh-active o m c i s)
    ∙ condition-map (is_issue i) (seen_again o) (last_row (active_for m c) s.issues) _
        (λ x. (refl, refl))

pub self_key : (o : Observation) → candidate_for o.miner.id o.code (new_candidate o) ≡ true
self_key o = ground (arith, code_eq_refl o.code)

pub self_active :
    (o : Observation) (n t : ℕ) → active_for o.miner.id o.code (new_issue o n t) ≡ true
self_active o n t = ground (arith, code_eq_refl o.code)
