-- ===== src/Anomalies/Issues/OwnKey.antt =====
-- What a transition (app/anomalies/repository.py) does to the condition of its own miner and code.
use open_asicmanager.Prelude.{
  ◌+◌, ◌≡◌, refl, ap, ◌∙◌, true, Option, none, some, arith, ==_refl, Bool-cases, inl, inr, leb,
  All-map, map_row, last_row, update_rows, last_row-In, unique-In, last-append_match,
  last_none_of_count, count-update_away, first-delete_self, first-append_match, first-update,
}
use open_asicmanager.Anomalies.Issues.{
  Issue, IssueState, Candidate, active_for, candidate_for, is_issue, active_issue, candidate,
  Observation, new_issue, new_candidate, resolve, insert_issue, delete_candidate, insert_candidate,
  refresh_candidate, observe, unobserved,
}
use open_asicmanager.Anomalies.Issues.Invariant.{WellFormed}
use open_asicmanager.Anomalies.Issues.Condition.{
  clear, pending, condition, view, step_observed, refresh-view, self_key, self_active,
}

-- RESOLVED: no issue of the key is left ACTIVE.
resolve_self :
    (o : Observation) (s : IssueState) {i : Issue}
    → WellFormed s
    → active_issue o.miner.id o.code s ≡ some i
    → last_row (active_for o.miner.id o.code) (update_rows (is_issue i.id) (resolve o) s.issues)
      ≡ none
unfolding active_issue
resolve_self o s {i} w e =
    let p = active_for o.miner.id o.code in
    let (there, matches) = last_row-In p s.issues e in
    last_none_of_count p _ (
      count-update_away p (is_issue i.id) (resolve o) s.issues (λ x. ground arith)
        (All-map (λ x. p x ≡ true → x ≡ i) (λ x. p x ≡ true → is_issue i.id x ≡ true) s.issues
          (λ x h t. ground (arith, h t, ==_refl i.id))
          (unique-In p i s.issues there matches (w.one_active o.miner.id o.code))))

-- The tables' part of the refinement: the key of the transition.
pub resolve-view :
    (o : Observation) (a : Option Issue) (s : IssueState)
    → WellFormed s
    → active_issue o.miner.id o.code s ≡ a
    → view o.miner.id o.code (unobserved o a s).after ≡ clear
unfolding view unobserved active_issue candidate
resolve-view o none s w e =
    rw (first-delete_self (candidate_for o.miner.id o.code) s.candidates) (rw e refl)
resolve-view o (some i) s w e =
    rw (first-delete_self (candidate_for o.miner.id o.code) s.candidates)
      (rw (resolve_self o s w e) refl)

candidate-map :
    (o : Observation) (k : Candidate)
    → condition none (
        map_row (candidate_for o.miner.id o.code) (λ c. record c { last_seen_ts = o.now }) (some k))
      ≡ pending k.since_ts
candidate-map o k = ground arith

-- Without an ACTIVE issue, a deleted candidate leaves the key clear.
deleted-view :
    (o : Observation) (s : IssueState)
    → active_issue o.miner.id o.code s ≡ none
    → view o.miner.id o.code (delete_candidate o s) ≡ clear
unfolding view delete_candidate active_issue candidate
deleted-view o s e =
    rw e (rw (first-delete_self (candidate_for o.miner.id o.code) s.candidates) refl)

pub observe-view :
    (o : Observation) (a : Option Issue) (k : Option Candidate) (s : IssueState)
    → active_issue o.miner.id o.code s ≡ a
    → candidate o.miner.id o.code s ≡ k
    → view o.miner.id o.code (observe o a k s).after ≡ step_observed o s.next_issue (condition a k)
unfolding observe active_issue candidate
observe-view o (some i) k s e f =
    refresh-view o o.miner.id o.code i.id s ∙ (unfold view in rw e refl)
observe-view o none none s e f = elim (Bool-cases o.suppress_new) [
  | inl t ↦ simp t (deleted-view o s e)
  | inr t ↦ simp t (
      unfold view insert_candidate active_issue candidate in
      rw e (
        rw
          (first-append_match (candidate_for o.miner.id o.code) s.candidates (new_candidate o) f
            (self_key o))
          refl))
]
observe-view o none (some k) s e f = elim (Bool-cases o.suppress_new) [
  | inl t ↦ simp t (deleted-view o s e)
  | inr t ↦ simp t (elim (Bool-cases (leb (k.since_ts + o.grace_seconds) o.now)) [
    | inl g ↦ rw g (
        unfold view insert_issue refresh_candidate delete_candidate active_issue candidate in
        rw
          (last-append_match (active_for o.miner.id o.code) s.issues
            (new_issue o s.next_issue k.since_ts) (self_active o s.next_issue k.since_ts))
          refl)
    | inr g ↦ rw g (
        unfold view refresh_candidate active_issue candidate in
        rw e (
          ap (condition none) (
            first-update (candidate_for o.miner.id o.code) (candidate_for o.miner.id o.code)
              (λ c. record c { last_seen_ts = o.now }) s.candidates (λ x h. refl))
          ∙ (rw f (candidate-map o k))))
  ])
]
