-- ===== src/Anomalies/Issues/OtherKeys.antt =====
-- A transition (app/anomalies/repository.py) leaves the condition of every other miner and code.
use mathlib.Core.Path.{ap₂}
use open_asicmanager.Prelude.{
  ℕ, ◌+◌, ◌≡◌, refl, sym, ap, ◌∙◌, true, false, Option, none, some, arith, Bool-cases, inl, inr,
  leb, All-map, map_row, last_row, update_rows, last-update, last-append_other, first-delete_ne,
  first-append_other, first-update_ne,
}
use open_asicmanager.Anomalies.Issues.{
  IssueCode, code_eq, Issue, IssueState, Candidate, active_for, candidate_for, is_issue,
  active_issue, candidate, Observation, new_issue, new_candidate, resolve, insert_issue,
  delete_candidate, insert_candidate, refresh_candidate, observe, unobserved,
}
use open_asicmanager.Anomalies.Issues.Invariant.{WellFormed}
use open_asicmanager.Anomalies.Issues.Condition.{
  condition, view, same_key, condition-map, found_by_id, refresh-view, self_key, self_active,
}

resolved_not_active :
    (o : Observation) (m : ℕ) (c : IssueCode) (i : Issue) → active_for m c (resolve o i) ≡ false
resolved_not_active o m c i = ground arith

active_other :
    (o : Observation) (m : ℕ) (c : IssueCode) (i : Issue)
    → active_for o.miner.id o.code i ≡ true
    → same_key o m c ≡ false
    → active_for m c i ≡ false
unfolding code_eq
active_other o m c i h ne = ground arith

-- and the ACTIVE issue of another key stays.
resolve-other :
    (o : Observation) (s : IssueState) (m : ℕ) (c : IssueCode) {i : Issue}
    → WellFormed s
    → active_issue o.miner.id o.code s ≡ some i
    → same_key o m c ≡ false
    → last_row (active_for m c) (update_rows (is_issue i.id) (resolve o) s.issues)
      ≡ map_row (is_issue i.id) (resolve o) (last_row (active_for m c) s.issues)
resolve-other o s m c {i} w e ne =
    let (only, matches) = found_by_id o.miner.id o.code s w e in
    last-update (active_for m c) (is_issue i.id) (resolve o) s.issues (
      All-map (λ x. is_issue i.id x ≡ true → x ≡ i)
        (λ x. is_issue i.id x ≡ true → active_for m c (resolve o x) ≡ active_for m c x) s.issues
        (λ x h t.
          ap (active_for m c) (ap (resolve o) (h t))
          ∙ resolved_not_active o m c i
          ∙ sym (ap (active_for m c) (h t) ∙ active_other o m c i matches ne))
        only)

candidate_other :
    (o : Observation) (m : ℕ) (c : IssueCode) (k : Candidate)
    → same_key o m c ≡ false
    → candidate_for o.miner.id o.code k ≡ true
    → candidate_for m c k ≡ false
unfolding code_eq
candidate_other o m c k ne h = ground arith

-- The other keys keep their condition.
delete-other :
    (o : Observation) (m : ℕ) (c : IssueCode) (s : IssueState)
    → same_key o m c ≡ false
    → candidate m c (delete_candidate o s) ≡ candidate m c s
unfolding candidate delete_candidate
delete-other o m c s ne =
    first-delete_ne (candidate_for m c) (candidate_for o.miner.id o.code) s.candidates
      (λ k t. candidate_other o m c k ne t)

refresh_candidate-other :
    (o : Observation) (m : ℕ) (c : IssueCode) (s : IssueState)
    → same_key o m c ≡ false
    → candidate m c (refresh_candidate o s) ≡ candidate m c s
unfolding candidate refresh_candidate
refresh_candidate-other o m c s ne =
    first-update_ne (candidate_for m c) (candidate_for o.miner.id o.code)
      (λ k. record k { last_seen_ts = o.now }) s.candidates
      (λ k t. (candidate_other o m c k ne t, candidate_other o m c k ne t))

insert_candidate-other :
    (o : Observation) (m : ℕ) (c : IssueCode) (s : IssueState)
    → same_key o m c ≡ false
    → candidate m c (insert_candidate o s) ≡ candidate m c s
unfolding candidate insert_candidate
insert_candidate-other o m c s ne =
    first-append_other (candidate_for m c) s.candidates (new_candidate o)
      (candidate_other o m c (new_candidate o) ne (self_key o))

insert_issue-other :
    (o : Observation) (since : ℕ) (m : ℕ) (c : IssueCode) (s : IssueState)
    → same_key o m c ≡ false
    → active_issue m c (insert_issue o since s) ≡ active_issue m c s
unfolding active_issue insert_issue
insert_issue-other o since m c s ne =
    last-append_other (active_for m c) s.issues (new_issue o s.next_issue since)
      (active_other o m c (new_issue o s.next_issue since) (self_active o s.next_issue since) ne)

same-view :
    (m : ℕ) (c : IssueCode) (s t : IssueState)
    → active_issue m c t ≡ active_issue m c s
    → candidate m c t ≡ candidate m c s
    → view m c t ≡ view m c s
unfolding view
same-view m c s t e f = ap₂ condition e f

pub observe-other :
    (o : Observation) (a : Option Issue) (k : Option Candidate) (m : ℕ) (c : IssueCode)
    (s : IssueState)
    → same_key o m c ≡ false
    → view m c (observe o a k s).after ≡ view m c s
unfolding observe active_issue
observe-other o (some i) k m c s ne = refresh-view o m c i.id s
observe-other o none none m c s ne = elim (Bool-cases o.suppress_new) [
  | inl t ↦ simp t (same-view m c s (delete_candidate o s) refl (delete-other o m c s ne))
  | inr t ↦ simp t (same-view m c s (insert_candidate o s) refl (insert_candidate-other o m c s ne))
]
observe-other o none (some k) m c s ne = elim (Bool-cases o.suppress_new) [
  | inl t ↦ simp t (same-view m c s (delete_candidate o s) refl (delete-other o m c s ne))
  | inr t ↦ simp t (elim (Bool-cases (leb (k.since_ts + o.grace_seconds) o.now)) [
    | inl g ↦ rw g (
        let r = refresh_candidate o s in
        let n = insert_issue o k.since_ts r in
        same-view m c n (delete_candidate o n) refl (delete-other o m c n ne)
        ∙ same-view m c r n (insert_issue-other o k.since_ts m c r ne) (unfold candidate in refl)
        ∙ same-view m c s r refl (refresh_candidate-other o m c s ne))
    | inr g ↦
        rw g (same-view m c s (refresh_candidate o s) refl (refresh_candidate-other o m c s ne))
  ])
]

pub unobserved-other :
    (o : Observation) (a : Option Issue) (m : ℕ) (c : IssueCode) (s : IssueState)
    → WellFormed s
    → active_issue o.miner.id o.code s ≡ a
    → same_key o m c ≡ false
    → view m c (unobserved o a s).after ≡ view m c s
unfolding unobserved active_issue
unobserved-other o none m c s w e ne =
    same-view m c s (delete_candidate o s) refl (delete-other o m c s ne)
unobserved-other o (some i) m c s w e ne =
    unfold view candidate in
    ap₂ condition (resolve-other o s m c w e ne) (unfold candidate in delete-other o m c s ne)
    ∙ condition-map (is_issue i.id) (resolve o) (last_row (active_for m c) s.issues) _
        (λ x. (refl, refl))
