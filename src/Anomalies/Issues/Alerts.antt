-- ===== src/Anomalies/Issues/Alerts.antt =====
-- What a transition reports, and what an acknowledgement keeps (app/anomalies/repository.py).
use open_asicmanager.Prelude.{
  ℕ, ◌≡◌, refl, sym, subst, ◌∙◌, ap, String, true, not, ◌&&◌, Option, none, some, arith, Bool-cases,
  inl, inr, All-always, last_row, last-update,
}
use open_asicmanager.Anomalies.Issues.{
  IssueCode, Issue, Candidate, IssueState, active_for, is_issue, active_issue, candidate,
  Observation, Transitioned, observe, observe_candidate, unobserved, transition_anomaly_condition,
  acknowledge, clear_acknowledgement, update_found, update_issue, set_issue_acknowledgement,
  clear_issue_acknowledgement,
}
use open_asicmanager.Anomalies.Issues.Condition.{
  Condition, clear, condition, view, step, step_observed, is_alarmed, condition-map,
}
use open_asicmanager.Anomalies.Issues.Invariant.{WellFormed}
use open_asicmanager.Anomalies.Issues.Lifecycle.{own_key}

-- The two flags of a transition that leads from one condition to another.
abbrev Reports : Transitioned → Condition → Condition → Type 0
Reports t before after =
    (t.opened ≡ (not (is_alarmed before) && is_alarmed after))
    × (t.resolved_issue ≡ (is_alarmed before && not (is_alarmed after)))

observe-Reports :
    (o : Observation) (a : Option Issue) (k : Option Candidate) (s : IssueState)
    → Reports (observe o a k s) (condition a k) (step_observed o s.next_issue (condition a k))
unfolding observe observe_candidate
observe-Reports o (some i) k s = (refl, refl)
observe-Reports o none none s = ground arith
observe-Reports o none (some k) s = ground arith

unobserved-Reports :
    (o : Observation) (a : Option Issue) (k : Option Candidate) (s : IssueState)
    → Reports (unobserved o a s) (condition a k) clear
unfolding unobserved
unobserved-Reports o none none s = (refl, refl)
unobserved-Reports o none (some k) s = (refl, refl)
unobserved-Reports o (some i) k s = (refl, refl)

transition-Reports-step :
    (o : Observation) (s : IssueState)
    → Reports
        (transition_anomaly_condition o s)
        (view o.miner.id o.code s)
        (step o s.next_issue (view o.miner.id o.code s))
unfolding transition_anomaly_condition view
transition-Reports-step o s = elim (Bool-cases o.observed) [
  | inl e ↦ simp e (observe-Reports o _ _ s)
  | inr e ↦ simp e (unobserved-Reports o _ _ s)
]

-- On well formed tables the pair that a transition returns tells what happened to the tables: `opened` is
-- true exactly when its miner and code have no open issue in the tables before it and an open one in the
-- tables after it, and `resolved` exactly when they have an open issue before and none after.
pub transition-Reports :
    (o : Observation) (s : IssueState)
    → WellFormed s
    → let t = transition_anomaly_condition o s in
      Reports t (view o.miner.id o.code s) (view o.miner.id o.code t.after)
transition-Reports o s w =
    subst (Reports (transition_anomaly_condition o s) (view o.miner.id o.code s))
      (sym (own_key o s w)) (transition-Reports-step o s)

update_found-view :
    (f : Issue → Issue) (issue_id : ℕ) (found : Option Issue) (s : IssueState) (m : ℕ)
    (c : IssueCode)
    → ((x : Issue)
        → (active_for m c (f x) ≡ active_for m c x)
          × (((f x).id ≡ x.id) × ((f x).first_seen ≡ x.first_seen)))
    → view m c (update_found issue_id f found s).1 ≡ view m c s
unfolding update_found view active_issue candidate
update_found-view f issue_id none s m c h = refl
update_found-view f issue_id (some i) s m c h =
    ap (λ a. condition a (candidate m c s))
      (last-update (active_for m c) (is_issue issue_id) f s.issues (
        All-always (λ x. is_issue issue_id x ≡ true → active_for m c (f x) ≡ active_for m c x)
          s.issues (λ x t. (h x).0)))
    ∙ condition-map (is_issue issue_id) f (last_row (active_for m c) s.issues) _ (λ x. (h x).1)

-- Acknowledging an issue, and taking an acknowledgement back, changes the condition of no miner
-- and code: open issues stay open, and no condition is cleared or begun.
pub acknowledgement_keeps-view :
    (issue_id : ℕ) (actor : String) (note : Option String) (now : ℕ) (s : IssueState) (m : ℕ)
    (c : IssueCode)
    → (view m c (set_issue_acknowledgement issue_id actor note now s).1 ≡ view m c s)
      × (view m c (clear_issue_acknowledgement issue_id s).1 ≡ view m c s)
unfolding set_issue_acknowledgement clear_issue_acknowledgement update_issue
acknowledgement_keeps-view issue_id actor note now s m c = (
  update_found-view (acknowledge now actor note) issue_id _ s m c (λ x. (refl, (refl, refl))),
  update_found-view clear_acknowledgement issue_id _ s m c (λ x. (refl, (refl, refl))),
)
