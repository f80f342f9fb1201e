-- ===== src/Anomalies/Issues/Lifecycle.antt =====
-- The life of a condition (app/anomalies/repository.py): for each miner and code it is clear, pending
-- since some time, or an open issue, and the tables implement exactly the steps between these.
use open_asicmanager.Prelude.{
  ℕ, ◌≡◌, refl, sym, ◌∙◌, true, arith, ==_iff, Bool-cases, inl, inr, if◌then◌else◌,
}
use open_asicmanager.Anomalies.Issues.{
  IssueCode, IssueState, Observation, transition_anomaly_condition,
}
use open_asicmanager.Anomalies.Issues.Invariant.{WellFormed, code_eq→≡}
use open_asicmanager.Anomalies.Issues.Condition.{view, step, same_key}
use open_asicmanager.Anomalies.Issues.OwnKey.{resolve-view, observe-view}
use open_asicmanager.Anomalies.Issues.OtherKeys.{observe-other, unobserved-other}

-- The condition of its own miner and code after a transition.
pub own_key :
    (o : Observation) (s : IssueState)
    → WellFormed s
    → view o.miner.id o.code (transition_anomaly_condition o s).after
      ≡ step o s.next_issue (view o.miner.id o.code s)
unfolding transition_anomaly_condition
own_key o s w = elim (Bool-cases o.observed) [
  | inl t ↦ simp t (observe-view o _ _ s refl refl ∙ (unfold view in refl))
  | inr t ↦ simp t (resolve-view o _ s w refl)
]

same_key→≡ :
    (o : Observation) (m : ℕ) (c : IssueCode)
    → same_key o m c ≡ true
    → (o.miner.id ≡ m) × (o.code ≡ c)
same_key→≡ o m c e = ((==_iff o.miner.id m).0 (ground arith), code_eq→≡ o.code c (ground arith))

-- On well formed tables a transition implements the abstract steps: after it the condition of its
-- miner and code is the abstract step from the condition before (clear, pending since a time, or
-- open as an issue with an id), and the condition of every other miner and code is what it was.
pub transition_refines :
    (o : Observation) (s : IssueState) (m : ℕ) (c : IssueCode)
    → WellFormed s
    → view m c (transition_anomaly_condition o s).after
      ≡ (if same_key o m c then step o s.next_issue (view m c s) else view m c s)
unfolding transition_anomaly_condition
transition_refines o s m c w = elim (Bool-cases (same_key o m c)) [
  | inl e ↦ let (em, ec) = same_key→≡ o m c e in rw e (rw (sym em) (rw (sym ec) (own_key o s w)))
  | inr e ↦ rw e (elim (Bool-cases o.observed) [
    | inl t ↦ simp t (observe-other o _ _ m c s e)
    | inr t ↦ simp t (unobserved-other o _ m c s w refl e)
  ])
]
