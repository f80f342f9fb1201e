-- ===== src/Anomalies/Scan/Suppression.antt =====
-- The anomaly scan (app/anomalies/service.py) keeps the issue tables, and opens no issue for a miner
-- that is under maintenance.
use open_asicmanager.Prelude.{
  ℕ, ◌≡◌, refl, sym, ap, ◌∙◌, subst, ◌⊎◌, String, Bool, true, List, [], ◌∷◌, arith, ◌==◌, ==_iff,
  Bool-cases, inl, inr, if◌then◌else◌, In,
}
use open_asicmanager.Maintenance.{Window, Member, Snapshot, active_maintenance_snapshot}
use open_asicmanager.Maintenance.Protection.{
  ActiveWith, IsFarm, IsProtected, active_maintenance_snapshot_iff,
}
use open_asicmanager.Anomalies.Issues.{IssueCode, Observation}
use open_asicmanager.Anomalies.Issues.Invariant.{WellFormed, transition-WellFormed}
use open_asicmanager.Anomalies.Issues.Condition.{
  Condition, clear, pending, alarmed, view, step, is_alarmed, same_key,
}
use open_asicmanager.Anomalies.Issues.Lifecycle.{transition_refines}
use open_asicmanager.Anomalies.Scan.{
  ScanMessage, AnomalyState, set_anomaly_condition, has_member, maintenance_active, ScanRow,
  scan_disabled, scan_enabled, scan_row, anomaly_scan,
}

suppressed_step :
    (o : Observation) (n : ℕ) (c : Condition)
    → o.suppress_new ≡ true
    → is_alarmed (step o n c) ≡ true
    → is_alarmed c ≡ true
suppressed_step o n clear s h = ground arith
suppressed_step o n (pending t) s h = ground arith
suppressed_step o n (alarmed i t) s h = refl

-- The tables stay well formed, and the miner and code have an open issue only if they had one.
abbrev OpensNone : ℕ → IssueCode → AnomalyState → AnomalyState → Type 0
OpensNone m c s t =
    WellFormed t.tables
    × (is_alarmed (view m c t.tables) ≡ true → is_alarmed (view m c s.tables) ≡ true)

set-OpensNone :
    (o : Observation) (m : ℕ) (c : IssueCode) (s t : AnomalyState)
    → ((o.miner.id == m) ≡ true → o.suppress_new ≡ true)
    → OpensNone m c s t
    → OpensNone m c s (set_anomaly_condition o t)
unfolding set_anomaly_condition
set-OpensNone o m c s t covered (w, back) = (
  transition-WellFormed o t.tables w,
  λ h.
      let stepped = ap is_alarmed (sym (transition_refines o t.tables m c w)) ∙ h in
      elim (Bool-cases (same_key o m c)) [
        | inl e ↦ back (
            suppressed_step o t.tables.next_issue (view m c t.tables) (covered (ground arith)) (
              subst
                (λ b.
                  is_alarmed (
                    if b then step o t.tables.next_issue (view m c t.tables) else view m c t.tables)
                  ≡ true)
                e stepped))
        | inr e ↦ back (
            subst
              (λ b.
                is_alarmed
                  (if b then step o t.tables.next_issue (view m c t.tables) else view m c t.tables)
                ≡ true)
              e stepped)
      ],
)

module _ (Temp : Type 0) (at_least : Temp → Temp → Bool) (text : ScanMessage Temp → String) where
  row-OpensNone :
      (now : ℕ) (on : Bool) (maintenance : Snapshot) (r : ScanRow Temp at_least text) (m : ℕ)
      (c : IssueCode) (s t : AnomalyState)
      → maintenance_active maintenance m ≡ true
      → OpensNone m c s t
      → OpensNone m c s (scan_row Temp at_least text now on maintenance r t)
  unfolding scan_row scan_enabled scan_disabled
  row-OpensNone now on maintenance r m c s t a h =
      let covered : (r.miner.id == m) ≡ true → maintenance_active maintenance r.miner.id ≡ true =
        λ e. ap (maintenance_active maintenance) ((==_iff r.miner.id m).0 e) ∙ a in
      elim (Bool-cases r.miner.enabled) [
        | inl e ↦ simp e (
            set-OpensNone _ m c s _ covered
              (set-OpensNone _ m c s _ covered (set-OpensNone _ m c s t covered h)))
        | inr e ↦ simp e (
            set-OpensNone _ m c s _ covered
              (set-OpensNone _ m c s _ covered (set-OpensNone _ m c s t covered h)))
      ]

  scan-OpensNone :
      (now : ℕ) (on : Bool) (maintenance : Snapshot) (rs : List (ScanRow Temp at_least text))
      (m : ℕ) (c : IssueCode) (s t : AnomalyState)
      → maintenance_active maintenance m ≡ true
      → OpensNone m c s t
      → OpensNone m c s (anomaly_scan Temp at_least text now on maintenance rs t)
  unfolding anomaly_scan
  scan-OpensNone now on maintenance [] m c s t a h = h
  scan-OpensNone now on maintenance (r ∷ rs) m c s t a h =
      scan-OpensNone now on maintenance rs m c s _ a
        (row-OpensNone now on maintenance r m c s t a h)

has_member_of_In : (m : ℕ) (xs : List ℕ) → In m xs → has_member m xs ≡ true
has_member_of_In m [] i = absurd i
has_member_of_In m (x ∷ xs) (inl e) = ground (arith, (==_iff x m).1 e)
has_member_of_In m (x ∷ xs) (inr i) = ground (arith, has_member_of_In m xs i)

-- The maintenance windows of a farm or of the miner cover it.
covered_miner :
    (now : ℕ) (windows : List Window) (members : List Member) (m : ℕ)
    → ActiveWith now IsFarm windows ⊎ IsProtected now m windows members
    → maintenance_active (active_maintenance_snapshot now windows members) m ≡ true
unfolding maintenance_active
covered_miner now windows members m (inl h) =
    rw ((active_maintenance_snapshot_iff now windows members m).0.1 h) refl
covered_miner now windows members m (inr h) =
    let inside =
      has_member_of_In m _ ((active_maintenance_snapshot_iff now windows members m).1.1 h) in
    ground arith

module _ (Temp : Type 0) (at_least : Temp → Temp → Bool) (text : ScanMessage Temp → String) where
  -- While a maintenance window of the farm, of the miner, or of a group that had the miner as a
  -- member is ACTIVE, a scan of well formed issue tables opens no issue for the miner, whatever it
  -- reads of the fleet: the miner has an open issue of some code afterwards only if it had one
  -- before. The tables stay well formed.
  pub maintenance_holds_back :
      (now : ℕ) (scheduler_enabled : Bool) (windows : List Window) (members : List Member)
      (rows : List (ScanRow Temp at_least text)) (m : ℕ) (c : IssueCode) (s : AnomalyState)
      → WellFormed s.tables
      → ActiveWith now IsFarm windows ⊎ IsProtected now m windows members
      → let t =
          anomaly_scan Temp at_least text now scheduler_enabled
            (active_maintenance_snapshot now windows members)
            rows
            s in
        WellFormed t.tables
        × (is_alarmed (view m c t.tables) ≡ true → is_alarmed (view m c s.tables) ≡ true)
  maintenance_holds_back now on windows members rows m c s w covered =
      scan-OpensNone Temp at_least text now on (active_maintenance_snapshot now windows members)
        rows m c s s (covered_miner now windows members m covered) (w, λ h. h)
