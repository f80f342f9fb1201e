-- ===== src/Anomalies/Issues/Invariant.antt =====
-- The invariant of the issues table (app/anomalies/repository.py), and that a transition keeps it.
use open_asicmanager.Prelude.{
  ℕ, ◌+◌, ◌≤◌, ◌<◌, ◌≡◌, refl, sym, ap, ◌∙◌, Bool, true, ◌&&◌, Option, none, some, List, [], ◌∷◌,
  arith, ◌==◌, ==_iff, Bool-cases, inl, inr, leb, All, All-map, All-append, All-update, count_rows,
  count-append, count-update-le, count_of_last_none, update_rows,
}
use open_asicmanager.Anomalies.Issues.{
  IssueCode, code_eq, Issue, Candidate, IssueState, active_for, is_issue, active_issue, Observation,
  seen_again, new_issue, resolve, insert_issue, refresh_candidate, observe, unobserved,
  transition_anomaly_condition,
}

abbrev pub IsBelow : ℕ → Issue → Type 0
IsBelow n i = i.id < n

-- At most one ACTIVE issue for a miner and a code, ids are not used twice, and the next id is new.
pub record WellFormed (s : IssueState) : Type 0 where
  pub one_active : (m : ℕ) (c : IssueCode) → count_rows (active_for m c) s.issues ≤ 1
  pub distinct_ids : (i : ℕ) → count_rows (is_issue i) s.issues ≤ 1
  pub fresh_id : All (IsBelow s.next_issue) s.issues

pub code_eq→≡ : (a b : IssueCode) → code_eq a b ≡ true → a ≡ b
unfolding code_eq
code_eq→≡ a b h = ground arith

pub code_eq_refl : (a : IssueCode) → code_eq a a ≡ true
unfolding code_eq
code_eq_refl a = ground arith

count_of_below :
    (i n : ℕ) (xs : List Issue) → All (IsBelow n) xs → n ≤ i → count_rows (is_issue i) xs ≡ 0
unfolding count_rows
count_of_below i n [] h le = refl
count_of_below i n (x ∷ xs) h le = ground (arith, count_of_below i n xs h.1 le, h.0)

-- The active issues of two equal keys.
count_same_key :
    (m m' : ℕ) (c c' : IssueCode) (xs : List Issue)
    → (m == m') ≡ true
    → code_eq c c' ≡ true
    → count_rows (active_for m c) xs ≡ 0
    → count_rows (active_for m' c') xs ≡ 0
count_same_key m m' c c' xs e f h =
    ap (λ k. count_rows (active_for k c') xs) (sym ((==_iff m m').0 e))
    ∙ ap (λ k. count_rows (active_for m k) xs) (sym (code_eq→≡ c c' f))
    ∙ h

insert-WellFormed :
    (o : Observation) (since : ℕ) (s : IssueState)
    → active_issue o.miner.id o.code s ≡ none
    → WellFormed s
    → WellFormed (insert_issue o since s)
unfolding insert_issue active_issue count_rows
insert-WellFormed o since s none_yet w = record {
  one_active = λ m c.
      let zero_here = count_of_last_none (active_for o.miner.id o.code) s.issues none_yet in
      let added = count-append (active_for m c) s.issues (new ∷ []) in
      let before = w.one_active m c in
      elim (Bool-cases (o.miner.id == m && code_eq o.code c)) [
        | inl e ↦ ground (arith, count_same_key o.miner.id m o.code c s.issues)
        | inr e ↦ ground arith
      ];
  distinct_ids = λ i. ground (
    arith,
    count-append (is_issue i) s.issues (new ∷ []),
    w.distinct_ids i,
    count_of_below i s.next_issue s.issues w.fresh_id,
  );
  fresh_id =
      All-append (IsBelow (s.next_issue + 1)) s.issues (new ∷ [])
        (All-map (IsBelow s.next_issue) (IsBelow (s.next_issue + 1)) s.issues (λ i h. omega arith)
          w.fresh_id)
        (omega arith, tt);
}
  where
    new : Issue
    new = new_issue o s.next_issue since

-- An UPDATE that neither changes ids nor makes an issue active keeps the invariant.
update-WellFormed :
    (q : Issue → Bool) (f : Issue → Issue) (s t : IssueState)
    → ((x : Issue) → (f x).id ≡ x.id)
    → ((m : ℕ) (c : IssueCode) (x : Issue) → active_for m c (f x) ≡ true → active_for m c x ≡ true)
    → t.issues ≡ update_rows q f s.issues
    → t.next_issue ≡ s.next_issue
    → WellFormed s
    → WellFormed t
update-WellFormed q f s t ids act e n w = record {
  one_active = λ m c.
      rw e
        (omega (arith, w.one_active m c, count-update-le (active_for m c) q f s.issues (act m c)));
  distinct_ids = λ i. rw e (
      omega (
        arith,
        w.distinct_ids i,
        count-update-le (is_issue i) q f s.issues (λ x h. ground (arith, ids x)),
      ));
  fresh_id =
      rw (e, n)
        (All-update (IsBelow s.next_issue) q f s.issues (λ x h. omega (arith, ids x)) w.fresh_id);
}

same-WellFormed :
    (s t : IssueState)
    → t.issues ≡ s.issues
    → t.next_issue ≡ s.next_issue
    → WellFormed s
    → WellFormed t
same-WellFormed s t e n w = record {
  one_active = λ m c. rw e (w.one_active m c);
  distinct_ids = λ i. rw e (w.distinct_ids i);
  fresh_id = rw (e, n) w.fresh_id;
}

observe-WellFormed :
    (o : Observation) (a : Option Issue) (k : Option Candidate) (s : IssueState)
    → active_issue o.miner.id o.code s ≡ a
    → WellFormed s
    → WellFormed (observe o a k s).after
unfolding observe active_issue
observe-WellFormed o (some i) k s e w =
    update-WellFormed (is_issue i.id) (seen_again o) s _ (λ x. refl) (λ m c x h. h) refl refl w
observe-WellFormed o none none s e w = elim (Bool-cases o.suppress_new) [
  | inl t ↦ simp t (same-WellFormed s _ refl refl w)
  | inr t ↦ simp t (same-WellFormed s _ refl refl w)
]
observe-WellFormed o none (some k) s e w = elim (Bool-cases o.suppress_new) [
  | inl t ↦ simp t (same-WellFormed s _ refl refl w)
  | inr t ↦ simp t (elim (Bool-cases (leb (k.since_ts + o.grace_seconds) o.now)) [
    | inl g ↦ rw g (
        same-WellFormed (insert_issue o k.since_ts (refresh_candidate o s)) _ refl refl (
          insert-WellFormed o k.since_ts (refresh_candidate o s) e
            (same-WellFormed s _ refl refl w)))
    | inr g ↦ rw g (same-WellFormed s _ refl refl w)
  ])
]

unobserved-WellFormed :
    (o : Observation) (a : Option Issue) (s : IssueState)
    → WellFormed s
    → WellFormed (unobserved o a s).after
unfolding unobserved
unobserved-WellFormed o none s w = same-WellFormed s _ refl refl w
unobserved-WellFormed o (some i) s w =
    update-WellFormed (is_issue i.id) (resolve o) s _ (λ x. refl) (λ m c x h. ground arith) refl
      refl w

-- Whatever is observed, of which miner and when, and whether maintenance suppresses new issues, a
-- transition keeps the issues table well formed: never two active issues for one miner and code, no
-- id used twice, and the next id new.
pub transition-WellFormed :
    (o : Observation) (s : IssueState)
    → WellFormed s
    → WellFormed (transition_anomaly_condition o s).after
unfolding transition_anomaly_condition
transition-WellFormed o s w = elim (Bool-cases o.observed) [
  | inl e ↦ simp e (observe-WellFormed o _ _ s refl w)
  | inr e ↦ simp e (unobserved-WellFormed o _ s w)
]
