-- ===== src/Scheduler/Winners.antt =====
-- The rule that decides for a scope (app/scheduler/repository.py).
use mathlib.Core.List.{append_assoc, append-nil}
use mathlib.Core.Option.{some-injective}
use open_asicmanager.Prelude.{
  ℕ, ◌≡◌, refl, sym, ap, ◌∙◌, subst, true, false, Option, none, some, List, [], ◌∷◌, ◌++◌, arith,
  Bool-cases, inl, inr, All, All-append, All-map,
}
use open_asicmanager.Scheduler.{
  Local, before, Rule, Winner, rule_last_occurrence, later_winner, scope_winner,
}

before_trans : (a b c : Local) → before a b ≡ true → before b c ≡ true → before a c ≡ true
unfolding before
before_trans a b c h k = ground arith

not_after_before : (a b c : Local) → before b a ≡ false → before b c ≡ true → before a c ≡ true
unfolding before
not_after_before a b c h k = ground arith

module _ (occ : Rule → Option Local) where
  abbrev pub Earlier : Local → Rule → Type 0
  Earlier c r = (d : Local) → occ r ≡ some d → before d c ≡ true

  abbrev pub NotLater : Local → Rule → Type 0
  NotLater c r = (d : Local) → occ r ≡ some d → before c d ≡ false

  -- The winner among rules, in the order of their ids: its occurrence is later than those of the rules
  -- before it, and no later one comes after it. Without a winner, no rule has an occurrence.
  abbrev pub Wins : List Rule → Option Winner → Type 0
  Wins rules none = All (λ r. occ r ≡ none) rules
  Wins rules (some w) =
      (front : List Rule) × ((back : List Rule) × ((rules ≡ front ++ w.rule ∷ back)
          × ((occ w.rule ≡ some w.occurrence)
              × (All (Earlier w.occurrence) front × All (NotLater w.occurrence) back))))

  keeps_winner :
      (rules : List Rule) (r : Rule) (w : Winner)
      → NotLater w.occurrence r
      → Wins rules (some w)
      → Wins (rules ++ r ∷ []) (some w)
  keeps_winner rules r w h (front, (back, (e, (o, (f, b))))) = (
    front,
    (
      back ++ r ∷ [],
      (
        ap (λ l. l ++ r ∷ []) e ∙ append_assoc front (w.rule ∷ back) (r ∷ []),
        (o, (f, All-append (NotLater w.occurrence) back (r ∷ []) b (h, tt))),
      ),
    ),
  )

  All-Earlier :
      (rules : List Rule) (c : Local) (w : Winner)
      → before w.occurrence c ≡ true
      → Wins rules (some w)
      → All (Earlier c) rules
  All-Earlier rules c w h (front, (back, (e, (o, (f, b))))) = subst (All (Earlier c)) (sym e) (
      All-append (Earlier c) front (w.rule ∷ back)
        (All-map (Earlier w.occurrence) (Earlier c) front
          (λ r k d q. before_trans d w.occurrence c (k d q) h) f)
        (
          λ d q. subst (λ z. before z c ≡ true) (some-injective w.occurrence d (sym o ∙ q)) h,
          All-map (NotLater w.occurrence) (Earlier c) back
              (λ r k d q. not_after_before d w.occurrence c (k d q) h) b,
        ))

  next_winner :
      (rules : List Rule) (r : Rule) (o : Option Local) (w : Option Winner)
      → occ r ≡ o
      → Wins rules w
      → Wins (rules ++ r ∷ []) (later_winner r o w)
  next_winner rules r none none e h = All-append (λ x. occ x ≡ none) rules (r ∷ []) h (e, tt)
  next_winner rules r none (some w) e h = keeps_winner rules r w (λ d q. cc) h
  next_winner rules r (some c) none e h = (
    rules,
    ([], (refl, (e, (All-map (λ x. occ x ≡ none) (Earlier c) rules (λ x k d q. cc) h, tt)))),
  )
  next_winner rules r (some c) (some w) e h = elim (Bool-cases (before w.occurrence c)) [
    | inl t ↦ rw t (rules, ([], (refl, (e, (All-Earlier rules c w t h, tt)))))
    | inr t ↦ rw t (
        keeps_winner rules r w
          (λ d q. subst (λ z. before w.occurrence z ≡ false) (some-injective c d (sym e ∙ q)) t) h)
  ]

module _ (timestamp : Local → ℕ) (now : Local) where
  abbrev occurrence : Rule → Option Local
  occurrence r = rule_last_occurrence timestamp r now

  winner_of_rest :
      (done rest : List Rule) (w : Option Winner)
      → Wins occurrence done w
      → Wins occurrence (done ++ rest) (scope_winner timestamp now w rest)
  unfolding scope_winner
  winner_of_rest done [] w h = subst (λ l. Wins occurrence l w) (sym (append-nil done)) h
  winner_of_rest done (r ∷ rest) w h =
      subst
        (λ l. Wins occurrence l (scope_winner timestamp now (later_winner r (occurrence r) w) rest))
        (append_assoc done (r ∷ []) rest)
        (winner_of_rest (done ++ r ∷ []) rest _
          (next_winner occurrence done r (occurrence r) w refl h))

  -- The rule that decides for a scope is the one with the latest last occurrence, and of several with
  -- that same time the first in the list; no rule decides exactly when none has occurred.
  pub scope_winner-Wins :
      (rules : List Rule) → Wins occurrence rules (scope_winner timestamp now none rules)
  scope_winner-Wins rules = winner_of_rest [] rules none tt
