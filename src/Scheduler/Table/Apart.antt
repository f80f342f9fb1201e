-- ===== src/Scheduler/Table/Apart.antt =====
-- No two enabled rules of one target act at the same minute of the same weekday
-- (app/scheduler/repository.py, `schedule_conflicting_rule` and the statements after it).
use open_asicmanager.Prelude.{
  ℕ, ◌≤◌, ◌<◌, ◌≡◌, ◌≢◌, ◌⊎◌, refl, sym, ap, ◌∙◌, subst, Bool, true, false, ==_iff, arith,
  Bool-cases, inl, inr, Option, none, some, List, [], ◌∷◌, ◌++◌, if◌then◌else◌, All, In, first_row,
  update_rows, delete_rows, count_rows, first_none→In, In-append_one, In-update,
}
use open_asicmanager.Scheduler.{Rule, RuleScope, selects}
use open_asicmanager.Scheduler.Input.{ScheduleInput}
use open_asicmanager.Scheduler.Input.Bounds.{IsAccepted}
use open_asicmanager.Scheduler.Input.Times.{as_input}
use open_asicmanager.Scheduler.Table.{
  RuleTable, conflicts, schedule_conflicting_rule, is_rule, excluded, same_scope, same_group,
  new_rule,
}
use open_asicmanager.Scheduler.Table.Days.{common_day}

-- Both are enabled for the same target at the same time of some common weekday.
pub record Clash (a b : ScheduleInput) : Type 0 where
  pub both : (a.enabled ≡ true) × (b.enabled ≡ true)
  pub scope : a.scope ≡ b.scope
  pub group_id : a.group_id ≡ b.group_id
  pub time : a.time_minutes ≡ b.time_minutes
  pub day : ℕ
  pub selected : (selects a.days_mask day ≡ true) × (selects b.days_mask day ≡ true)

abbrev pub Apart : List Rule → Type 0
Apart rules =
    (r q : Rule) → In r rules → In q rules → r.id ≢ q.id → Clash (as_input r) (as_input q) → ⊥

-- Ids are used once and the next is new, the columns of every rule are in range, and no two rules clash.
pub record IsSound (t : RuleTable) : Type 0 where
  pub distinct_ids : (i : ℕ) → count_rows (is_rule i) t.rules ≤ 1
  pub fresh_id : All (λ r. r.id < t.next_rule) t.rules
  pub accepted : All (λ r. IsAccepted (as_input r)) t.rules
  pub apart : Apart t.rules

turned : {a b : ScheduleInput} → Clash a b → Clash b a
turned c = record {
  both = (c.both.1, c.both.0);
  scope = sym c.scope;
  group_id = sym c.group_id;
  time = sym c.time;
  day = c.day;
  selected = (c.selected.1, c.selected.0);
}

same_scope_of : (a b : RuleScope) → a ≡ b → same_scope a b ≡ true
same_scope_of a b e = ground arith

same_group_of : (a b : Option ℕ) → b ≡ a → same_group a b ≡ true
same_group_of none b e = ground arith
same_group_of (some a) b e = ground arith

-- The query finds a rule that clashes.
Clash-conflicts :
    (n : ScheduleInput) (ex : Option ℕ) (q : Rule)
    → Clash (as_input q) n
    → excluded ex q ≡ false
    → conflicts n ex q ≡ true
unfolding conflicts
Clash-conflicts n ex q c out = simp (
  c.both.0,
  (==_iff q.time_minutes n.time_minutes).1 c.time,
  common_day q.days_mask n.days_mask c.day c.selected.0 c.selected.1,
  same_scope_of q.scope n.scope c.scope,
  same_group_of n.group_id q.group_id c.group_id,
  out,
)

no_conflict-Clash :
    (n : ScheduleInput) (ex : Option ℕ) (rules : List Rule)
    → schedule_conflicting_rule n ex rules ≡ none
    → (q : Rule) → In q rules
    → excluded ex q ≡ false
    → Clash (as_input q) n
    → ⊥
unfolding schedule_conflicting_rule
no_conflict-Clash n ex rules h q i out c =
    let found : first_row (conflicts n ex) rules ≡ none = rw c.both.1 at h in
    let missed : conflicts n ex q ≡ false = first_none→In (conflicts n ex) rules found i in
    cc (Clash-conflicts n ex q c out)

pub In-delete :
    (p : Rule → Bool) (r : Rule) (rules : List Rule) → In r (delete_rows p rules) → In r rules
unfolding delete_rows
In-delete p r [] i = absurd i
In-delete p r (x ∷ rules) i = kept (p x) (In-delete p r rules) i
  where
    kept :
        (b : Bool)
        → (In r (delete_rows p rules) → In r rules)
        → In r (if b then delete_rows p rules else x ∷ delete_rows p rules)
        → In r (x ∷ rules)
    kept true later j = inr (later j)
    kept false later (inl e) = inl e
    kept false later (inr j) = inr (later j)

pub create-Apart :
    (n : ScheduleInput) (now next : ℕ) (rules : List Rule)
    → schedule_conflicting_rule n none rules ≡ none
    → Apart rules
    → Apart (rules ++ new_rule next n now ∷ [])
create-Apart n now next rules clear apart r q i j ne c =
    by (In-append_one rules (new_rule next n now) i) (In-append_one rules (new_rule next n now) j)
  where
    by : In r rules ⊎ (new_rule next n now ≡ r) → In q rules ⊎ (new_rule next n now ≡ q) → ⊥
    by (inl i) (inl j) = apart r q i j ne c
    by (inl i) (inr e) =
        no_conflict-Clash n none rules clear r i refl
          (subst (λ z. Clash (as_input r) (as_input z)) (sym e) c)
    by (inr e) (inl j) =
        no_conflict-Clash n none rules clear q j refl
          (turned (subst (λ z. Clash (as_input z) (as_input q)) (sym e) c))
    by (inr e) (inr f) = ne (ap (λ z. z.id) (sym e ∙ f))

-- A row after an UPDATE of the rules with an id: the rule is new, or stands as it stood.
pub updated_rule :
    (rule_id : ℕ) (f : Rule → Rule) (x r : Rule)
    → (if is_rule rule_id x then f x else x) ≡ r
    → ((is_rule rule_id x ≡ true) × (f x ≡ r)) ⊎ ((is_rule rule_id x ≡ false) × (x ≡ r))
updated_rule rule_id f x r e = elim (Bool-cases (is_rule rule_id x)) [
  | inl t ↦ inl (t, rw t at e)
  | inr t ↦ inr (t, rw t at e)
]

-- The update that turns every row with the id into a row that reads `n` keeps the rules apart.
pub update-Apart :
    (n : ScheduleInput) (rule_id : ℕ) (f : Rule → Rule) (rules : List Rule)
    → ((x : Rule) → In x rules → is_rule rule_id x ≡ true → as_input (f x) ≡ n)
    → ((x : Rule) → (f x).id ≡ x.id)
    → schedule_conflicting_rule n (some rule_id) rules ≡ none
    → Apart rules
    → Apart (update_rows (is_rule rule_id) f rules)
update-Apart n rule_id f rules reads keeps clear apart r q i j ne c =
    let (x, (k, e)) = In-update (is_rule rule_id) f rules i in
    let (y, (l, g)) = In-update (is_rule rule_id) f rules j in
    by x y k l (updated_rule rule_id f x r (sym e)) (updated_rule rule_id f y q (sym g))
  where
    by :
        (x y : Rule)
        → In x rules
        → In y rules
        → ((is_rule rule_id x ≡ true) × (f x ≡ r)) ⊎ ((is_rule rule_id x ≡ false) × (x ≡ r))
        → ((is_rule rule_id y ≡ true) × (f y ≡ q)) ⊎ ((is_rule rule_id y ≡ false) × (y ≡ q))
        → ⊥
    by x y k l (inl (t, e)) (inl (u, g)) = ne (
        sym (ap (λ z. z.id) e)
        ∙ keeps x
        ∙ (==_iff x.id rule_id).0 t
        ∙ sym ((==_iff y.id rule_id).0 u)
        ∙ sym (keeps y)
        ∙ ap (λ z. z.id) g)
    by x y k l (inl (t, e)) (inr (u, g)) = no_conflict-Clash n (some rule_id) rules clear y l u (
        turned (
          subst (λ z. Clash z (as_input y)) (reads x k t)
            (subst (λ z. Clash (as_input z) (as_input y)) (sym e)
              (subst (λ z. Clash (as_input r) (as_input z)) (sym g) c))))
    by x y k l (inr (t, e)) (inl (u, g)) = no_conflict-Clash n (some rule_id) rules clear x k t (
        subst (λ z. Clash (as_input x) z) (reads y l u)
          (subst (λ z. Clash (as_input x) (as_input z)) (sym g)
            (subst (λ z. Clash (as_input z) (as_input q)) (sym e) c)))
    by x y k l (inr (t, e)) (inr (u, g)) =
        apart x y k l (λ same. ne (sym (ap (λ z. z.id) e) ∙ same ∙ ap (λ z. z.id) g))
          (subst (λ z. Clash (as_input z) (as_input y)) (sym e)
            (subst (λ z. Clash (as_input r) (as_input z)) (sym g) c))
