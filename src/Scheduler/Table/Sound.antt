-- ===== src/Scheduler/Table/Sound.antt =====
-- What the statements on schedule_rules do to the invariant of the table (app/scheduler/repository.py).
use open_asicmanager.Prelude.{
  ℕ, ◌+◌, ◌≤◌, ◌<◌, ◌≡◌, ◌⊎◌, inl, inr, sym, subst, refl, ap, Bool, true, false, Option, none, some,
  List, [], ◌∷◌, arith, if◌then◌else◌, All, In, In→All, In-update, first_row-In, update_rows,
  delete_rows, count_rows, count-append, count-update-eq, All-append, All-map, All-update, All→In,
  unique_row,
}
use open_asicmanager.Scheduler.{Rule}
use open_asicmanager.Scheduler.Input.{ScheduleInput}
use open_asicmanager.Scheduler.Input.Bounds.{IsAccepted}
use open_asicmanager.Scheduler.Input.Times.{as_input}
use open_asicmanager.Scheduler.Table.{
  RuleTable, schedule_conflicting_rule, is_rule, get_schedule_rule, new_rule, changed_rule,
  switched, switched_rule, create_schedule_rule, update_schedule_rule, set_schedule_rule_enabled,
  delete_schedule_rule, delete_found,
}
use open_asicmanager.Scheduler.Table.Apart.{
  IsSound, In-delete, updated_rule, create-Apart, update-Apart,
}

count_of_below :
    (i n : ℕ) (xs : List Rule) → All (λ r. r.id < n) xs → n ≤ i → count_rows (is_rule i) xs ≡ 0
unfolding count_rows
count_of_below i n [] h le = refl
count_of_below i n (x ∷ xs) h le = ground (arith, count_of_below i n xs h.1 le, h.0)

-- Inserting an accepted rule that finds no conflict.
pub create-IsSound :
    (n : ScheduleInput) (now : ℕ) (t : RuleTable)
    → IsAccepted n
    → schedule_conflicting_rule n none t.rules ≡ none
    → IsSound t
    → IsSound (create_schedule_rule n now t).1
unfolding create_schedule_rule count_rows
create-IsSound n now t a clear s = record {
  distinct_ids = λ i. ground (
    arith,
    count-append (is_rule i) t.rules (new_rule t.next_rule n now ∷ []),
    s.distinct_ids i,
    count_of_below i t.next_rule t.rules s.fresh_id,
  );
  fresh_id =
      All-append (λ r. r.id < t.next_rule + 1) t.rules _
        (All-map (λ r. r.id < t.next_rule) (λ r. r.id < t.next_rule + 1) t.rules
          (λ r h. omega arith) s.fresh_id)
        (omega arith, tt);
  accepted = All-append (λ r. IsAccepted (as_input r)) t.rules _ s.accepted (a, tt);
  apart = create-Apart n now t.next_rule t.rules clear s.apart;
}

-- Rewriting the rules with an id into rows that read as an accepted input without conflict.
rewritten-IsSound :
    (n : ScheduleInput) (rule_id : ℕ) (f : Rule → Rule) (t : RuleTable)
    → IsAccepted n
    → ((x : Rule) → In x t.rules → is_rule rule_id x ≡ true → as_input (f x) ≡ n)
    → ((x : Rule) → (f x).id ≡ x.id)
    → schedule_conflicting_rule n (some rule_id) t.rules ≡ none
    → IsSound t
    → IsSound (record t { rules = update_rows (is_rule rule_id) f t.rules })
rewritten-IsSound n rule_id f t a reads keeps clear s = record {
  distinct_ids = λ i. omega (
    arith,
    count-update-eq (is_rule i) (is_rule rule_id) f t.rules (λ x _. ground (arith, keeps x)),
    s.distinct_ids i,
  );
  fresh_id =
      All-update (λ r. r.id < t.next_rule) (is_rule rule_id) f t.rules
        (λ x h. omega (arith, keeps x)) s.fresh_id;
  accepted =
      In→All (λ r. IsAccepted (as_input r)) _
        (λ r i. from r (In-update (is_rule rule_id) f t.rules i));
  apart = update-Apart n rule_id f t.rules reads keeps clear s.apart;
}
  where
    read_as :
        (x r : Rule)
        → In x t.rules
        → ((is_rule rule_id x ≡ true) × (f x ≡ r)) ⊎ ((is_rule rule_id x ≡ false) × (x ≡ r))
        → IsAccepted (as_input r)
    read_as x r i (inl (u, e)) =
        subst (λ z. IsAccepted (as_input z)) e (subst IsAccepted (sym (reads x i u)) a)
    read_as x r i (inr (u, e)) =
        subst (λ z. IsAccepted (as_input z)) e
          (All→In (λ z. IsAccepted (as_input z)) t.rules s.accepted i)

    from :
        (r : Rule)
        → (x : Rule) × (In x t.rules × (r ≡ (if is_rule rule_id x then f x else x)))
        → IsAccepted (as_input r)
    from r (x, (i, e)) = read_as x r i (updated_rule rule_id f x r (sym e))

-- An UPDATE to accepted columns that find no conflict with the other rules.
pub update-IsSound :
    (rule_id : ℕ) (n : ScheduleInput) (effective_from now : ℕ) (t : RuleTable)
    → IsAccepted n
    → schedule_conflicting_rule n (some rule_id) t.rules ≡ none
    → IsSound t
    → IsSound (update_schedule_rule rule_id n effective_from now t).1
unfolding update_schedule_rule
update-IsSound rule_id n effective_from now t a clear s =
    rewritten-IsSound n rule_id (changed_rule n effective_from now) t a (λ x i e. refl) (λ x. refl)
      clear s

current-accepted :
    (rule_id : ℕ) (enabled : Bool) (t : RuleTable) {r : Rule}
    → get_schedule_rule rule_id t.rules ≡ some r
    → IsSound t
    → IsAccepted (switched enabled r)
unfolding get_schedule_rule
current-accepted rule_id enabled t {r} found s =
    let (i, _) = first_row-In (is_rule rule_id) t.rules found in
    let a : IsAccepted (as_input r) = All→In (λ z. IsAccepted (as_input z)) t.rules s.accepted i in
    record {
      time = a.time;
      some_day = a.some_day;
      days = a.days;
      command = a.command;
      short = a.short;
      target = a.target;
    }

-- An UPDATE of `enabled` alone: what is checked are the columns of the rule that is found, switched.
pub switched-IsSound :
    (rule_id : ℕ) (enabled : Bool) (effective_from now : ℕ) (t : RuleTable) {r : Rule}
    → get_schedule_rule rule_id t.rules ≡ some r
    → schedule_conflicting_rule (switched enabled r) (some rule_id) t.rules ≡ none
    → IsSound t
    → IsSound (set_schedule_rule_enabled rule_id enabled effective_from now t).1
unfolding set_schedule_rule_enabled get_schedule_rule
switched-IsSound rule_id enabled effective_from now t {r} found clear s =
    rewritten-IsSound (switched enabled r) rule_id (switched_rule enabled effective_from now) t
      (current-accepted rule_id enabled t found s)
      (λ x i e.
        let same : x ≡ r =
          All→In (λ z. is_rule rule_id z ≡ true → z ≡ r) t.rules
            (unique_row (is_rule rule_id) t.rules found (s.distinct_ids rule_id)) i e in
        ap (switched enabled) same)
      (λ x. refl) clear s

count-delete-le :
    (p q : Rule → Bool) (rules : List Rule)
    → count_rows p (delete_rows q rules) ≤ count_rows p rules
unfolding count_rows delete_rows
count-delete-le p q [] = omega arith
count-delete-le p q (x ∷ rules) = ground (arith, count-delete-le p q rules)

deleted-IsSound :
    (rule_id : ℕ) (t : RuleTable)
    → IsSound t
    → IsSound (record t { rules = delete_rows (is_rule rule_id) t.rules })
deleted-IsSound rule_id t s = record {
  distinct_ids =
      λ i. omega (arith, count-delete-le (is_rule i) (is_rule rule_id) t.rules, s.distinct_ids i);
  fresh_id =
      In→All (λ r. r.id < t.next_rule) _
        (λ r i. All→In (λ z. z.id < t.next_rule) t.rules s.fresh_id (old r i));
  accepted =
      In→All (λ r. IsAccepted (as_input r)) _
        (λ r i. All→In (λ z. IsAccepted (as_input z)) t.rules s.accepted (old r i));
  apart = λ r q i j. s.apart r q (old r i) (old q j);
}
  where
    old : (r : Rule) → In r (delete_rows (is_rule rule_id) t.rules) → In r t.rules
    old r i = In-delete (is_rule rule_id) r t.rules i

pub delete-IsSound :
    (rule_id : ℕ) (t : RuleTable) → IsSound t → IsSound (delete_schedule_rule rule_id t).1
unfolding delete_schedule_rule
delete-IsSound rule_id t s = by (get_schedule_rule rule_id t.rules)
  where
    by : (o : Option Rule) → IsSound (delete_found rule_id o t).1
    by none = s
    by (some r) = deleted-IsSound rule_id t s
