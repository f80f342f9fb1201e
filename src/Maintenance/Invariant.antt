-- ===== src/Maintenance/Invariant.antt =====
-- The invariant of the maintenance_windows table (app/maintenance_windows/repository.py), under the
-- INSERT and the UPDATE of the repository.
use open_asicmanager.Prelude.{
  ℕ, ◌+◌, ◌≤◌, ◌<◌, ◌≡◌, ◌≢◌, ◌⊎◌, refl, sym, ap, ◌∙◌, subst, Bool, true, false, not, ◌&&◌, Option,
  none, some, List, [], ◌∷◌, ◌++◌, arith, ◌==◌, ==_refl, Bool-cases, inl, inr, if◌then◌else◌,
  is_some, All, All-map, All-append, All-update, In, In-append_one, In-update, All→In, In→All,
  count_rows, count-append, count-update-eq, update_rows, unique-In,
}
use open_asicmanager.Maintenance.{
  Scope, farm, miner_scope, group_scope, scope_eq, Window, is_window, same_target, overlaps,
  open_window,
}

-- Two windows that have not been ended, have the same target, and overlap in time.
abbrev pub collide : Window → Window → Bool
collide x y =
    not (is_some x.ended_at)
    && overlaps x.starts_at x.ends_at y
    && same_target x.scope x.miner_id x.group_id y

-- The ids that belong to a scope: the CHECK of the table.
unfoldable pub shape : Scope → Option ℕ → Option ℕ → Bool
shape farm none none = true
shape miner_scope (some m) none = true
shape group_scope none (some g) = true
shape _ _ _ = false

abbrev pub Bounded : ℕ → ℕ → Type 0
Bounded starts_at ends_at = (starts_at < ends_at) × (ends_at ≤ starts_at + 604800)

abbrev pub IsSound : Window → Type 0
IsSound w = (shape w.scope w.miner_id w.group_id ≡ true) × Bounded w.starts_at w.ends_at

abbrev pub IsBelow : ℕ → Window → Type 0
IsBelow n w = w.id < n

-- No two windows of one target that have not been ended overlap, each is well shaped and at most
-- seven days long, and ids are used once.
pub record WellFormed (windows : List Window) (next : ℕ) : Type 0 where
  pub apart : (x y : Window) → In x windows → In y windows → x.id ≢ y.id → collide x y ≡ false
  pub sound : All IsSound windows
  pub distinct_ids : (i : ℕ) → count_rows (is_window i) windows ≤ 1
  pub fresh_id : All (IsBelow next) windows

target_sym :
    (x y : Window)
    → shape x.scope x.miner_id x.group_id ≡ true
    → shape y.scope y.miner_id y.group_id ≡ true
    → same_target x.scope x.miner_id x.group_id y ≡ same_target y.scope y.miner_id y.group_id x
unfolding same_target shape scope_eq
target_sym x y hx hy = ground arith

pub collide_sym :
    (x y : Window)
    → shape x.scope x.miner_id x.group_id ≡ true
    → shape y.scope y.miner_id y.group_id ≡ true
    → collide x y ≡ false
    → collide y x ≡ false
collide_sym x y hx hy h = ground (arith, target_sym x y hx hy)

count_of_below :
    (i n : ℕ) (xs : List Window) → All (IsBelow n) xs → n ≤ i → count_rows (is_window i) xs ≡ 0
unfolding count_rows
count_of_below i n [] h le = refl
count_of_below i n (x ∷ xs) h le = ground (arith, count_of_below i n xs h.1 le, h.0)

shape_of :
    (windows : List Window) (next : ℕ) (x : Window)
    → WellFormed windows next
    → In x windows
    → shape x.scope x.miner_id x.group_id ≡ true
shape_of windows next x wf i = (All→In IsSound windows wf.sound i).0

-- A window that collides with no window of the table may be inserted.
pub insert-WellFormed :
    (w : Window) (windows : List Window) (next : ℕ)
    → w.id ≡ next
    → IsSound w
    → ((y : Window) → In y windows → collide w y ≡ false)
    → WellFormed windows next
    → WellFormed (windows ++ w ∷ []) (next + 1)
unfolding count_rows
insert-WellFormed w windows next e ok_w free wf = record {
  apart = λ x y i j ne. elim (In-append_one windows w i) [
    | inl a ↦ elim (In-append_one windows w j) [
      | inl b ↦ wf.apart x y a b ne
      | inr b ↦
          subst (λ z. collide x z ≡ false) b
            (collide_sym w x ok_w.0 (shape_of windows next x wf a) (free x a))
    ]
    | inr a ↦ elim (In-append_one windows w j) [
      | inl b ↦ subst (λ z. collide z y ≡ false) a (free y b)
      | inr b ↦ absurd (ne (ap Window.id (sym a ∙ b)))
    ]
  ];
  sound = All-append IsSound windows (w ∷ []) wf.sound (ok_w, tt);
  distinct_ids = λ i.
      let added = count-append (is_window i) windows (w ∷ []) in
      let old = wf.distinct_ids i in
      let none_yet = count_of_below i next windows wf.fresh_id in ground arith;
  fresh_id =
      All-append (IsBelow (next + 1)) windows (w ∷ [])
        (All-map (IsBelow next) (IsBelow (next + 1)) windows (λ x h. omega arith) wf.fresh_id)
        (omega arith, tt);
}

-- A row after an UPDATE of one open window is the changed row, or a row of the table before.
updated_row :
    (w : Window) (f : Window → Window) (windows : List Window) (next : ℕ) (y : Window)
    → WellFormed windows next
    → In w windows
    → In y (update_rows (open_window w.id) f windows)
    → (y ≡ f w) ⊎ In y windows
updated_row w f windows next y wf there i =
    let (z, (iz, e)) = In-update (open_window w.id) f windows i in
    let same =
      All→In (λ x. is_window w.id x ≡ true → x ≡ w) windows
        (unique-In (is_window w.id) w windows there (==_refl w.id) (wf.distinct_ids w.id)) iz in
    elim (Bool-cases (open_window w.id z)) [
      | inl t ↦ inl (subst (λ b. y ≡ (if b then f z else z)) t e ∙ ap f (same (ground arith)))
      | inr t ↦
          inr (subst (λ x. In x windows) (sym (subst (λ b. y ≡ (if b then f z else z)) t e)) iz)
    ]

-- An UPDATE of the open window with an id, to one that keeps the id and stays sound, and that
-- collides with no other window, keeps the invariant.
pub update-WellFormed :
    (w : Window) (f : Window → Window) (windows : List Window) (next : ℕ)
    → In w windows
    → ((x : Window) → (f x).id ≡ x.id)
    → IsSound (f w)
    → ((y : Window) → In y windows → y.id ≢ w.id → collide (f w) y ≡ false)
    → WellFormed windows next
    → WellFormed (update_rows (open_window w.id) f windows) next
update-WellFormed w f windows next there keeps ok_w free wf = record {
  apart = λ x y i j ne. elim (updated_row w f windows next x wf there i) [
    | inl a ↦ elim (updated_row w f windows next y wf there j) [
      | inl b ↦ absurd (ne (ap Window.id (a ∙ sym b)))
      | inr b ↦
          subst (λ z. collide z y ≡ false) (sym a)
            (free y b (λ e. ne (ap Window.id a ∙ keeps w ∙ sym e)))
    ]
    | inr a ↦ elim (updated_row w f windows next y wf there j) [
      | inl b ↦
          subst (λ z. collide x z ≡ false) (sym b)
            (collide_sym (f w) x ok_w.0 (shape_of windows next x wf a)
              (free x a (λ e. ne (e ∙ sym (keeps w) ∙ sym (ap Window.id b)))))
      | inr b ↦ wf.apart x y a b ne
    ]
  ];
  sound = In→All IsSound _ (λ y i. elim (updated_row w f windows next y wf there i) [
    | inl a ↦ subst IsSound (sym a) ok_w
    | inr a ↦ All→In IsSound windows wf.sound a
  ]);
  distinct_ids = λ i.
      let kept =
        count-update-eq (is_window i) (open_window w.id) f windows
          (λ x t. ap (λ n. n == i) (keeps x)) in
      let old = wf.distinct_ids i in omega arith;
  fresh_id =
      All-update (IsBelow next) (open_window w.id) f windows (λ x h. omega (arith, keeps x))
        wf.fresh_id;
}
