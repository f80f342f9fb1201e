-- ===== src/Prelude/RowSearch.antt =====
-- More laws of statements on a table: rows that are in it, DELETE, and the newest match after INSERT,
-- UPDATE and DELETE.
use Prim.Native.Nat.{◌≤◌}
use mathlib.Core.Path.{◌≡◌, refl, ap, ◌∙◌, sym}
use mathlib.Core.Logic.{◌⊎◌, inl, inr}
use mathlib.Core.Bool.{Bool, true, false}
use mathlib.Core.Option.{Option, none, some}
use mathlib.Core.List.{List, [], ◌∷◌, ◌++◌}
use native.Mathlib.Omega.{arith}
use open_asicmanager.Prelude.Tests.{if◌then◌else◌, Bool-cases}
use open_asicmanager.Prelude.Rows.{
  All, delete_rows, first_row, last_row, last_or, update_rows, count_rows,
}

module _ {A : Type 0} where
  abbrev pub In : A → List A → Type 0
  In r [] = ⊥
  In r (x ∷ xs) = (x ≡ r) ⊎ In r xs

  abbrev pub map_row : (A → Bool) → (A → A) → Option A → Option A
  map_row q f none = none
  map_row q f (some x) = some (if q x then f x else x)

  last_or-In :
      (p : A → Bool) (d : Option A) (xs : List A) {r : A}
      → last_or p d xs ≡ some r
      → (d ≡ some r) ⊎ (In r xs × (p r ≡ true))
  unfolding last_or
  last_or-In p d [] h = inl h
  last_or-In p d (x ∷ xs) {r} h =
      step (last_or-In p (if p x then some x else d) xs h) (Bool-cases (p x))
    where
      step :
          ((if p x then some x else d) ≡ some r) ⊎ (In r xs × (p r ≡ true))
          → (p x ≡ true) ⊎ (p x ≡ false)
          → (d ≡ some r) ⊎ (((x ≡ r) ⊎ In r xs) × (p r ≡ true))
      step (inr (i, t)) c = inr (inr i, t)
      step (inl e) (inl c) = let same : x ≡ r = ground arith in inr (inl same, ap p (sym same) ∙ c)
      step (inl e) (inr c) = inl (ground arith)

  -- The newest match is a row of the table, and matches.
  pub last_row-In :
      (p : A → Bool) (xs : List A) {r : A} → last_row p xs ≡ some r → In r xs × (p r ≡ true)
  unfolding last_row
  last_row-In p xs {r} h = elim (last_or-In p none xs h) [ inl e ↦ cc | inr i ↦ i ]

  pub count-pos_of_In :
      (q : A → Bool) (r : A) (xs : List A) → In r xs → q r ≡ true → 1 ≤ count_rows q xs
  unfolding count_rows
  count-pos_of_In q r [] i t = absurd i
  count-pos_of_In q r (x ∷ xs) (inl e) t = let here : q x ≡ true = ap q e ∙ t in ground arith
  count-pos_of_In q r (x ∷ xs) (inr i) t = omega (arith, count-pos_of_In q r xs i t)

  All-of_none :
      (q : A → Bool) (P : A → Type 0) (xs : List A)
      → count_rows q xs ≡ 0
      → All (λ x. q x ≡ true → P x) xs
  unfolding count_rows
  All-of_none q P [] c = tt
  All-of_none q P (x ∷ xs) c = (λ t. absurd (ground arith), All-of_none q P xs (omega arith))

  -- Where a key is used once, the rows with the key are the one that is known.
  pub unique-In :
      (q : A → Bool) (r : A) (xs : List A)
      → In r xs
      → q r ≡ true
      → count_rows q xs ≤ 1
      → All (λ x. q x ≡ true → x ≡ r) xs
  unfolding count_rows
  unique-In q r [] i t c = absurd i
  unique-In q r (x ∷ xs) (inl e) t c =
      let here : q x ≡ true = ap q e ∙ t in (λ h. e, All-of_none q (λ y. y ≡ r) xs (ground arith))
  unique-In q r (x ∷ xs) (inr i) t c =
      let later = count-pos_of_In q r xs i t in
      (λ h. absurd (ground arith), unique-In q r xs i t (omega arith))

  head_map :
      (p q : A → Bool) (f : A → A) (d : Option A) (x : A)
      → (q x ≡ true → p (f x) ≡ p x)
      → (let y : A = if q x then f x else x in if p y then some y else map_row q f d)
        ≡ map_row q f (if p x then some x else d)
  head_map p q f d x h = ground arith

  last_or-map :
      (p q : A → Bool) (f : A → A) (d : Option A) (xs : List A)
      → All (λ x. q x ≡ true → p (f x) ≡ p x) xs
      → last_or p (map_row q f d) (update_rows q f xs) ≡ map_row q f (last_or p d xs)
  unfolding last_or update_rows
  last_or-map p q f d [] h = refl
  last_or-map p q f d (x ∷ xs) h =
      ap (λ t. last_or p t (update_rows q f xs)) (head_map p q f d x h.0)
      ∙ last_or-map p q f (if p x then some x else d) xs h.1

  -- The newest match after an UPDATE that keeps what matches is the newest match, updated.
  pub last-update :
      (p q : A → Bool) (f : A → A) (xs : List A)
      → All (λ x. q x ≡ true → p (f x) ≡ p x) xs
      → last_row p (update_rows q f xs) ≡ map_row q f (last_row p xs)
  unfolding last_row
  last-update p q f xs h = last_or-map p q f none xs h

  last_or-append_other :
      (p : A → Bool) (d : Option A) (xs : List A) (x : A)
      → p x ≡ false
      → last_or p d (xs ++ x ∷ []) ≡ last_or p d xs
  unfolding last_or
  last_or-append_other p d [] x h = rw h
  last_or-append_other p d (y ∷ xs) x h = last_or-append_other p (if p y then some y else d) xs x h

  -- A row that is inserted and does not match leaves the newest match.
  pub last-append_other :
      (p : A → Bool) (xs : List A) (x : A) → p x ≡ false → last_row p (xs ++ x ∷ []) ≡ last_row p xs
  unfolding last_row
  last-append_other p xs x h = last_or-append_other p none xs x h

  last_or_of_none :
      (p : A → Bool) (d : Option A) (xs : List A) → count_rows p xs ≡ 0 → last_or p d xs ≡ d
  unfolding last_or count_rows
  last_or_of_none p d [] h = refl
  last_or_of_none p d (x ∷ xs) h =
      let away : p x ≡ false = ground arith in rw away (last_or_of_none p d xs (omega arith))

  -- No match, no newest match.
  pub last_none_of_count : (p : A → Bool) (xs : List A) → count_rows p xs ≡ 0 → last_row p xs ≡ none
  unfolding last_row
  last_none_of_count p xs h = last_or_of_none p none xs h

  -- An UPDATE that takes every match out of the matches leaves none.
  pub count-update_away :
      (p q : A → Bool) (f : A → A) (xs : List A)
      → ((x : A) → p (f x) ≡ false)
      → All (λ x. p x ≡ true → q x ≡ true) xs
      → count_rows p (update_rows q f xs) ≡ 0
  unfolding count_rows update_rows
  count-update_away p q f [] away h = refl
  count-update_away p q f (x ∷ xs) away h =
      ground (arith, away x, h.0, count-update_away p q f xs away h.1)

  pub first-delete_self : (p : A → Bool) (xs : List A) → first_row p (delete_rows p xs) ≡ none
  unfolding first_row delete_rows
  first-delete_self p [] = refl
  first-delete_self p (x ∷ xs) = ground (arith, first-delete_self p xs)

  pub first-delete_ne :
      (p q : A → Bool) (xs : List A)
      → ((x : A) → q x ≡ true → p x ≡ false)
      → first_row p (delete_rows q xs) ≡ first_row p xs
  unfolding first_row delete_rows
  first-delete_ne p q [] h = refl
  first-delete_ne p q (x ∷ xs) h = ground (arith, h x, first-delete_ne p q xs h)

  pub first-append_other :
      (p : A → Bool) (xs : List A) (x : A)
      → p x ≡ false
      → first_row p (xs ++ x ∷ []) ≡ first_row p xs
  unfolding first_row
  first-append_other p [] x h = rw h
  first-append_other p (y ∷ xs) x h = ground (arith, first-append_other p xs x h)

  -- The oldest match after an UPDATE that keeps what matches is the oldest match, updated.
  pub first-update :
      (p q : A → Bool) (f : A → A) (xs : List A)
      → ((x : A) → q x ≡ true → p (f x) ≡ p x)
      → first_row p (update_rows q f xs) ≡ map_row q f (first_row p xs)
  unfolding first_row update_rows
  first-update p q f [] h = refl
  first-update p q f (x ∷ xs) h = ground (arith, h x, first-update p q f xs h)

  pub first-append_match :
      (p : A → Bool) (xs : List A) (x : A)
      → first_row p xs ≡ none
      → p x ≡ true
      → first_row p (xs ++ x ∷ []) ≡ some x
  unfolding first_row
  first-append_match p [] x h t = rw t
  first-append_match p (y ∷ xs) x h t = ground (arith, first-append_match p xs x)
