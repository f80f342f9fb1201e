-- ===== src/Prelude/RowMembers.antt =====
-- The rows of a table after INSERT and UPDATE, by membership, and searches as statements on members.
use mathlib.Core.Path.{◌≡◌, refl, ap, ◌∙◌, sym, subst}
use mathlib.Core.Logic.{◌⊎◌, inl, inr}
use mathlib.Core.Bool.{Bool, true, false}
use mathlib.Core.Option.{none, some}
use mathlib.Core.List.{List, [], ◌∷◌, ◌++◌, map}
use native.Mathlib.Omega.{arith}
use open_asicmanager.Prelude.Tests.{is_some, if◌then◌else◌, Bool-cases}
use open_asicmanager.Prelude.Rows.{All, select, first_row, update_rows}
use open_asicmanager.Prelude.RowSearch.{In}

module _ {A : Type 0} where
  -- Some row has the property.
  abbrev pub Some : (A → Type 0) → List A → Type 0
  Some P xs = (x : A) × (In x xs × P x)

  pub In-append_one : {y : A} (xs : List A) (x : A) → In y (xs ++ x ∷ []) → In y xs ⊎ (x ≡ y)
  In-append_one [] x (inl e) = inr e
  In-append_one [] x (inr e) = absurd e
  In-append_one (z ∷ xs) x (inl e) = inl (inl e)
  In-append_one (z ∷ xs) x (inr i) = elim (In-append_one xs x i) [
    | inl j ↦ inl (inr j)
    | inr e ↦ inr e
  ]

  pub append_one-old : (y : A) (xs : List A) (x : A) → In y xs → In y (xs ++ x ∷ [])
  append_one-old y [] x i = absurd i
  append_one-old y (z ∷ xs) x (inl e) = inl e
  append_one-old y (z ∷ xs) x (inr i) = inr (append_one-old y xs x i)

  pub append_one-new : (xs : List A) (x : A) → In x (xs ++ x ∷ [])
  append_one-new [] x = inl refl
  append_one-new (z ∷ xs) x = inr (append_one-new xs x)

  -- A row of an updated table comes from a row of the table before.
  pub In-update :
      (q : A → Bool) (f : A → A) {y : A} (xs : List A)
      → In y (update_rows q f xs)
      → (x : A) × (In x xs × (y ≡ (if q x then f x else x)))
  unfolding update_rows
  In-update q f [] i = absurd i
  In-update q f (x ∷ xs) (inl e) = (x, (inl refl, sym e))
  In-update q f (x ∷ xs) (inr i) = let (z, (j, e)) = In-update q f xs i in (z, (inr j, e))

  pub update_In :
      (q : A → Bool) (f : A → A) (x : A) (xs : List A)
      → In x xs
      → In (if q x then f x else x) (update_rows q f xs)
  unfolding update_rows
  update_In q f y [] i = absurd i
  update_In q f y (x ∷ xs) (inl e) = inl (ap (λ z. if q z then f z else z) e)
  update_In q f y (x ∷ xs) (inr i) = inr (update_In q f y xs i)

  pub All→In {κ} : (P : A → Type κ) {y : A} (xs : List A) → All P xs → In y xs → P y
  All→In P [] a i = absurd i
  All→In P (x ∷ xs) a (inl e) = subst P e a.0
  All→In P (x ∷ xs) a (inr i) = All→In P xs a.1 i

  pub first_none→In :
      (p : A → Bool) {y : A} (xs : List A) → first_row p xs ≡ none → In y xs → p y ≡ false
  unfolding first_row
  first_none→In p [] h i = absurd i
  first_none→In p (x ∷ xs) h (inl e) = elim (Bool-cases (p x)) [
    | inl t ↦ absurd (ground arith)
    | inr t ↦ ap p (sym e) ∙ t
  ]
  first_none→In p (x ∷ xs) h (inr i) = first_none→In p xs (ground arith) i

  pub first_row-In :
      (p : A → Bool) {y : A} (xs : List A) → first_row p xs ≡ some y → In y xs × (p y ≡ true)
  unfolding first_row
  first_row-In p [] h = cc
  first_row-In p {y} (x ∷ xs) h = elim (Bool-cases (p x)) [
    | inl t ↦ let e : x ≡ y = ground arith in (inl e, ap p (sym e) ∙ t)
    | inr t ↦ let (i, e) = first_row-In p {y = y} xs (ground arith) in (inr i, e)
  ]

  -- SELECT gives the rows that match.
  pub In-select : (p : A → Bool) {y : A} (xs : List A) → In y (select p xs) → In y xs × (p y ≡ true)
  unfolding select
  In-select p [] i = absurd i
  In-select p {y} (x ∷ xs) i = step (λ j. In-select p {y = y} xs j) (p x) refl i
    where
      step :
          (In y (select p xs) → In y xs × (p y ≡ true))
          → (b : Bool) → p x ≡ b
          → In y (if b then x ∷ select p xs else select p xs)
          → In y (x ∷ xs) × (p y ≡ true)
      step later true h (inl e) = (inl e, ap p (sym e) ∙ h)
      step later true h (inr j) = let (k, t) = later j in (inr k, t)
      step later false h j = let (k, t) = later j in (inr k, t)

  pub select-In : (p : A → Bool) {y : A} (xs : List A) → In y xs → p y ≡ true → In y (select p xs)
  unfolding select
  select-In p [] i t = absurd i
  select-In p (x ∷ xs) (inl e) t = rw (ap p e ∙ t) (inl e)
  select-In p (x ∷ xs) (inr i) t = elim (Bool-cases (p x)) [
    | inl h ↦ rw h (inr (select-In p xs i t))
    | inr h ↦ rw h (select-In p xs i t)
  ]

  pub In→All {κ} : (P : A → Type κ) (xs : List A) → ((y : A) → In y xs → P y) → All P xs
  In→All P [] h = tt
  In→All P (x ∷ xs) h = (h x (inl refl), In→All P xs (λ y i. h y (inr i)))

  pub In-append : (y : A) (xs ys : List A) → In y (xs ++ ys) → In y xs ⊎ In y ys
  In-append y [] ys i = inr i
  In-append y (x ∷ xs) ys (inl e) = inl (inl e)
  In-append y (x ∷ xs) ys (inr i) = elim (In-append y xs ys i) [
    | inl j ↦ inl (inr j)
    | inr j ↦ inr j
  ]

  pub append-In : (y : A) (xs ys : List A) → In y xs ⊎ In y ys → In y (xs ++ ys)
  append-In y [] ys (inl i) = absurd i
  append-In y [] ys (inr i) = i
  append-In y (x ∷ xs) ys (inl (inl e)) = inl e
  append-In y (x ∷ xs) ys (inl (inr i)) = inr (append-In y xs ys (inl i))
  append-In y (x ∷ xs) ys (inr i) = inr (append-In y xs ys (inr i))

  -- A search finds a row exactly when some row matches.
  pub found-Some :
      (p : A → Bool) (xs : List A) → is_some (first_row p xs) ≡ true → Some (λ x. p x ≡ true) xs
  unfolding first_row
  found-Some p [] h = cc
  found-Some p (x ∷ xs) h = elim (Bool-cases (p x)) [
    | inl t ↦ (x, (inl refl, t))
    | inr t ↦ let (y, (i, e)) = found-Some p xs (ground arith) in (y, (inr i, e))
  ]

  pub Some-found :
      (p : A → Bool) (y : A) (xs : List A) → In y xs → p y ≡ true → is_some (first_row p xs) ≡ true
  unfolding first_row
  Some-found p y [] i t = absurd i
  Some-found p y (x ∷ xs) (inl e) t = rw (ap p e ∙ t) refl
  Some-found p y (x ∷ xs) (inr i) t = ground (arith, Some-found p y xs i t)

module _ {A B : Type 0} where
  pub In-map : (f : A → B) (b : B) (xs : List A) → In b (map f xs) → Some (λ x. f x ≡ b) xs
  In-map f b [] i = absurd i
  In-map f b (x ∷ xs) (inl e) = (x, (inl refl, e))
  In-map f b (x ∷ xs) (inr i) = let (y, (j, e)) = In-map f b xs i in (y, (inr j, e))

  pub map-In : (f : A → B) (x : A) (xs : List A) → In x xs → In (f x) (map f xs)
  map-In f x [] i = absurd i
  map-In f x (y ∷ ys) (inl e) = inl (ap f e)
  map-In f x (y ∷ ys) (inr i) = inr (map-In f x ys i)
