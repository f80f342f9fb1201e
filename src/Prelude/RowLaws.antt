-- ===== src/Prelude/RowLaws.antt =====
-- How the statements on a table act on one another: counts under INSERT and UPDATE, a row that is
-- found after an UPDATE, and the rows that a SELECT returns.
use Prim.Native.Nat.{ℕ, zero, suc, ◌+◌, ◌≤◌}
use mathlib.Core.Path.{◌≡◌, refl, ap, ◌∙◌}
use mathlib.Core.Logic.{inl, inr}
use mathlib.Core.Bool.{Bool, true, false}
use mathlib.Core.Option.{Option, none, some}
use mathlib.Core.List.{List, [], ◌∷◌, ◌++◌}
use native.Mathlib.Omega.{arith}
use open_asicmanager.Prelude.Tests.{if◌then◌else◌, Bool-cases}
use open_asicmanager.Prelude.Rows.{
  length, replicate, All, first_row, last_row, last_or, update_rows, count_rows,
}

module _ {ℓ} {A : Type ℓ} where
  pub count-append :
      (p : A → Bool) (xs ys : List A) → count_rows p (xs ++ ys) ≡ count_rows p xs + count_rows p ys
  unfolding count_rows
  count-append p [] ys = omega arith
  count-append p (x ∷ xs) ys = omega (arith, count-append p xs ys)

  -- An UPDATE that makes no row match where it did not match before adds no match.
  pub count-update-le :
      (p q : A → Bool) (f : A → A) (xs : List A)
      → ((x : A) → p (f x) ≡ true → p x ≡ true)
      → count_rows p (update_rows q f xs) ≤ count_rows p xs
  unfolding count_rows update_rows
  count-update-le p q f [] h = omega arith
  count-update-le p q f (x ∷ xs) h = ground (arith, h x, count-update-le p q f xs h)

  -- An UPDATE that keeps which rows match keeps the count.
  pub count-update-eq :
      (p q : A → Bool) (f : A → A) (xs : List A)
      → ((x : A) → q x ≡ true → p (f x) ≡ p x)
      → count_rows p (update_rows q f xs) ≡ count_rows p xs
  unfolding count_rows update_rows
  count-update-eq p q f [] h = refl
  count-update-eq p q f (x ∷ xs) h = ground (arith, h x, count-update-eq p q f xs h)

  last_or-none :
      (p : A → Bool) (d : Option A) (xs : List A)
      → last_or p d xs ≡ none
      → (count_rows p xs ≡ 0) × (d ≡ none)
  unfolding count_rows last_or
  last_or-none p d [] h = (refl, h)
  last_or-none p d (x ∷ xs) h = ground (arith, last_or-none p (if p x then some x else d) xs)

  -- When the newest match is missing, there is no match.
  pub count_of_last_none : (p : A → Bool) (xs : List A) → last_row p xs ≡ none → count_rows p xs ≡ 0
  unfolding last_row
  count_of_last_none p xs h = (last_or-none p none xs h).0

  pub length-append_one : (xs : List A) (x : A) → length (xs ++ x ∷ []) ≡ length xs + 1
  length-append_one [] x = refl
  length-append_one (y ∷ xs) x = omega (arith, length-append_one xs x)

  pub length-update :
      (q : A → Bool) (f : A → A) (xs : List A) → length (update_rows q f xs) ≡ length xs
  unfolding update_rows
  length-update q f [] = refl
  length-update q f (x ∷ xs) = omega (arith, length-update q f xs)

  pub update-append :
      (q : A → Bool) (f : A → A) (xs ys : List A)
      → update_rows q f (xs ++ ys) ≡ update_rows q f xs ++ update_rows q f ys
  unfolding update_rows
  update-append q f [] ys = refl
  update-append q f (x ∷ xs) ys = rw (update-append q f xs ys)

  -- After an UPDATE of the row that a key names, reading that key gives the new row.
  pub first-update_self :
      (q : A → Bool) (f : A → A) (xs : List A)
      → ((x : A) → q x ≡ true → q (f x) ≡ true)
      → first_row q (update_rows q f xs)
        ≡ elim (first_row q xs) [ none ↦ none | some x ↦ some (f x) ]
  unfolding first_row update_rows
  first-update_self q f [] h = refl
  first-update_self q f (x ∷ xs) h = ground (arith, h x, first-update_self q f xs h)

  -- and reading another key gives what it gave.
  pub first-update_ne :
      (p q : A → Bool) (f : A → A) (xs : List A)
      → ((x : A) → q x ≡ true → (p x ≡ false) × (p (f x) ≡ false))
      → first_row p (update_rows q f xs) ≡ first_row p xs
  unfolding first_row update_rows
  first-update_ne p q f [] h = refl
  first-update_ne p q f (x ∷ xs) h = ground (arith, h x, first-update_ne p q f xs h)

  pub first-append_none :
      (p : A → Bool) (xs ys : List A)
      → first_row p xs ≡ none
      → first_row p (xs ++ ys) ≡ first_row p ys
  unfolding first_row
  first-append_none p [] ys h = refl
  first-append_none p (x ∷ xs) ys h = ground (arith, first-append_none p xs ys)

  -- A row that is found matches.
  pub first_matches : (p : A → Bool) (xs : List A) {x : A} → first_row p xs ≡ some x → p x ≡ true
  unfolding first_row
  first_matches p [] h = cc
  first_matches p (y ∷ xs) {x} h = ground (arith, first_matches p xs {x = x})

  pub first_none_of_All :
      (p : A → Bool) (xs : List A) → All (λ x. p x ≡ false) xs → first_row p xs ≡ none
  unfolding first_row
  first_none_of_All p [] h = refl
  first_none_of_All p (x ∷ xs) h = ground (arith, first_none_of_All p xs)

  pub All-update {κ} :
      (P : A → Type κ) (q : A → Bool) (f : A → A) (xs : List A)
      → ((x : A) → P x → P (f x))
      → All P xs
      → All P (update_rows q f xs)
  unfolding update_rows
  All-update P q f [] h a = tt
  All-update P q f (x ∷ xs) h a = elim (Bool-cases (q x)) [
    | inl e ↦ rw e (h x a.0, All-update P q f xs h a.1)
    | inr e ↦ rw e (a.0, All-update P q f xs h a.1)
  ]

  pub All-append {κ} : (P : A → Type κ) (xs ys : List A) → All P xs → All P ys → All P (xs ++ ys)
  All-append P [] ys a b = b
  All-append P (x ∷ xs) ys a b = (a.0, All-append P xs ys a.1 b)

  pub All-map {κ μ} :
      (P : A → Type κ) (Q : A → Type μ) (xs : List A) → ((x : A) → P x → Q x) → All P xs → All Q xs
  All-map P Q [] h a = tt
  All-map P Q (x ∷ xs) h a = (h x a.0, All-map P Q xs h a.1)

  -- The same, where only the rows of the table are known to behave.
  pub count-update-le_All :
      (p q : A → Bool) (f : A → A) (xs : List A)
      → All (λ x. q x ≡ true → p (f x) ≡ true → p x ≡ true) xs
      → count_rows p (update_rows q f xs) ≤ count_rows p xs
  unfolding count_rows update_rows
  count-update-le_All p q f [] h = omega arith
  count-update-le_All p q f (x ∷ xs) h = ground (arith, h.0, count-update-le_All p q f xs h.1)

  none_of_count_zero :
      (q : A → Bool) (P : A → Type ℓ) (xs : List A)
      → count_rows q xs ≡ 0
      → All (λ x. q x ≡ true → P x) xs
  unfolding count_rows
  none_of_count_zero q P [] c = tt
  none_of_count_zero q P (x ∷ xs) c = elim (Bool-cases (q x)) [
    | inl e ↦ absurd (ground arith)
    | inr e ↦ (λ t. absurd (ground arith), none_of_count_zero q P xs (ground arith))
  ]

  -- Where a key is used once, a row with the key is the row that is found.
  pub unique_row :
      (q : A → Bool) (xs : List A) {r : A}
      → first_row q xs ≡ some r
      → count_rows q xs ≤ 1
      → All (λ x. q x ≡ true → x ≡ r) xs
  unfolding first_row count_rows
  unique_row q [] h c = tt
  unique_row q (x ∷ xs) {r} h c = elim (Bool-cases (q x)) [
    | inl e ↦ (λ t. ground arith, none_of_count_zero q (λ y. y ≡ r) xs (ground arith))
    | inr e ↦ (λ t. absurd (ground arith), unique_row q xs (ground arith) (ground arith))
  ]

  last_or-append_match :
      (p : A → Bool) (d : Option A) (xs : List A) (x : A)
      → p x ≡ true
      → last_or p d (xs ++ x ∷ []) ≡ some x
  unfolding last_or
  last_or-append_match p d [] x h = ground arith
  last_or-append_match p d (y ∷ xs) x h = last_or-append_match p (if p y then some y else d) xs x h

  -- A matching row that is inserted is the newest match.
  pub last-append_match :
      (p : A → Bool) (xs : List A) (x : A) → p x ≡ true → last_row p (xs ++ x ∷ []) ≡ some x
  unfolding last_row
  last-append_match p xs x h = last_or-append_match p none xs x h

  pub replicate-append_one : (n : ℕ) (a : A) → replicate n a ++ a ∷ [] ≡ a ∷ replicate n a
  replicate-append_one zero a = refl
  replicate-append_one (suc n) a = ap (λ t. a ∷ t) (replicate-append_one n a)

  -- What holds of every row holds of the rows of a table.
  pub All-always {κ} : (P : A → Type κ) (xs : List A) → ((x : A) → P x) → All P xs
  All-always P [] h = tt
  All-always P (x ∷ xs) h = (h x, All-always P xs h)

  -- The first match of a weaker test is the first match of a stronger one that it passes.
  pub first_of_stronger :
      (p q : A → Bool) (r : A) (xs : List A)
      → ((x : A) → q x ≡ true → p x ≡ true)
      → first_row p xs ≡ some r
      → q r ≡ true
      → first_row q xs ≡ some r
  unfolding first_row
  first_of_stronger p q r [] h f t = cc
  first_of_stronger p q r (x ∷ xs) h f t = elim (Bool-cases (p x)) [
    | inl e ↦ let same : x ≡ r = ground arith in rw (ap q same ∙ t) (ap some same)
    | inr e ↦
        let away : q x ≡ false = ground (arith, h x) in
        rw away (first_of_stronger p q r xs h (ground arith) t)
  ]

  -- A match that is there stays the first one when a row is inserted.
  pub first-append_found :
      (p : A → Bool) (xs ys : List A) {r : A}
      → first_row p xs ≡ some r
      → first_row p (xs ++ ys) ≡ some r
  unfolding first_row
  first-append_found p [] ys h = cc
  first-append_found p (x ∷ xs) ys {r} h = ground (arith, first-append_found p xs ys {r = r})
