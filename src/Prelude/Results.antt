-- ===== src/Prelude/Results.antt =====
-- Calls that may raise: a result or the exception, with `do`.
use mathlib.Core.Bool.{Bool, true, false}
use mathlib.Core.Path.{◌≡◌, refl, subst}

pub data Result {ℓ} (E A : Type ℓ) : Type ℓ where
  ok : A → Result E A
  raised : E → Result E A

infixl 5 ◌>>=◌ ◌>>◌
abbrev pub ◌>>=◌ {ℓ} : {E A B : Type ℓ} → Result E A → (A → Result E B) → Result E B
ok a >>= f = f a
raised e >>= f = raised e

abbrev pub ◌>>◌ {ℓ} : {E B : Type ℓ} → Result E (Unit {ℓ}) → Result E B → Result E B
m >> k = m >>= λ _. k

-- `if test: raise e`
abbrev pub raise_if {ℓ} : {E : Type ℓ} → Bool → E → Result E (Unit {ℓ})
raise_if true e = raised e
raise_if false e = ok tt

module _ {ℓ} {E : Type ℓ} where
  -- What holds of the result, where there is one.
  abbrev pub Ensures {κ} : {A : Type ℓ} → (A → Type κ) → Result E A → Type κ
  Ensures Q (ok a) = Q a
  Ensures Q (raised e) = Unit

  pub bind-Ensures {κ} :
      {A B : Type ℓ} (Q : B → Type κ) (m : Result E A) (k : A → Result E B)
      → ((a : A) → m ≡ ok a → Ensures Q (k a))
      → Ensures Q (m >>= k)
  bind-Ensures Q (ok a) k h = h a refl
  bind-Ensures Q (raised e) k h = tt

  pub then-Ensures {κ} :
      {B : Type ℓ} (Q : B → Type κ) (m : Result E (Unit {ℓ})) (k : Result E B)
      → (m ≡ ok tt → Ensures Q k)
      → Ensures Q (m >> k)
  then-Ensures Q (ok tt) k h = h refl
  then-Ensures Q (raised e) k h = tt

  pub ensured {κ} :
      {A : Type ℓ} (Q : A → Type κ) (r : Result E A) {a : A} → Ensures Q r → r ≡ ok a → Q a
  ensured Q r h e = subst (Ensures Q) e h

  pub Ensures-map {κ μ} :
      {A : Type ℓ} (P : A → Type κ) (Q : A → Type μ) (r : Result E A)
      → ((a : A) → P a → Q a)
      → Ensures P r
      → Ensures Q r
  Ensures-map P Q (ok a) f h = f a h
  Ensures-map P Q (raised e) f h = tt

  pub and-Ensures {κ μ} :
      {A : Type ℓ} (P : A → Type κ) (Q : A → Type μ) (r : Result E A)
      → Ensures P r
      → Ensures Q r
      → Ensures (λ a. P a × Q a) r
  and-Ensures P Q (ok a) h k = (h, k)
  and-Ensures P Q (raised e) h k = tt

  -- Two calls in a row return where both return.
  pub then-ok :
      {B : Type ℓ} (m : Result E (Unit {ℓ})) (k : Result E B) {b : B}
      → (m >> k) ≡ ok b
      → (m ≡ ok tt) × (k ≡ ok b)
  then-ok (ok tt) k h = (refl, h)
  then-ok (raised e) k h = absurd (cc)
