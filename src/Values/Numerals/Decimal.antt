-- ===== src/Values/Numerals/Decimal.antt =====
-- `int(str(n))` is n.
use Prim.Native.Char.{code}
use Prim.Native.String.{String, [], ◌∷◌}
use open_asicmanager.Prelude.{
  ℕ, zero, suc, ◌+◌, ◌*◌, ◌/◌, ◌%◌, ◌<◌, ◌≡◌, refl, ap, ◌∙◌, sym, Bool, true, false, some, ltb,
  if◌then◌else◌, strip, strip_left, strip_right, is_space, arith, Bool-cases, inl, inr,
}
use open_asicmanager.Values.Integers.{pos}
use open_asicmanager.Values.Numerals.{
  digit_char, digits_before, decimal, digit, glyph, numeral, as_ℤ, signed, int_of_text,
}

digit-code : (d : ℕ) → d < 10 → code (digit_char d) ≡ b'0' + d
digit-code zero h = refl
digit-code (suc zero) h = refl
digit-code (suc (suc zero)) h = refl
digit-code (suc (suc (suc zero))) h = refl
digit-code (suc (suc (suc (suc zero)))) h = refl
digit-code (suc (suc (suc (suc (suc zero))))) h = refl
digit-code (suc (suc (suc (suc (suc (suc zero)))))) h = refl
digit-code (suc (suc (suc (suc (suc (suc (suc zero))))))) h = refl
digit-code (suc (suc (suc (suc (suc (suc (suc (suc zero)))))))) h = refl
digit-code (suc (suc (suc (suc (suc (suc (suc (suc (suc zero))))))))) h = refl
digit-code (suc (suc (suc (suc (suc (suc (suc (suc (suc (suc n)))))))))) h = absurd (omega arith)

digit-glyph : (d : ℕ) → d < 10 → glyph (digit_char d) ≡ digit d
unfolding glyph
digit-glyph d h = rw (digit-code d h) (ground arith)

digit-is_space : (d : ℕ) → d < 10 → is_space (digit_char d) ≡ false
unfolding is_space
digit-is_space d h = rw (digit-code d h) (ground arith)

numeral-digit :
    (d sum : ℕ) (b : Bool) (rest : String)
    → d < 10
    → numeral sum b (digit_char d ∷ rest) ≡ numeral (sum * 10 + d) true rest
unfolding numeral
numeral-digit d sum true rest h = rw (digit-glyph d h, numeral) refl
numeral-digit d sum false rest h = rw (digit-glyph d h, numeral) refl

numeral-digits_before :
    (fuel n : ℕ) (b : Bool) (rest : String)
    → n < fuel
    → numeral 0 b (digits_before fuel n rest) ≡ numeral n true rest
unfolding digits_before
numeral-digits_before zero n b rest h = ground arith
numeral-digits_before (suc fuel) n b rest h = elim (Bool-cases (ltb n 10)) [
  | inl e ↦ rw e (
      numeral-digit n 0 b rest (ground arith)
      ∙ ap (λ k. numeral k true rest) (let same : 0 * 10 + n ≡ n = omega arith in same))
  | inr e ↦ rw e (
      numeral-digits_before fuel (n / 10) b (digit_char (n % 10) ∷ rest) (ground arith)
      ∙ numeral-digit (n % 10) (n / 10) true rest (omega arith)
      ∙ ap (λ k. numeral k true rest) (let same : n / 10 * 10 + n % 10 ≡ n = omega arith in same))
]

-- A text that is a digit and more.
abbrev StartsDigit : String → Type 0
StartsDigit s = (d : ℕ) × (rest : String) × (d < 10) × (s ≡ digit_char d ∷ rest)

digits_before-StartsDigit :
    (fuel n : ℕ) (rest : String) → n < fuel → StartsDigit (digits_before fuel n rest)
unfolding digits_before
digits_before-StartsDigit zero n rest h = ground arith
digits_before-StartsDigit (suc fuel) n rest h = elim (Bool-cases (ltb n 10)) [
  | inl e ↦ rw e (n, rest, (ground arith), refl)
  | inr e ↦
      rw e (digits_before-StartsDigit fuel (n / 10) (digit_char (n % 10) ∷ rest) (ground arith))
]

signed-digit :
    (d : ℕ) (rest : String)
    → d < 10
    → signed (digit_char d ∷ rest) ≡ as_ℤ (numeral 0 false (digit_char d ∷ rest))
unfolding signed
signed-digit d rest h = rw (digit-code d h) (ground arith)

spaceless : String → Bool
spaceless [] = true
spaceless (c ∷ s) = if is_space c then false else spaceless s

spaceless-digits_before :
    (fuel n : ℕ) (rest : String)
    → spaceless rest ≡ true
    → spaceless (digits_before fuel n rest) ≡ true
unfolding digits_before spaceless
spaceless-digits_before zero n rest h = h
spaceless-digits_before (suc fuel) n rest h = elim (Bool-cases (ltb n 10)) [
  | inl e ↦ rw (e, digit-is_space n (ground arith)) h
  | inr e ↦ rw e (
      spaceless-digits_before fuel (n / 10) (digit_char (n % 10) ∷ rest)
        (rw (digit-is_space (n % 10) (omega arith)) h))
]

strip_left-spaceless : (s : String) → spaceless s ≡ true → strip_left s ≡ s
unfolding strip_left spaceless
strip_left-spaceless [] h = refl
strip_left-spaceless (c ∷ s) h = elim (Bool-cases (is_space c)) [
  | inl e ↦ absurd (ground arith)
  | inr e ↦ rw e refl
]

strip_right-spaceless : (s : String) → spaceless s ≡ true → strip_right s ≡ s
unfolding strip_right spaceless
strip_right-spaceless [] h = refl
strip_right-spaceless (c ∷ s) h = elim (Bool-cases (is_space c)) [
  | inl e ↦ absurd (ground arith)
  | inr e ↦ rw (e, strip_right-spaceless s (ground arith)) (ground arith)
]

pub int_of_text-decimal : (n : ℕ) → int_of_text (decimal n) ≡ some (pos n)
unfolding int_of_text decimal strip spaceless
int_of_text-decimal n =
    let s = digits_before (suc n) n [] in
    let clean = spaceless-digits_before (suc n) n [] refl in
    let (d, rest, small, starts) = digits_before-StartsDigit (suc n) n [] (omega arith) in
    let stripped : strip_right (strip_left s) ≡ s =
      ap strip_right (strip_left-spaceless s clean) ∙ strip_right-spaceless s clean in
    ap signed (stripped ∙ starts)
    ∙ signed-digit d rest small
    ∙ ap (λ t. as_ℤ (numeral 0 false t)) (sym starts)
    ∙ ap as_ℤ (numeral-digits_before (suc n) n false [] (omega arith))
