-- ===== src/Values/Numerals.antt =====
-- Numbers and words in texts: `int(text)`, `str(int)`, the format `02d`, `str.upper`, `str.lower` and
-- `str.split(sep, 1)`. Of the decimal digits of Unicode `int` reads those of ASCII here, and it has no limit
-- on their number.
pub mod Decimal
use Prim.Native.Char.{Char, code}
use Prim.Native.String.{String, [], ◌∷◌, ◌++◌}
use open_asicmanager.Prelude.{
  ℕ, zero, suc, ◌+◌, ◌-◌, ◌*◌, ◌/◌, ◌%◌, Bool, true, false, ◌&&◌, Option, none, some, ◌==◌, ltb,
  leb, if◌then◌else◌, strip,
}
use open_asicmanager.Values.Integers.{ℤ, pos, negsuc, negate}

abbrev digit_char : ℕ → Char
digit_char d =
    if d == 0
    then "0"
    else if d == 1
    then "1"
    else if d == 2
    then "2"
    else if d == 3
    then "3"
    else if d == 4
    then "4"
    else if d == 5
    then "5"
    else if d == 6
    then "6"
    else if d == 7
    then "7"
    else if d == 8
    then "8"
    else "9"

-- The digits of a number before a text; a number has at most as many digits as its fuel.
digits_before : ℕ → ℕ → String → String
digits_before zero n rest = rest
digits_before (suc fuel) n rest =
    let more = digits_before fuel (n / 10) (digit_char (n % 10) ∷ rest) in
    if ltb n 10 then digit_char n ∷ rest else more

-- str(n)
unfoldable pub decimal : ℕ → String
unfolding digits_before
decimal n = digits_before (suc n) n []

unfoldable pub show_integer : ℤ → String
unfolding decimal
show_integer (pos n) = decimal n
show_integer (negsuc n) = "-" ++ decimal (suc n)

-- f"{n:02d}"
unfoldable pub two_digits : ℕ → String
unfolding decimal
two_digits n = if ltb n 10 then "0" ++ decimal n else decimal n

pub data Glyph : Type 0 where
  digit : ℕ → Glyph
  underscore other : Glyph

glyph : Char → Glyph
glyph c =
    let n = code c in
    if leb b'0' n && leb n b'9' then digit (n - b'0') else if n == b'_' then underscore else other

-- The digits of a numeral; an underscore may stand between two of them.
numeral : ℕ → Bool → String → Option ℕ
unfolding glyph
numeral sum true [] = some sum
numeral sum false [] = none
numeral sum after_digit (c ∷ s) = elim (glyph c) [
  | digit d ↦ numeral (sum * 10 + d) true s
  | underscore ↦ if after_digit then numeral sum false s else none
  | other ↦ none
]

abbrev as_ℤ : Option ℕ → Option ℤ
as_ℤ none = none
as_ℤ (some n) = some (pos n)

abbrev negated : Option ℕ → Option ℤ
negated none = none
negated (some n) = some (negate (pos n))

signed : String → Option ℤ
unfolding numeral
signed [] = none
signed (c ∷ s) =
    if code c == b'-'
    then negated (numeral 0 false s)
    else if code c == b'+'
    then as_ℤ (numeral 0 false s)
    else as_ℤ (numeral 0 false (c ∷ s))

-- int(text)
unfoldable pub int_of_text : String → Option ℤ
unfolding signed
int_of_text s = signed (strip s)

-- text.split(sep, 1), `none` where the separator is missing
unfoldable pub split_once : ℕ → String → Option (String × String)
split_once sep [] = none
split_once sep (c ∷ s) = elim (code c == sep) [
  | true ↦ some ([], s)
  | false ↦ elim (split_once sep s) [ none ↦ none | some (a, b) ↦ some (c ∷ a, b) ]
]

-- A character of `text.upper()`, by its number. Of the characters outside ASCII only the long s has a
-- single capital inside it; the words compared below hold no pair of letters that one character
-- turns into.
unfoldable pub to_upper : ℕ → ℕ
to_upper n = if leb b'a' n && leb n b'z' then n - 32 else if n == 383 then b'S' else n

-- The same for `text.lower()`, where the one such character is the Kelvin sign.
unfoldable pub to_lower : ℕ → ℕ
to_lower n = if leb b'A' n && leb n b'Z' then n + 32 else if n == 8490 then b'k' else n

-- text.upper() == word, and text.lower() == word
unfoldable pub reads : (ℕ → ℕ) → String → String → Bool
reads turn [] [] = true
reads turn (c ∷ s) (d ∷ word) = turn (code c) == code d && reads turn s word
reads turn _ _ = false

abbrev pub upper_is : String → String → Bool
upper_is s word = reads to_upper s word

abbrev pub lower_is : String → String → Bool
lower_is s word = reads to_lower s word
