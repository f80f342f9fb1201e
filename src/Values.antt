-- ===== src/Values.antt =====
-- The values that the handlers of app/api get from `request.json()`, as Python's json module makes
-- them, with what the handlers do to them: `dict.get`, `str`, `int`, truth and `isinstance`. The
-- children have Python's integers (`Integers`) and the texts that `int`, `str.strip`, `str.upper` and
-- `str.split` read and the formats print (`Numerals`).
pub mod Integers
pub mod Numerals
use package.text.Mathlib.Text.{◌==◌ as str_eq}
use open_asicmanager.Prelude.{
  ℕ, zero, suc, String, Bool, true, false, not, Option, none, some, List, [], ◌∷◌, ◌==◌, is_empty,
  if◌then◌else◌,
}
use open_asicmanager.Values.Integers.{ℤ, pos, negsuc, is_zero}
use open_asicmanager.Values.Numerals.{show_integer, int_of_text}

-- A float by what is asked of it: its `str`, `int` of it (which raises at an infinity and at nan),
-- and its truth.
pub record Float : Type 0 where
  pub printed : String
  pub truncated : Option ℤ
  pub nonzero : Bool

-- An array and an object carry the text that `str` gives for them.
mutual
  pub data Json : Type 0 where
    null : Json
    boolean : Bool → Json
    integer : ℤ → Json
    float : Float → Json
    text : String → Json
    array : String → Items → Json
    object : String → Fields → Json

  pub data Items : Type 0 where
    end : Items
    item : Json → Items → Items

  pub data Fields : Type 0 where
    empty : Fields
    field : String → Json → Fields → Fields

unfoldable pub elements : Items → List Json
elements end = []
elements (item x xs) = x ∷ elements xs

unfoldable pub keys : Fields → List String
keys empty = []
keys (field name x fs) = name ∷ keys fs

-- dict.get(name); the parser leaves one member for each name.
unfoldable pub get : String → Fields → Option Json
get name empty = none
get name (field other x fs) = let rest = get name fs in if str_eq other name then some x else rest

-- bool(value)
unfoldable pub truth : Json → Bool
truth null = false
truth (boolean b) = b
truth (integer n) = not (is_zero n)
truth (float x) = x.nonzero
truth (text s) = not (is_empty s)
truth (array _ end) = false
truth (array _ (item x xs)) = true
truth (object _ empty) = false
truth (object _ (field name x fs)) = true

-- str(value)
unfoldable pub str : Json → String
unfolding show_integer
str null = "None"
str (boolean true) = "True"
str (boolean false) = "False"
str (integer n) = show_integer n
str (float x) = x.printed
str (text s) = s
str (array printed xs) = printed
str (object printed fs) = printed

-- str(value or default)
abbrev pub str_or : Json → String → String
str_or x default = if truth x then str x else default

-- int(value), `none` where it raises
unfoldable pub int : Json → Option ℤ
unfolding int_of_text
int (boolean true) = some (pos 1)
int (boolean false) = some (pos 0)
int (integer n) = some n
int (float x) = x.truncated
int (text s) = int_of_text s
int _ = none

-- type(value) is int and value > 0
unfoldable pub positive_int : Json → Option ℕ
positive_int (integer (pos (suc n))) = some (suc n)
positive_int _ = none
