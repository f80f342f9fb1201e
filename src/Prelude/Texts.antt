-- ===== src/Prelude/Texts.antt =====
-- Python's `str.strip()` and `len(str)`.
use Prim.Native.Nat.{ℕ}
use Prim.Native.Char.{Char, code}
use Prim.Native.String.{String, [], ◌∷◌}
use mathlib.Core.Bool.{Bool, true, false, ◌&&◌, ◌||◌}
use open_asicmanager.Prelude.Tests.{leb, ◌==◌, if◌then◌else◌}
pub use Prim.Native.String.{count}

between : ℕ → ℕ → ℕ → Bool
between a b n = leb a n && leb n b

-- The characters for which `str.isspace()` is true.
unfoldable pub is_space : Char → Bool
unfolding between
is_space c =
    let n = code c in
    between 9 13 n
    || between 28 32 n
    || n == 133
    || n == 160
    || n == 5760
    || between 8192 8202 n
    || between 8232 8233 n
    || n == 8239
    || n == 8287
    || n == 12288

abbrev pub is_empty : String → Bool
is_empty [] = true
is_empty (c ∷ s) = false

unfoldable pub strip_left : String → String
strip_left [] = []
strip_left (c ∷ s) = let rest = strip_left s in if is_space c then rest else c ∷ s

unfoldable pub strip_right : String → String
strip_right [] = []
strip_right (c ∷ s) =
    let rest = strip_right s in if is_empty rest && is_space c then [] else c ∷ rest

unfoldable pub strip : String → String
unfolding strip_left strip_right
strip s = strip_right (strip_left s)
