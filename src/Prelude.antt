-- ===== src/Prelude.antt =====
-- The names that the other modules share: the libraries' own, passed on, and those of the children
-- `Tests` (Boolean tests on numbers, the conditional), `Rows` (the rows of a database table) and
-- `RowLaws`, `RowSearch` and `RowMembers` (what the statements on a table do to one another),
-- `Results` (calls that may raise) and `Texts` (Python's `strip`).
mod Tests
mod Rows
mod RowLaws
mod RowSearch
mod RowMembers
mod Results
mod Texts
pub use Tests.*
unfoldable pub use Rows.{select, first_row, last_row, update_rows, delete_rows, count_rows}
pub use Rows.{length, take, replicate, All}
pub use RowLaws.*
pub use RowSearch.*
pub use RowMembers.*
pub use Results.*
unfoldable pub use Texts.{is_space, strip_left, strip_right, strip}
pub use Texts.{count, is_empty}
pub use Prim.Native.Nat.{ℕ, zero, suc, ◌+◌, ◌-◌, ◌*◌, ◌/◌, ◌%◌, ◌^◌, ◌≤◌, ◌<◌}
pub use Prim.Native.String.{String}
pub use mathlib.Core.Path.{◌≡◌, refl, sym, ap, ◌∙◌, subst}
pub use mathlib.Core.Logic.{◌≢◌, ◌↔◌, ◌⊎◌, inl, inr}
pub use mathlib.Core.Bool.{Bool, true, false, not, ◌&&◌, ◌||◌}
pub use mathlib.Core.Option.{Option, none, some}
pub use mathlib.Core.List.{List, [], ◌∷◌, ◌++◌, map}
pub use native.Mathlib.Omega.{arith}
