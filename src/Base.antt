-- ===== src/Base.antt =====
-- The names that the other modules share: the libraries', passed on, and the children's: lists and
-- tests over the native numbers, integers, values, results and the JavaScript runtime.
mod Tests
mod Lists
mod Int
mod Values
mod Exceptions
mod Platform
mod Text
pub use Tests.*
pub use Lists.*
pub use Int.*
pub use Values.*
pub use Exceptions.*
pub use Platform.*
pub use Text.{◌+++◌, codes, is_digit}
unfoldable pub use Text.{split, array_index}
pub use Prim.Native.Nat.{ℕ, zero, suc, ◌+◌, ◌-◌, ◌*◌, ◌/◌, ◌%◌, ◌≤◌, ◌<◌}
pub use Prim.Native.String.{String}
pub use mathlib.Core.Path.{◌≡◌, refl, sym, ap, ◌∙◌, subst}
pub use mathlib.Core.Logic.{◌≢◌, ◌↔◌, ◌⊎◌, inl, inr}
pub use mathlib.Core.Bool.{Bool, true, false, not, ◌&&◌, ◌||◌}
pub use mathlib.Core.Option.{Option, none, some}
pub use mathlib.Core.List.{List, [], ◌∷◌, ◌++◌, map}
pub use native.Mathlib.Omega.{arith}
unfoldable pub use text.Mathlib.Text.{◌==◌}
pub use text.Mathlib.TextEquality.{eq_iff}
pub use text.Mathlib.TextPositions.{eq_refl}
