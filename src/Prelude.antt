-- ===== src/Prelude.antt =====
-- The names that the other modules share: the libraries' names, passed on, and those of the
-- children, which hold Boolean tests, lists, signed integers with Go's int32, and Go's text helpers.
mod Tests
mod Lists
mod Int
mod Text
pub use Tests.*
pub use Lists.*
pub use Int.*
unfoldable pub use Int.{◌+ℤ◌, ◌-ℤ◌, ◌*ℤ◌, int32, add32, sub32, mul32}
pub use Text.*
unfoldable pub use Text.{◌<>◌, trim_space, show_int}
pub use Prim.Native.Nat.{ℕ, zero, suc, ◌+◌, ◌-◌, ◌*◌, ◌/◌, ◌%◌, ◌^◌, ◌≤◌, ◌<◌, min, max}
pub use Prim.Native.String.{String}
pub use mathlib.Core.Path.{◌≡◌, refl, sym, ap, ◌∙◌}
pub use mathlib.Core.Logic.{◌≢◌, ◌↔◌, ◌⊎◌, inl, inr}
pub use mathlib.Core.Bool.{Bool, true, false, not, ◌&&◌, ◌||◌}
pub use mathlib.Core.Option.{Option, none, some}
pub use mathlib.Core.List.{List, [], ◌∷◌, ◌++◌, map}
pub use native.Mathlib.Omega.{arith}
pub use text.Mathlib.TextEquality.{eq_iff}
pub use text.Mathlib.TextPositions.{eq_refl}
