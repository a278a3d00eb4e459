-- ===== src/Common.antt =====
-- The names that the other modules share: the library's, passed on, and those of the modules below.
mod Tests
mod Lists
mod Int
mod Outcome
mod Texts
pub mod Channel
pub mod Maps
pub mod Keyed
pub mod State
pub mod Fallible
pub mod Words
pub use Tests.*
pub use Lists.*
unfoldable pub use Int.*
unfoldable pub use Outcome.*
unfoldable pub use Texts.{contains}
pub use Prim.Native.Nat.{ℕ, zero, suc, ◌+◌, ◌-◌, ◌*◌, ◌/◌, ◌%◌, ◌^◌, ◌≤◌, ◌<◌}
pub use Prim.Native.String.{String, slice, ◌++◌ as str_append}
pub use text.Mathlib.Text.{◌==◌ as str_eq, starts_with}
pub use text.Mathlib.TextEquality.{eq_iff}
pub use mathlib.Core.Path.{◌≡◌, refl, sym, ap, subst, ◌∙◌}
pub use mathlib.Core.Logic.{◌≢◌, ◌↔◌, ◌⊎◌, inl, inr}
pub use mathlib.Core.Bool.{Bool, true, false, ◌&&◌, ◌||◌, not}
pub use mathlib.Core.Option.{Option, none, some}
pub use mathlib.Core.List.{List, [], ◌∷◌, ◌++◌, map}
pub use native.Mathlib.Omega.{arith}
