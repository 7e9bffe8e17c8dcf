-- ===== src/Base.antt =====
-- The names that the other modules share: library names passed on, Boolean tests, and the
-- containers of the Rust standard library as far as the bridge uses them.
mod Tests
mod Lists
pub mod Dict
pub mod Text
pub mod U32
pub mod TextOrder
pub mod Int
pub use Tests.*
pub use Lists.*
pub use Prim.Native.Nat.{ℕ, zero, suc, ◌+◌, ◌-◌, ◌*◌, ◌/◌, ◌%◌, ◌^◌, ◌≤◌, ◌<◌, min, max}
pub use Prim.Native.String.{String}
pub use mathlib.Core.Path.{◌≡◌, refl, sym, ap, ◌∙◌, subst}
pub use mathlib.Core.Logic.{◌≢◌, ◌↔◌, ◌⊎◌, inl, inr}
pub use mathlib.Core.Bool.{Bool, true, false, not, false≢true, ◌&&◌, ◌||◌}
pub use mathlib.Core.Option.{Option, none, some}
pub use mathlib.Core.List.{List, [], ◌∷◌, ◌++◌, map}
pub use native.Mathlib.Omega.{arith}
unfoldable pub use Text.{◌<>◌, starts_with, ends_with, drop_last, split, take_str, contains_text}
pub use text.Mathlib.TextEquality.{eq_iff}
