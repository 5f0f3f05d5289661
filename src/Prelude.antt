-- ===== src/Prelude.antt =====
-- The names that the other modules share: the libraries', passed on, and those of two children.
mod Booleans
mod Lists
mod Decimal
mod Strings
pub use Booleans.*
pub use Lists.{
  length, take, drop, head?, length-append, take-append-drop, length-take, length-drop,
  length-filter-le, All, All-append,
}
unfoldable pub use Decimal.{decimal, all_chars}
pub use Decimal.{decimal_injective, decimal-all}
unfoldable pub use Strings.{text_length}
pub use Strings.{prefix_injective, prefix_nonempty, prefix_differs, str_eq-differs}
unfoldable pub use Lists.{filter, any}
pub use Prim.Native.Nat.{ℕ, zero, suc, ◌+◌, ◌-◌, ◌*◌, ◌/◌, ◌%◌, ◌≤◌, ◌<◌}
pub use Prim.Native.String.{String}
pub use mathlib.Core.Path.{◌≡◌, refl, sym, ap, ◌∙◌}
pub use mathlib.Core.Logic.{◌≢◌, ◌↔◌, ◌⊎◌, inl, inr}
pub use mathlib.Core.Bool.{Bool, true, false, not, ◌&&◌, ◌||◌}
pub use mathlib.Core.Option.{Option, none, some}
pub use mathlib.Core.List.{List, [], ◌∷◌, ◌++◌, map}
pub use native.Mathlib.Omega.{arith}
pub use text.Mathlib.Text.{◌==◌ as str_eq}
pub use text.Mathlib.TextEquality.{eq_iff}
pub use text.Mathlib.TextPositions.{eq_refl}
