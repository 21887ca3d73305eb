-- ===== src/Prelude.antt =====
-- The names that every module shares: the libraries', passed on, and those of the children.
mod Tests
mod Lists
mod Unique
mod Int
mod Time
mod Error
mod Text
mod Sort
pub use Tests.*
pub use Lists.*
pub use Unique.*
pub use Int.*
unfoldable pub use Time.{to_second}
pub use Time.{second, stored_time, to_second_le, to_second_near, to_second_mono, to_second_stays}
pub use Error.*
unfoldable pub use Sort.{insert_by, sort_by, IsSorted}
pub use Sort.{
  sort_by-perm, All-sort_by, sort_by-IsSorted, sort_by-split, keep_if-sort_by, sort_by-map,
}
unfoldable pub use Text.{cut, cut_prefix}
pub use Text.{cut_prefix-append}
pub use Prim.Native.Nat.{ℕ, zero, suc, ◌+◌, ◌-◌, ◌*◌, ◌/◌, ◌%◌, ◌^◌, ◌≤◌, ◌<◌, min, max}
pub use Prim.Native.String.{String}
pub use text.Mathlib.Text.{◌==◌ as str_eq}
pub use text.Mathlib.TextEquality.{eq_iff as str_eq_iff}
pub use text.Mathlib.TextPositions.{eq_refl as str_eq_refl}
pub use mathlib.Core.Path.{◌≡◌, refl, sym, ap, ◌∙◌, subst}
pub use mathlib.Core.Logic.{◌≢◌, ◌↔◌, ◌⊎◌, inl, inr}
pub use mathlib.Core.Bool.{Bool, true, false, not, ◌&&◌, ◌||◌}
pub use mathlib.Core.Option.{Option, none, some}
pub use mathlib.Core.List.{List, [], ◌∷◌, ◌++◌, map}
pub use native.Mathlib.Omega.{arith}
