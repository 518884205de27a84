-- ===== src/Common.antt =====
-- Shared names: the libraries', passed on, and those of the children: Boolean tests, results,
-- lists, Python dicts, stable sorting and text.
mod Tests
mod Results
mod Lists
mod Duplicates
mod Text
mod Sorting
mod SortingLaws
mod Dictionaries
mod Membership
mod TextDictionaries
mod TextOrder
mod Reordering
pub use Tests.*
pub use Results.*
pub use Lists.*
pub use Duplicates.*
unfoldable pub use Text.*
pub use Text.Stripped.*
pub use Sorting.*
pub use SortingLaws.*
pub use Dictionaries.*
pub use Membership.*
pub use TextDictionaries.*
pub use TextOrder.*
pub use Reordering.*
pub use Prim.Native.Nat.{ℕ, zero, suc, ◌+◌, ◌-◌, ◌*◌, ◌/◌, ◌%◌, ◌^◌, ◌≤◌, ◌<◌}
pub use Prim.Native.String.{String}
pub use mathlib.Core.Path.{◌≡◌, refl, sym, ap, ◌∙◌, subst}
pub use mathlib.Core.Logic.{◌≢◌, ◌↔◌, ◌⊎◌, inl, inr, ite, if_pos, if_neg}
pub use mathlib.Core.Bool.{Bool, true, false, not, ◌&&◌, ◌||◌}
pub use mathlib.Core.Option.{Option, none, some}
pub use mathlib.Core.List.{List, [], ◌∷◌, ◌++◌, map}
pub use native.Mathlib.Omega.{arith}
pub use text.Mathlib.TextEquality.{eq_iff}
pub use text.Mathlib.TextPositions.{eq_refl}
