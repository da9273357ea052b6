-- ===== src/Base.antt =====
-- What the modules share: the libraries' names, passed on, Boolean tests, lists measured by native
-- numbers, text as UTF-16 code units, and JavaScript's `Map`, `Set` and `sort`.
mod Tests
mod Lists
mod Strings
mod Maps
mod Sorting
mod Groups
pub mod Chars
pub mod Int
pub use Tests.*
pub use Lists.*
unfoldable pub use Strings.{text_eq, text_le, has, count, add, delete}
pub use Strings.{
  Text, text, text_eq_iff, text_eq_refl, has-append, count-append, count_of_has, has_of_count,
  has-delete, has-add, has-cons, has-cons_self, has-filter, count-filter, count-delete,
  length-delete-lt, count-add, Distinct-add, Distinct, Distinct-tail, Distinct-head,
}
unfoldable pub use Maps.{get, set}
pub use Maps.{Dict, get_or, keys, values, get-set, get_or-set, get_of_has, has_of_get, has-keys-set}
unfoldable pub use Sorting.{sort_by, sort}
pub use Sorting.{
  has-sort, count-sort, length-sort, has-sort_by, count-sort_by, sort_by-perm, any-sort_by,
  count-flatten-sort_by, total-sort_by, total-sort, length-sort_by, All-sort_by, Ascending,
  sort_by-Ascending,
}
unfoldable pub use Groups.{push_to}
pub use Groups.{total-push_to, total-set}
pub use Prim.Native.Nat.{ℕ, zero, suc, ◌+◌, ◌-◌, ◌*◌, ◌/◌, ◌%◌, ◌≤◌, ◌<◌, min}
pub use Prim.Native.String.{String}
pub use mathlib.Core.Path.{◌≡◌, refl, sym, ap, ◌∙◌, subst}
pub use mathlib.Core.Logic.{◌≢◌, ◌↔◌, ◌⊎◌, inl, inr}
pub use mathlib.Core.Bool.{Bool, true, false, not, ◌&&◌, ◌||◌}
pub use mathlib.Core.Option.{Option, none, some}
pub use mathlib.Core.List.{List, [], ◌∷◌, ◌++◌, map, foldl}
pub use native.Mathlib.Omega.{arith}
