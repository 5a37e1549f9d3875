-- ===== src/Prelude.antt =====
-- The names that the other modules share: the libraries', passed on, and those of the children.
mod Tests
mod Lists
mod Results
mod Assoc
mod Sort
pub use Tests.*
pub use Lists.*
pub use Results.{Result, ok, err, ◌>>=◌, bind-eq-ok, ok-inj, result-cases}
unfoldable pub use Results.{traverse}
unfoldable pub use Sort.{insert_sorted, sort}
pub use Sort.{sort-perm, All-sort, is_gt, reversed, or_else}
unfoldable pub use Assoc.{lookup, delete, insert}
pub use Assoc.{
  includes, IsDistinct, lookup-delete, lookup-insert, insert-insert, delete_absent, insert_absent,
  IsDistinct-delete, IsDistinct-insert, length-insert_absent, length-delete-le,
}
pub use Prim.Native.Nat.{compare, Ordering, ℕ, zero, suc, ◌+◌, ◌-◌, ◌*◌, ◌≤◌, ◌<◌}
pub use Prim.Native.String.{String}
pub use mathlib.Core.Path.{◌≡◌, refl, sym, ap, ◌∙◌, subst}
pub use mathlib.Core.Logic.{◌≢◌, ◌↔◌, ◌⊎◌, inl, inr}
pub use mathlib.Core.Bool.{Bool, true, false, not, ◌&&◌, ◌||◌}
pub use mathlib.Core.Option.{Option, none, some}
pub use mathlib.Core.List.{List, [], ◌∷◌, ◌++◌, map}
pub use native.Mathlib.Omega.{arith}
pub use text.Mathlib.Text.{◌==◌}
pub use text.Mathlib.TextEquality.{eq_iff}
