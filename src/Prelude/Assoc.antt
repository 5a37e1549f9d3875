-- ===== src/Prelude/Assoc.antt =====
-- A JavaScript `Map` with text keys, as an association list in insertion order.
use Prim.Native.Nat.{suc, ◌≤◌}
use Prim.Native.String.{String}
use mathlib.Core.Path.{◌≡◌, refl}
use mathlib.Core.Bool.{Bool, false, ◌||◌}
use mathlib.Core.Option.{Option, none, some}
use mathlib.Core.List.{List, [], ◌∷◌, ◌++◌}
use native.Mathlib.Omega.{arith}
use text.Mathlib.Text.{◌==◌}
use text.Mathlib.TextEquality.{eq_iff}
use weldall.Prelude.Tests.{if◌then◌else◌}
use weldall.Prelude.Lists.{length}

-- Array.prototype.includes, of texts.
abbrev pub includes : List String → String → Bool
includes [] k = false
includes (j ∷ js) k = j == k || includes js k

module _ {ℓ} {V : Type ℓ} where
  -- m.get(k)
  unfoldable pub lookup : String → List (String × V) → Option V
  lookup k [] = none
  lookup k ((j, v) ∷ m) = if j == k then some v else lookup k m

  -- m.delete(k)
  unfoldable pub delete : String → List (String × V) → List (String × V)
  delete k [] = []
  delete k ((j, v) ∷ m) = let rest = delete k m in if j == k then rest else (j, v) ∷ rest

  -- m.set(k, v): the value of a key that is there is replaced where it stands, a new key comes last.
  unfoldable pub insert : String → V → List (String × V) → List (String × V)
  insert k v [] = (k, v) ∷ []
  insert k v ((j, w) ∷ m) = let rest = insert k v m in if j == k then (j, v) ∷ m else (j, w) ∷ rest

  -- No key stands twice.
  abbrev pub IsDistinct : List (String × V) → Type ℓ
  IsDistinct [] = Unit
  IsDistinct ((k, v) ∷ m) = (lookup k m ≡ none) × IsDistinct m

  pub lookup-delete :
      (k j : String) (m : List (String × V))
      → lookup j (delete k m) ≡ (if k == j then none else lookup j m)
  unfolding lookup delete
  lookup-delete k j [] = ground arith
  lookup-delete k j ((i, v) ∷ m) =
      ground (arith, lookup-delete k j m, eq_iff i k, eq_iff i j, eq_iff k j)

  pub lookup-insert :
      (key other : String) (value : V) (entries : List (String × V))
      → lookup other (insert key value entries)
        ≡ (if key == other then some value else lookup other entries)
  unfolding insert lookup
  lookup-insert key other value [] = refl
  lookup-insert key other value ((at, there) ∷ entries) = ground (
    arith,
    lookup-insert key other value entries,
    eq_iff at key,
    eq_iff at other,
    eq_iff key other,
  )

  pub delete_absent : (k : String) (m : List (String × V)) → lookup k m ≡ none → delete k m ≡ m
  unfolding lookup delete
  delete_absent k [] h = refl
  delete_absent k ((i, v) ∷ m) h = ground (arith, delete_absent k m)

  pub insert_absent :
      (k : String) (v : V) (m : List (String × V))
      → lookup k m ≡ none
      → insert k v m ≡ m ++ (k, v) ∷ []
  unfolding lookup insert
  insert_absent k v [] h = refl
  insert_absent k v ((i, w) ∷ m) h = ground (arith, insert_absent k v m)

  pub insert-insert :
      (k : String) (v w : V) (m : List (String × V)) → insert k v (insert k w m) ≡ insert k v m
  unfolding insert
  insert-insert k v w [] = ground (arith, eq_iff k k)
  insert-insert k v w ((i, u) ∷ m) = ground (arith, insert-insert k v w m, eq_iff i k, eq_iff k k)

  pub IsDistinct-delete :
      (k : String) (m : List (String × V)) → IsDistinct m → IsDistinct (delete k m)
  unfolding delete
  IsDistinct-delete k [] h = tt
  IsDistinct-delete k ((i, v) ∷ m) h =
      ground (arith, IsDistinct-delete k m, lookup-delete k i m, eq_iff k i)

  pub IsDistinct-insert :
      (k : String) (v : V) (m : List (String × V)) → IsDistinct m → IsDistinct (insert k v m)
  unfolding insert lookup
  IsDistinct-insert k v [] h = (refl, tt)
  IsDistinct-insert k v ((i, w) ∷ m) h =
      ground (arith, IsDistinct-insert k v m, lookup-insert k i v m, eq_iff k i, eq_iff i k)

  pub length-insert_absent :
      (k : String) (v : V) (m : List (String × V))
      → lookup k m ≡ none
      → length (insert k v m) ≡ suc (length m)
  unfolding lookup insert
  length-insert_absent k v [] h = refl
  length-insert_absent k v ((i, w) ∷ m) h = ground (arith, length-insert_absent k v m)

  pub length-delete-le : (k : String) (m : List (String × V)) → length (delete k m) ≤ length m
  unfolding delete
  length-delete-le k [] = omega arith
  length-delete-le k ((i, v) ∷ m) = ground (arith, length-delete-le k m)
