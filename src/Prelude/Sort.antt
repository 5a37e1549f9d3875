-- ===== src/Prelude/Sort.antt =====
-- Array.prototype.sort with a comparison of its own: stable, by insertion. Only the sign of the
-- comparison's number is read, and a sign is an `Ordering`.
use Prim.Native.Nat.{Ordering}
use mathlib.Core.Bool.{Bool, true, false}
use mathlib.Core.List.{List, [], ◌∷◌, Perm}
use mathlib.Core.List.Perm
use mathlib.Core.Logic.{inl, inr}
use weldall.Prelude.Lists.{All}
use weldall.Prelude.Tests.{Bool-cases}

abbrev pub is_gt : Ordering → Bool
is_gt Ordering.gt = true
is_gt Ordering.lt = false
is_gt Ordering.eq = false

abbrev pub reversed : Ordering → Ordering
reversed Ordering.lt = Ordering.gt
reversed Ordering.eq = Ordering.eq
reversed Ordering.gt = Ordering.lt

-- `a || b` on numbers: the second sign where the first is zero.
abbrev pub or_else : Ordering → Ordering → Ordering
or_else Ordering.eq o = o
or_else Ordering.lt o = Ordering.lt
or_else Ordering.gt o = Ordering.gt

module _ {ℓ} {A : Type ℓ} (compare_by : A → A → Ordering) where
  unfoldable pub insert_sorted : A → List A → List A
  insert_sorted x [] = x ∷ []
  insert_sorted x (y ∷ ys) = elim (is_gt (compare_by x y)) [
    | true ↦ y ∷ insert_sorted x ys
    | false ↦ x ∷ y ∷ ys
  ]

  unfoldable pub sort : List A → List A
  sort [] = []
  sort (x ∷ xs) = insert_sorted x (sort xs)

module _ {A : Type 0} (compare_by : A → A → Ordering) where
  insert_sorted-perm : (x : A) (ys : List A) → Perm (insert_sorted compare_by x ys) (x ∷ ys)
  unfolding insert_sorted
  insert_sorted-perm x [] = Perm.refl (x ∷ [])
  insert_sorted-perm x (y ∷ ys) = elim (Bool-cases (is_gt (compare_by x y))) [
    | inl e ↦
        rw (e, insert_sorted)
          (Perm.trans (Perm.cons y (insert_sorted-perm x ys)) (Perm.swap x y ys))
    | inr e ↦ rw (e, insert_sorted) (Perm.refl (x ∷ y ∷ ys))
  ]

  -- Sorting loses nothing and adds nothing.
  pub sort-perm : (xs : List A) → Perm (sort compare_by xs) xs
  unfolding sort
  sort-perm [] = Perm.refl []
  sort-perm (x ∷ xs) =
      Perm.trans (insert_sorted-perm x (sort compare_by xs)) (Perm.cons x (sort-perm xs))

  All-insert_sorted :
      (P : A → Type 0) (x : A) (ys : List A)
      → P x
      → All P ys
      → All P (insert_sorted compare_by x ys)
  unfolding insert_sorted
  All-insert_sorted P x [] p h = (p, tt)
  All-insert_sorted P x (y ∷ ys) p (q, h) = elim (Bool-cases (is_gt (compare_by x y))) [
    | inl e ↦ rw (e, insert_sorted) (q, All-insert_sorted P x ys p h)
    | inr e ↦ rw (e, insert_sorted) (p, (q, h))
  ]

  pub All-sort : (P : A → Type 0) (xs : List A) → All P xs → All P (sort compare_by xs)
  unfolding sort
  All-sort P [] h = tt
  All-sort P (x ∷ xs) (p, h) = All-insert_sorted P x (sort compare_by xs) p (All-sort P xs h)
