-- ===== src/Sdk/Replay/Sweep.antt =====
-- The sweep of the replay store drops the expired keys and no other.
use weldall.Prelude.{
  ℕ, ◌≤◌, ◌<◌, ◌≡◌, ◌⊎◌, inl, inr, String, none, some, [], ◌∷◌, arith, if◌then◌else◌, Bool-cases,
  leb, length, ◌==◌, eq_iff, lookup, delete, lookup-delete, IsDistinct, IsDistinct-delete,
  length-delete-le,
}
use weldall.Sdk.Replay.{Store, sweep}

pub lookup-sweep_fresh :
    (now : ℕ) (walk values : Store) (k : String) (t : ℕ)
    → IsDistinct walk
    → (lookup k walk ≡ none) ⊎ (lookup k walk ≡ some t)
    → now < t
    → lookup k values ≡ some t
    → lookup k (sweep now walk values) ≡ some t
unfolding sweep lookup
lookup-sweep_fresh now [] values k t d w p h = h
lookup-sweep_fresh now ((j, x) ∷ walk) values k t d w p h =
    lookup-sweep_fresh now walk (if leb x now then delete j values else values) k t d.1
      (ground (arith, eq_iff j k)) p (ground (arith, eq_iff j k, lookup-delete j k values))

pub lookup-sweep-none :
    (now : ℕ) (walk values : Store) (k : String)
    → lookup k values ≡ none
    → lookup k (sweep now walk values) ≡ none
unfolding sweep
lookup-sweep-none now [] values k h = h
lookup-sweep-none now ((j, x) ∷ walk) values k h =
    lookup-sweep-none now walk (if leb x now then delete j values else values) k
      (ground (arith, lookup-delete j k values))

pub lookup-sweep_expired :
    (now : ℕ) (walk values : Store) (k : String) (t : ℕ)
    → lookup k walk ≡ some t
    → t ≤ now
    → lookup k (sweep now walk values) ≡ none
unfolding sweep lookup
lookup-sweep_expired now [] values k t h p = ground arith
lookup-sweep_expired now ((j, x) ∷ walk) values k t h p = elim (Bool-cases (j == k)) [
  | inl e ↦
      lookup-sweep-none now walk (if leb x now then delete j values else values) k
        (ground (arith, lookup-delete j k values))
  | inr e ↦
      lookup-sweep_expired now walk (if leb x now then delete j values else values) k t
        (ground arith) p
]

pub IsDistinct-sweep :
    (now : ℕ) (walk values : Store) → IsDistinct values → IsDistinct (sweep now walk values)
unfolding sweep
IsDistinct-sweep now [] values d = d
IsDistinct-sweep now ((j, x) ∷ walk) values d = elim (Bool-cases (leb x now)) [
  | inl e ↦ rw e (IsDistinct-sweep now walk (delete j values) (IsDistinct-delete j values d))
  | inr e ↦ rw e (IsDistinct-sweep now walk values d)
]

pub length-sweep-le :
    (now : ℕ) (walk values : Store) → length (sweep now walk values) ≤ length values
unfolding sweep
length-sweep-le now [] values = omega arith
length-sweep-le now ((j, x) ∷ walk) values = ground (
  arith,
  length-sweep-le now walk (delete j values),
  length-sweep-le now walk values,
  length-delete-le j values,
)
