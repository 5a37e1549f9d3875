-- ===== src/Mcp/ToolCache/Pool.antt =====
-- The flights of the tool cache by identity, and how many have not settled.
use weldall.Prelude.{
  ℕ, ◌+◌, ◌≤◌, ◌≡◌, some, List, [], ◌∷◌, arith, nat_eq, if◌then◌else◌, Option-cases, inl, inr,
}
use mathlib.Core.Option
use weldall.Mcp.ToolCache.{Phase, running, loaded, settled, Flight, find, modify}

abbrev pub load_of : Phase → ℕ
load_of running = 1
load_of (loaded _) = 1
load_of (settled _) = 0

-- The flights whose promise has not settled.
unfoldable pub unsettled : List Flight → ℕ
unsettled [] = 0
unsettled (f ∷ pool) = load_of f.phase + unsettled pool

module _ (g : Flight → Flight) (keeps_id : (f : Flight) → (g f).id ≡ f.id) where
  pub find-modify :
      (i j : ℕ) (pool : List Flight)
      → find j (modify i g pool) ≡ (if nat_eq i j then Option.map g (find j pool) else find j pool)
  unfolding find modify
  find-modify i j [] = ground arith
  find-modify i j (f ∷ pool) = ground (arith, find-modify i j pool, keeps_id f)

  -- A flight of the changed pool was in the pool, and is changed if it is the one.
  pub find-modify_inv :
      (i j : ℕ) (pool : List Flight) (f : Flight)
      → find j (modify i g pool) ≡ some f
      → (f' : Flight) × (find j pool ≡ some f') × (f ≡ (if nat_eq i j then g f' else f'))
  unfolding find modify
  find-modify_inv i j [] f h = ground arith
  find-modify_inv i j (x ∷ pool) f h = elim (Option-cases (find j (x ∷ pool))) [
    | inl e ↦ ground (arith, find-modify i j (x ∷ pool))
    | inr (f', e) ↦ (f', e, ground (arith, find-modify i j (x ∷ pool)))
  ]

pub unsettled-modify :
    (g : Flight → Flight) (i : ℕ) (f : Flight) (pool : List Flight)
    → find i pool ≡ some f
    → unsettled (modify i g pool) + load_of f.phase ≡ unsettled pool + load_of (g f).phase
unfolding find modify unsettled
unsettled-modify g i f [] h = ground arith
unsettled-modify g i f (x ∷ pool) h = ground (arith, unsettled-modify g i f pool)

pub load-le-unsettled :
    (i : ℕ) (f : Flight) (pool : List Flight)
    → find i pool ≡ some f
    → load_of f.phase ≤ unsettled pool
unfolding find unsettled
load-le-unsettled i f [] h = ground arith
load-le-unsettled i f (x ∷ pool) h = ground (arith, load-le-unsettled i f pool)

pub find-id : (i : ℕ) (f : Flight) (pool : List Flight) → find i pool ≡ some f → f.id ≡ i
unfolding find
find-id i f [] h = ground arith
find-id i f (x ∷ pool) h = ground (arith, find-id i f pool)
