-- ===== src/Iac/Order/Total.antt =====
-- Every sorted list of actions can be put in dependency order, and nothing is lost.
use mathlib.Core.List.{Perm}
use mathlib.Core.List.Perm
use weldall.Prelude.{ℕ, suc, ◌<◌, ◌≡◌, refl, ap, List, [], ◌∷◌, map, arith, subst, length, ok, All}
use weldall.Iac.Contracts.{Host, Action}
use weldall.Iac.Order.{Placed, Edge, Subject, numbered, all_edges, order_mcp_actions}
use weldall.Iac.Order.Drain.{Drained, drain_lem}
use weldall.Iac.Order.Edges.{
  at, IsPlaced, AllDirected, Gives, IsStratified-of_AllDirected, all_edges-AllDirected,
}

abbrev IsAbove : ℕ → Placed → Type 0
IsAbove n (i, _) = n < i

numbered-IsAbove : (n m : ℕ) (acts : List Action) → n < m → All (IsAbove n) (numbered m acts)
unfolding numbered
numbered-IsAbove n m [] lt = tt
numbered-IsAbove n m (a ∷ acts) lt = (lt, numbered-IsAbove n (suc m) acts (omega arith))

shift-IsPlaced :
    (n : ℕ) (a : Action) (whole rest : List Placed)
    → All (IsPlaced whole) rest
    → All (IsAbove n) rest
    → All (IsPlaced ((n, a) ∷ whole)) rest
unfolding at
shift-IsPlaced n a whole [] h above = tt
shift-IsPlaced n a whole ((i, b) ∷ rest) (h, hs) (lt, lts) =
    (ground arith, shift-IsPlaced n a whole rest hs lts)

numbered-IsPlaced :
    (n : ℕ) (acts : List Action) → All (IsPlaced (numbered n acts)) (numbered n acts)
unfolding numbered at
numbered-IsPlaced n [] = tt
numbered-IsPlaced n (a ∷ acts) = (
  ground arith,
  shift-IsPlaced n a (numbered (suc n) acts) (numbered (suc n) acts)
      (numbered-IsPlaced (suc n) acts) (numbered-IsAbove n (suc n) acts (omega arith)),
)

map-numbered : (n : ℕ) (acts : List Action) → map (λ (p : Placed). p.1) (numbered n acts) ≡ acts
unfolding numbered
map-numbered n [] = refl
map-numbered n (a ∷ acts) = ap (◌∷◌ a) (map-numbered (suc n) acts)

-- Where the edges can be drawn, that is, no dependency list fails to parse and no member of a null
-- state is read, the order exists: it holds the same actions, and none of them stands before one that
-- it waits for.
pub order_mcp_actions-Drained :
    (h : Host) (acts : List Action) (desired current : List Subject) (edges : List Edge)
    → all_edges h (numbered 0 acts) desired current (numbered 0 acts) ≡ ok edges
    → (out : List Placed) × (order_mcp_actions h acts desired current
        ≡ ok (map (λ (p : Placed). p.1) out))
      × Perm (map (λ (p : Placed). p.1) out) acts
      × Drained edges (numbered 0 acts) out
unfolding order_mcp_actions
order_mcp_actions-Drained h acts desired current edges e =
    let placed = numbered 0 acts in
    let directed : AllDirected placed edges = subst (Gives (AllDirected placed)) e (
      all_edges-AllDirected h placed (numbered-IsPlaced 0 acts) desired current placed
        (numbered-IsPlaced 0 acts)) in
    let (out, drained, d) =
      drain_lem (length placed) edges placed (IsStratified-of_AllDirected placed edges directed)
        (omega arith) in
    (
      out,
      rw e (rw drained refl),
      subst (λ l. Perm (map (λ (p : Placed). p.1) out) l) (map-numbered 0 acts)
          (Perm.map (λ (p : Placed). p.1) d.perm),
      d,
    )
