-- ===== src/Iac/Order/Drain.antt =====
-- The loop that drains the actions of a plan: it ends, loses nothing and never puts an action
-- before one that it waits for.
use mathlib.Core.List.{Perm}
use mathlib.Core.List.Perm
use weldall.Prelude.{
  ℕ, zero, suc, ◌≤◌, ◌≡◌, ◌≢◌, refl, ap, inl, inr, Bool, true, false, ◌&&◌, ◌||◌, none, some, List,
  [], ◌∷◌, arith, nat_eq, length, Bool-cases, Option-cases, ok,
}
use weldall.Iac.Contracts.{Action}
use weldall.Iac.Order.{Placed, Edge, placed_in, is_waiting, take_ready, drain}

unfoldable pub has_edge : ℕ → ℕ → List Edge → Bool
has_edge i j [] = false
has_edge i j ((w, o) ∷ edges) = (nat_eq w i && nat_eq o j) || has_edge i j edges

-- No action of the list stands before, or is, one that it waits for.
abbrev pub Respects : List Edge → List Placed → Type 0
Respects edges [] = Unit
Respects edges ((i, a) ∷ rest) =
    ((j : ℕ) → has_edge i j edges ≡ true → placed_in j ((i, a) ∷ rest) ≡ false)
    × Respects edges rest

-- Nobody waits for an action that waits.
abbrev pub IsStratified : List Edge → Type 0
IsStratified edges = (i j k : ℕ) → has_edge i j edges ≡ true → has_edge j k edges ≡ false

gone_of_not_waiting :
    (edges : List Edge) (remaining : List Placed) (i j : ℕ)
    → is_waiting edges remaining i ≡ false
    → has_edge i j edges ≡ true
    → placed_in j remaining ≡ false
unfolding is_waiting has_edge
gone_of_not_waiting [] remaining i j h e = cc
gone_of_not_waiting ((w, o) ∷ edges) remaining i j h e =
    ground (arith, gone_of_not_waiting edges remaining i j)

waiting_for :
    (edges : List Edge) (remaining : List Placed) (i : ℕ)
    → is_waiting edges remaining i ≡ true
    → (j : ℕ) × (has_edge i j edges ≡ true) × (placed_in j remaining ≡ true)
unfolding is_waiting has_edge
waiting_for [] remaining i h = cc
waiting_for ((w, o) ∷ edges) remaining i h =
    elim (Bool-cases (nat_eq w i && placed_in o remaining)) [
      | inl this ↦ (o, ground arith, ground arith)
      | inr other ↦
          let (j, e, p) = waiting_for edges remaining i (ground arith) in (j, ground (arith, e), p)
    ]

stuck :
    (edges : List Edge) (remaining rest : List Placed) (j : ℕ)
    → take_ready edges remaining rest ≡ none
    → placed_in j rest ≡ true
    → is_waiting edges remaining j ≡ true
unfolding take_ready
stuck edges remaining [] j h p = cc
stuck edges remaining ((i, a) ∷ rest) j h p = ground (arith, stuck edges remaining rest j)

-- Where nobody waits for one that waits, some action is ready.
take_ready-ne-none :
    (edges : List Edge) (i : ℕ) (a : Action) (rest : List Placed)
    → IsStratified edges
    → take_ready edges ((i, a) ∷ rest) ((i, a) ∷ rest) ≢ none
take_ready-ne-none edges i a rest strat h =
    let all = (i, a) ∷ rest in
    let (j, e, p) = waiting_for edges all i (stuck edges all all i h (ground arith)) in
    let (k, e', _) = waiting_for edges all j (stuck edges all all j h p) in cc (strat i j k e)

record Taken (edges : List Edge) (remaining rest : List Placed) (next : Placed)
    (others : List Placed) : Type 0 where
  perm : Perm (next ∷ others) rest
  size : suc (length others) ≡ length rest
  same : (j : ℕ) → placed_in j rest ≡ (nat_eq next.0 j || placed_in j others)
  ready : is_waiting edges remaining next.0 ≡ false

take_ready-Taken :
    (edges : List Edge) (remaining rest : List Placed) (next : Placed) (others : List Placed)
    → take_ready edges remaining rest ≡ some (next, others)
    → Taken edges remaining rest next others
unfolding take_ready
take_ready-Taken edges remaining [] next others h = cc
take_ready-Taken edges remaining ((i, a) ∷ rest) next others h =
    elim (Bool-cases (is_waiting edges remaining i)) [
      | inr free ↦
          let e : next ≡ (i, a) = ground (arith, free) in
          let e' : others ≡ rest = ground (arith, free) in
          rw (e, e') (record { perm = Perm.refl _; size = refl; same = λ j. refl; ready = free })
      | inl waits ↦ elim (Option-cases (take_ready edges remaining rest)) [
        | inl nothing ↦ ground (arith, waits, nothing)
        | inr ((n, o), found) ↦
            let t = take_ready-Taken edges remaining rest n o found in
            let e : next ≡ n = ground (arith, waits, found) in
            let e' : others ≡ (i, a) ∷ o = ground (arith, waits, found) in
            rw (e, e')
              (record {
                perm = Perm.trans (Perm.swap (i, a) n o) (Perm.cons (i, a) t.perm);
                size = ap suc t.size;
                same = λ j. ground (arith, t.same j);
                ready = t.ready;
              })
      ]
    ]

pub record Drained (edges : List Edge) (remaining out : List Placed) : Type 0 where
  pub perm : Perm out remaining
  pub same : (j : ℕ) → placed_in j out ≡ placed_in j remaining
  pub respects : Respects edges out

drain_round :
    (edges : List Edge) (remaining others out : List Placed) (next : Placed)
    → Taken edges remaining remaining next others
    → Drained edges others out
    → Drained edges remaining (next ∷ out)
drain_round edges remaining others out next t d = record {
  perm = Perm.trans (Perm.cons next d.perm) t.perm;
  same = λ j. ground (arith, d.same j, t.same j);
  respects = (
    λ j e.
        ground (arith, gone_of_not_waiting edges remaining next.0 j t.ready e, t.same j, d.same j),
    d.respects,
  );
}

pub drain_lem :
    (fuel : ℕ) (edges : List Edge) (remaining : List Placed)
    → IsStratified edges
    → length remaining ≤ fuel
    → (out : List Placed) × (drain fuel edges remaining ≡ ok out) × Drained edges remaining out
unfolding drain
drain_lem fuel edges [] strat enough =
    ([], refl, record { perm = Perm.refl []; same = λ j. refl; respects = tt })
drain_lem zero edges (p ∷ ps) strat enough = absurd (omega arith)
drain_lem (suc fuel) edges ((i, a) ∷ ps) strat enough =
    elim (Option-cases (take_ready edges ((i, a) ∷ ps) ((i, a) ∷ ps))) [
      | inl nothing ↦ absurd (take_ready-ne-none edges i a ps strat nothing)
      | inr ((next, others), found) ↦
          let t = take_ready-Taken edges ((i, a) ∷ ps) ((i, a) ∷ ps) next others found in
          let (out, drained, d) = drain_lem fuel edges others strat (omega (arith, t.size)) in
          (next ∷ out, rw (found, drain) (rw drained refl), drain_round edges _ others out next t d)
    ]
