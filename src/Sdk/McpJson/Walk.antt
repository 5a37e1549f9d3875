-- ===== src/Sdk/McpJson/Walk.antt =====
-- The walk ends within its fuel, and what it lets through is bounded in depth and free of the names
-- that reach a prototype.
use Prim.Native.String.{len}
use weldall.Prelude.{
  ℕ, zero, suc, ◌+◌, ◌≤◌, ◌≡◌, ◌⊎◌, refl, ap, ◌∙◌, inl, inr, String, false, ◌||◌, some, List, [],
  ◌∷◌, arith, Bool-cases, ltb, length, All, Result, ok, err,
}
use weldall.Iac.Json.{
  Json, null, bool, num, str, arr, obj, Items, nil, cons, Fields, done, field, entries_of_fields,
  stringify,
}
use weldall.Sdk.McpJson.{
  Limits, BoundaryError, Item, is_forbidden, entries_of_items, push_entries, visit_entries,
  visit_value, visit, walk, check_size, assert_mcp_json,
}

Result-cases :
    {A : Type 0} (r : Result BoundaryError A)
    → ((e : BoundaryError) × (r ≡ err e)) ⊎ ((a : A) × (r ≡ ok a))
Result-cases (err e) = inl (e, refl)
Result-cases (ok a) = inr (a, refl)

visit-ok :
    (limits : Limits) (maximum nodes bytes : ℕ) (item : Item) (pending : List Item)
    (p : ℕ × List Item)
    → visit limits maximum nodes bytes item pending ≡ ok p
    → (item.depth ≤ limits.depth)
      × (nodes ≤ limits.nodes)
      × (visit_value limits maximum nodes item.depth bytes item.value pending ≡ ok p)
unfolding visit
visit-ok limits maximum nodes bytes item pending p h =
    elim (Bool-cases (ltb limits.depth item.depth || ltb limits.nodes nodes)) [
      | inl stop ↦ cc (rw stop at h)
      | inr go ↦ (ground (arith, go), ground (arith, go), rw go at h)
    ]

walk_total :
    (fuel : ℕ) (limits : Limits) (maximum nodes bytes : ℕ) (pending : List Item)
    → nodes ≤ limits.nodes
    → limits.nodes + 2 ≤ nodes + fuel
    → (r : Result BoundaryError Unit) × (walk fuel limits maximum nodes bytes pending ≡ some r)
unfolding walk
walk_total zero limits maximum nodes bytes pending h f = let never : ⊥ = omega arith in absurd never
walk_total (suc fuel) limits maximum nodes bytes [] h f = (ok tt, refl)
walk_total (suc fuel) limits maximum nodes bytes (item ∷ pending) h f =
    elim (Result-cases (visit limits maximum (suc nodes) bytes item pending)) [
      | inl (e, stop) ↦ (err e, rw (stop, walk) refl)
      | inr ((more, next), go) ↦
          let (_, counted, _) =
            visit-ok limits maximum (suc nodes) bytes item pending (more, next) go in
          let (r, ends) =
            walk_total fuel limits maximum (suc nodes) more next counted (omega arith) in
          (r, rw (go, walk) ends)
    ]

-- The check always comes to an end, with the value accepted or an error.
pub assert_mcp_json_total :
    (limits : Limits) (value : Json) (maximum : ℕ)
    → (r : Result BoundaryError Unit) × (assert_mcp_json limits value maximum ≡ some r)
unfolding assert_mcp_json
assert_mcp_json_total limits value maximum =
    let start : List Item = record { value = value; depth = 0 } ∷ [] in
    let (r, e) =
      walk_total (suc (suc limits.nodes)) limits maximum 0 0 start (omega arith) (omega arith) in
    (check_size maximum value r, rw (e, assert_mcp_json) refl)

-- Within the depth, at each level, and without a forbidden member.
unfoldable mutual
  pub IsSafe : ℕ → ℕ → Json → Type 0
  IsSafe n d (arr vs) = (d ≤ n) × AreSafe n (suc d) vs
  IsSafe n d (obj fs) = (d ≤ n) × HasSafe n (suc d) fs
  IsSafe n d null = d ≤ n
  IsSafe n d (bool _) = d ≤ n
  IsSafe n d (num _) = d ≤ n
  IsSafe n d (str _) = d ≤ n

  pub AreSafe : ℕ → ℕ → Items → Type 0
  AreSafe n d nil = Unit
  AreSafe n d (cons v vs) = IsSafe n d v × AreSafe n d vs

  pub HasSafe : ℕ → ℕ → Fields → Type 0
  HasSafe n d done = Unit
  HasSafe n d (field k v fs) = (is_forbidden k ≡ false) × IsSafe n d v × HasSafe n d fs

abbrev IsSafeItem : ℕ → Item → Type 0
IsSafeItem n item = IsSafe n item.depth item.value

abbrev IsSafeEntry : ℕ → ℕ → String × Json → Type 0
IsSafeEntry n d (k, v) = (is_forbidden k ≡ false) × IsSafe n d v

push_entries-ok :
    (n maximum d : ℕ) (entries : List (String × Json)) (bytes : ℕ) (pending next : List Item)
    (more : ℕ)
    → push_entries maximum d entries bytes pending ≡ ok (more, next)
    → All (IsSafeItem n) next
    → All (IsSafeItem n) pending × All (IsSafeEntry n d) entries
unfolding push_entries
push_entries-ok n maximum d [] bytes pending next more h safe =
    let same : pending ≡ next = ground (arith, h) in (rw same safe, tt)
push_entries-ok n maximum d ((k, v) ∷ rest) bytes pending next more h safe =
    elim (Bool-cases (is_forbidden k)) [
      | inl bad ↦ cc (rw bad at h)
      | inr good ↦ elim (Bool-cases (ltb maximum (bytes + len k))) [
        | inl big ↦ cc (rw big at (rw good at h))
        | inr small ↦
            let ((child, below), others) =
              push_entries-ok n maximum d rest (bytes + len k)
                (record { value = v; depth = d } ∷ pending) next more (rw small at (rw good at h))
                safe in
            (below, ((good, child), others))
      ]
    ]

visit_entries-ok :
    (limits : Limits) (n maximum nodes d bytes : ℕ) (entries : List (String × Json))
    (pending next : List Item) (more : ℕ)
    → visit_entries limits maximum nodes d bytes entries pending ≡ ok (more, next)
    → All (IsSafeItem n) next
    → All (IsSafeItem n) pending × All (IsSafeEntry n (suc d)) entries
unfolding visit_entries
visit_entries-ok limits n maximum nodes d bytes entries pending next more h safe =
    elim (Bool-cases (ltb limits.nodes (length entries + length pending + nodes))) [
      | inl full ↦ cc (rw full at h)
      | inr room ↦
          push_entries-ok n maximum (suc d) entries bytes pending next more (rw room at h) safe
    ]

items-AreSafe :
    (n d i : ℕ) (vs : Items) → All (IsSafeEntry n d) (entries_of_items i vs) → AreSafe n d vs
unfolding AreSafe
items-AreSafe n d i nil h = tt
items-AreSafe n d i (cons v vs) ((_, p), h) = (p, items-AreSafe n d (suc i) vs h)

fields-HasSafe :
    (n d : ℕ) (fs : Fields) → All (IsSafeEntry n d) (entries_of_fields fs) → HasSafe n d fs
unfolding HasSafe
fields-HasSafe n d done h = tt
fields-HasSafe n d (field k v fs) (p, h) = (p.0, p.1, fields-HasSafe n d fs h)

visit_value-ok :
    (limits : Limits) (n maximum nodes d bytes : ℕ) (v : Json) (pending next : List Item) (more : ℕ)
    → d ≤ n
    → visit_value limits maximum nodes d bytes v pending ≡ ok (more, next)
    → All (IsSafeItem n) next
    → All (IsSafeItem n) pending × IsSafe n d v
unfolding visit_value IsSafe
visit_value-ok limits n maximum nodes d bytes null pending next more le h safe =
    let same : pending ≡ next = ground (arith, h) in (rw same safe, le)
visit_value-ok limits n maximum nodes d bytes (bool b) pending next more le h safe =
    let same : pending ≡ next = ground (arith, h) in (rw same safe, le)
visit_value-ok limits n maximum nodes d bytes (num k) pending next more le h safe =
    let same : pending ≡ next = ground (arith, h) in (rw same safe, le)
visit_value-ok limits n maximum nodes d bytes (str s) pending next more le h safe =
    let same : pending ≡ next = ground (arith, h) in (rw same safe, le)
visit_value-ok limits n maximum nodes d bytes (arr vs) pending next more le h safe =
    let (below, entries) =
      visit_entries-ok limits n maximum nodes d bytes (entries_of_items 0 vs) pending next more h
        safe in
    (below, (le, items-AreSafe n (suc d) 0 vs entries))
visit_value-ok limits n maximum nodes d bytes (obj fs) pending next more le h safe =
    let (below, entries) =
      visit_entries-ok limits n maximum nodes d bytes (entries_of_fields fs) pending next more h
        safe in
    (below, (le, fields-HasSafe n (suc d) fs entries))

walk-safe :
    (fuel : ℕ) (limits : Limits) (maximum nodes bytes : ℕ) (pending : List Item)
    → walk fuel limits maximum nodes bytes pending ≡ some (ok tt)
    → All (IsSafeItem limits.depth) pending
unfolding walk
walk-safe zero limits maximum nodes bytes pending h = cc
walk-safe (suc fuel) limits maximum nodes bytes [] h = tt
walk-safe (suc fuel) limits maximum nodes bytes (item ∷ pending) h =
    elim (Result-cases (visit limits maximum (suc nodes) bytes item pending)) [
      | inl (e, stop) ↦ cc (rw (stop, walk) at h)
      | inr ((more, next), go) ↦
          let (le, _, valued) =
            visit-ok limits maximum (suc nodes) bytes item pending (more, next) go in
          let safe = walk-safe fuel limits maximum (suc nodes) more next (rw (go, walk) at h) in
          let (below, here) =
            visit_value-ok limits limits.depth maximum (suc nodes) item.depth bytes item.value
              pending next more le valued safe in
          (here, below)
    ]

-- An accepted value is nested no deeper than the limit, and no object in it has a member named
-- "__proto__", "constructor" or "prototype"; printed, it is no longer than the maximum.
pub assert_mcp_json-IsSafe :
    (limits : Limits) (value : Json) (maximum : ℕ)
    → assert_mcp_json limits value maximum ≡ some (ok tt)
    → IsSafe limits.depth 0 value × (len (stringify value) ≤ maximum)
unfolding assert_mcp_json
assert_mcp_json-IsSafe limits value maximum h =
    let start : List Item = record { value = value; depth = 0 } ∷ [] in
    let (r, e) =
      walk_total (suc (suc limits.nodes)) limits maximum 0 0 start (omega arith) (omega arith) in
    elim (Result-cases r) [
      | inl (x, failed) ↦ cc (rw failed at (rw (e, assert_mcp_json) at h))
      | inr (t, passed) ↦ elim (Bool-cases (ltb maximum (len (stringify value)))) [
        | inl long ↦ cc (rw long at (rw passed at (rw (e, assert_mcp_json) at h)))
        | inr short ↦
            let walked : walk (suc (suc limits.nodes)) limits maximum 0 0 start ≡ some (ok tt) =
              e ∙ ap some passed in
            (
              (walk-safe (suc (suc limits.nodes)) limits maximum 0 0 start walked).0,
              ground (arith, short),
            )
      ]
    ]
