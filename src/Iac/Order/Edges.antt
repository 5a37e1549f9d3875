-- ===== src/Iac/Order/Edges.antt =====
-- The edges of a plan lead from a dependant to what it depends on, and back for deletions: nobody
-- waits for an action that waits, so every plan can be put in order.
use weldall.Prelude.{
  ℕ, ◌≡◌, refl, ap, ◌∙◌, inl, inr, String, Bool, true, false, not, ◌&&◌, Option, none, some, List,
  [], ◌∷◌, ◌++◌, arith, nat_eq, if◌then◌else◌, Bool-cases, Option-cases, Result, ok, err, ◌>>=◌,
  All, All-append, ◌==◌,
}
use weldall.Iac.Json.{Json, text_field, texts_field}
use weldall.Iac.Contracts.{
  Host, Dependency, exact, on_resource, on_connector_type, Kind, scope, resource, group_assignment,
  skill, connector, shared_connection, group_provider, same_kind, same_kind_iff, is_noop, is_delete,
  Action, PlanError,
}
use weldall.Iac.Order.{
  Placed, Edge, Subject, find_parent, edge_between, edge, edges_to_type, connectors_of_type,
  edges_to_connectors, edges_of_dependency, dependency_edges, scope_edges, edges_by_kind,
  dependencies_of, action_edges, all_edges, find_subject, is_falsy,
}
use weldall.Iac.Order.Drain.{has_edge, IsStratified}

-- The kinds that depend on others, and the kinds that they depend on.
abbrev pub depends : Kind → Bool
depends skill = true
depends shared_connection = true
depends group_assignment = true
depends _ = false

abbrev pub serves : Kind → Bool
serves connector = true
serves resource = true
serves scope = true
serves group_provider = true
serves _ = false

-- Who waits in a plan: a dependant that is not deleted, or what a deleted dependant needs.
abbrev pub waits : Action → Bool
waits a = if is_delete a.action then serves a.kind else depends a.kind

unfoldable pub at : ℕ → List Placed → Option Action
at i [] = none
at i ((j, a) ∷ rest) = if nat_eq j i then some a else at i rest

abbrev pub IsPlaced : List Placed → Placed → Type 0
IsPlaced actions (i, a) = at i actions ≡ some a

pub record Directed (actions : List Placed) (e : Edge) : Type 0 where
  pub tail : Action
  pub head : Action
  pub tail_at : at e.0 actions ≡ some tail
  pub head_at : at e.1 actions ≡ some head
  pub tail_waits : waits tail ≡ true
  pub head_serves : waits head ≡ false

abbrev pub AllDirected : List Placed → List Edge → Type 0
AllDirected actions edges = All (Directed actions) edges

has_edge-Directed :
    (actions : List Placed) (edges : List Edge) (i j : ℕ)
    → AllDirected actions edges
    → has_edge i j edges ≡ true
    → Directed actions (i, j)
unfolding has_edge
has_edge-Directed actions [] i j d h = cc
has_edge-Directed actions ((w, o) ∷ edges) i j (d, ds) h =
    elim (Bool-cases (nat_eq w i && nat_eq o j)) [
      | inl this ↦ let e : i ≡ w = ground arith in let e' : j ≡ o = ground arith in rw (e, e') d
      | inr other ↦ has_edge-Directed actions edges i j ds (ground (arith, other))
    ]

pub IsStratified-of_AllDirected :
    (actions : List Placed) (edges : List Edge) → AllDirected actions edges → IsStratified edges
IsStratified-of_AllDirected actions edges d i j k h = elim (Bool-cases (has_edge j k edges)) [
  | inr none_there ↦ none_there
  | inl again ↦
      let a = has_edge-Directed actions edges i j d h in
      let b = has_edge-Directed actions edges j k d again in
      let same : a.head ≡ b.tail = ground (arith, a.head_at, b.tail_at) in
      absurd (ground (arith, ap waits same, a.head_serves, b.tail_waits))
]

-- What a computation gives, if it gives anything.
abbrev pub Gives {ℓ} : {A : Type 0} → (A → Type ℓ) → Result PlanError A → Type ℓ
Gives P (ok a) = P a
Gives P (err e) = Unit

Gives-append :
    (actions : List Placed) (r s : Result PlanError (List Edge))
    → Gives (AllDirected actions) r
    → Gives (AllDirected actions) s
    → Gives (AllDirected actions) (r >>= λ first. s >>= λ others. ok (first ++ others))
Gives-append actions (err e) s hr hs = tt
Gives-append actions (ok r) (err e) hr hs = tt
Gives-append actions (ok r) (ok s) hr hs = All-append (Directed actions) r s hr hs

find_parent-IsPlaced :
    (actions rest : List Placed) (kind : Kind) (identity : String) (parent : Placed)
    → All (IsPlaced actions) rest
    → find_parent kind identity rest ≡ some parent
    → IsPlaced actions parent × (parent.1.kind ≡ kind) × (is_noop parent.1.action ≡ false)
unfolding find_parent
find_parent-IsPlaced actions [] kind identity parent h e = cc
find_parent-IsPlaced actions ((i, a) ∷ rest) kind identity parent (h, hs) e =
    elim (Bool-cases
      (same_kind a.kind kind && (a.identity == identity && not (is_noop a.action)))) [
        | inr other ↦
            find_parent-IsPlaced actions rest kind identity parent hs (ground (arith, other))
        | inl this ↦
            let same : parent ≡ (i, a) = ground (arith, this) in
            rw same (h, (same_kind_iff a.kind kind).0 (ground (arith, this)), ground (arith, this))
      ]

serves_of_depends : (k : Kind) → depends k ≡ true → serves k ≡ false
serves_of_depends skill h = refl
serves_of_depends _ h = ground arith

edge_between-AllDirected :
    (actions : List Placed) (child parent : Placed)
    → IsPlaced actions child
    → IsPlaced actions parent
    → depends child.1.kind ≡ true
    → serves parent.1.kind ≡ true
    → AllDirected actions (edge_between child parent)
edge_between-AllDirected actions (i, c) (j, p) hc hp dc sp = elim (Bool-cases (is_noop c.action)) [
  | inl skip ↦ rw skip tt
  | inr act ↦ rw act (elim (Bool-cases (is_delete c.action)) [
    | inl dead ↦ rw dead (elim (Bool-cases (is_delete p.action)) [
      | inl dead' ↦ rw dead' (
        record {
          tail = p;
          head = c;
          tail_at = hp;
          head_at = hc;
          tail_waits = rw dead' sp;
          head_serves = rw dead (serves_of_depends c.kind dc);
        },
        tt,
      )
      | inr live' ↦ rw live' tt
    ])
    | inr live ↦ rw live (elim (Bool-cases (is_delete p.action)) [
      | inl dead' ↦ rw dead' tt
      | inr live' ↦ rw live' (
        record {
          tail = c;
          head = p;
          tail_at = hc;
          head_at = hp;
          tail_waits = rw live dc;
          head_serves = rw live' (elim (Bool-cases (depends p.kind)) [
            | inr no_dep ↦ no_dep
            | inl dep ↦ cc (serves_of_depends p.kind dep)
          ]);
        },
        tt,
      )
    ])
  ])
]

module _ (actions : List Placed) (placed : All (IsPlaced actions) actions) (child : Placed)
    (child_at : IsPlaced actions child) (dependant : depends child.1.kind ≡ true) where
  edge-AllDirected :
      (kind : Kind) (identity : Option String)
      → serves kind ≡ true
      → AllDirected actions (edge actions kind identity child)
  unfolding edge
  edge-AllDirected kind none s = tt
  edge-AllDirected kind (some identity) s =
      elim (Option-cases (find_parent kind identity actions)) [
        | inl e ↦ rw (e, edge) tt
        | inr (parent, e) ↦
            let (at_parent, same, _) =
              find_parent-IsPlaced actions actions kind identity parent placed e in
            rw (e, edge)
              (edge_between-AllDirected actions child parent child_at at_parent dependant
                (ap serves same ∙ s))
      ]

  edges_to_connectors-AllDirected :
      (objects : List Subject) → AllDirected actions (edges_to_connectors actions objects child)
  unfolding edges_to_connectors
  edges_to_connectors-AllDirected [] = tt
  edges_to_connectors-AllDirected (o ∷ os) =
      All-append (Directed actions) _ _ (edge-AllDirected connector (some o.identity) refl)
        (edges_to_connectors-AllDirected os)

  edges_to_type-AllDirected :
      (type : String) (objects : List Subject)
      → Gives (AllDirected actions) (edges_to_type actions type objects child)
  unfolding edges_to_type
  edges_to_type-AllDirected type objects = go (connectors_of_type type objects)
    where
      go :
          (r : Result PlanError (List Subject))
          → Gives
              (AllDirected actions)
              (r >>= λ connectors. ok (edges_to_connectors actions connectors child))
      go (err e) = tt
      go (ok connectors) = edges_to_connectors-AllDirected connectors

  edges_of_dependency-AllDirected :
      (objects : List Subject) (dep : Dependency)
      → Gives (AllDirected actions) (edges_of_dependency actions objects child dep)
  unfolding edges_of_dependency
  edges_of_dependency-AllDirected objects (exact key) = edge-AllDirected connector (some key) refl
  edges_of_dependency-AllDirected objects (on_resource key) =
      edge-AllDirected resource (some key) refl
  edges_of_dependency-AllDirected objects (on_connector_type type) =
      edges_to_type-AllDirected type objects

  dependency_edges-AllDirected :
      (objects : List Subject) (deps : List Dependency)
      → Gives (AllDirected actions) (dependency_edges actions objects child deps)
  unfolding dependency_edges
  dependency_edges-AllDirected objects [] = tt
  dependency_edges-AllDirected objects (dep ∷ deps) =
      Gives-append actions (edges_of_dependency actions objects child dep)
        (dependency_edges actions objects child deps) (edges_of_dependency-AllDirected objects dep)
        (dependency_edges-AllDirected objects deps)

  scope_edges-AllDirected : (ss : List String) → AllDirected actions (scope_edges actions child ss)
  unfolding scope_edges
  scope_edges-AllDirected [] = tt
  scope_edges-AllDirected (s ∷ ss) =
      All-append (Directed actions) _ _ (edge-AllDirected scope (some s) refl)
        (scope_edges-AllDirected ss)

module _ (h : Host) (actions : List Placed) (placed : All (IsPlaced actions) actions) where
  edges_by_kind-AllDirected :
      (objects : List Subject) (child : Placed) (state : Json) (k : Kind)
      → child.1.kind ≡ k
      → IsPlaced actions child
      → Gives (AllDirected actions) (edges_by_kind h actions objects child state k)
  unfolding edges_by_kind
  edges_by_kind-AllDirected objects child state skill same at_child = go (dependencies_of h state)
    where
      go :
          (r : Result PlanError (List Dependency))
          → Gives (AllDirected actions) (r >>= λ deps. dependency_edges actions objects child deps)
      go (err e) = tt
      go (ok deps) =
          dependency_edges-AllDirected actions placed child at_child (ap depends same) objects deps
  edges_by_kind-AllDirected objects child state shared_connection same at_child =
      All-append (Directed actions) _ _
        (edge-AllDirected actions placed child at_child (ap depends same) connector
          (text_field "connectorKey" state) refl)
        (scope_edges-AllDirected actions placed child at_child (ap depends same)
          (texts_field "useScopes" state))
  edges_by_kind-AllDirected objects child state group_assignment same at_child =
      edge-AllDirected actions placed child at_child (ap depends same) group_provider
        (text_field "provider" state) refl
  edges_by_kind-AllDirected objects child state _ same at_child = tt

  action_edges-AllDirected :
      (desired current : List Subject) (child : Placed)
      → IsPlaced actions child
      → Gives (AllDirected actions) (action_edges h actions desired current child)
  unfolding action_edges
  action_edges-AllDirected desired current (i, a) at_child =
      elim (Option-cases
        (find_subject a.address (if is_delete a.action then current else desired))) [
          | inl e ↦ rw (e, action_edges) tt
          | inr (o, e) ↦ elim (Bool-cases (is_falsy o.state)) [
            | inl gone ↦ rw (e, action_edges) (rw gone tt)
            | inr there ↦
                rw (e, action_edges)
                  (rw there (
                    edges_by_kind-AllDirected (desired ++ current) (i, a) o.state a.kind refl
                      at_child))
          ]
        ]

  pub all_edges-AllDirected :
      (desired current : List Subject) (rest : List Placed)
      → All (IsPlaced actions) rest
      → Gives (AllDirected actions) (all_edges h actions desired current rest)
  unfolding all_edges
  all_edges-AllDirected desired current [] hs = tt
  all_edges-AllDirected desired current (a ∷ rest) (p, hs) =
      Gives-append actions (action_edges h actions desired current a)
        (all_edges h actions desired current rest) (action_edges-AllDirected desired current a p)
        (all_edges-AllDirected desired current rest hs)
