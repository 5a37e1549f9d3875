-- ===== src/Iac/Order.antt =====
-- compareActions and orderMcpActions of apps/weldall/src/server/iac/planner.ts. An action of the
-- plan is named by its place in the sorted list; an edge (i, j) is `before.get(i).add(j)`.
pub mod Drain
pub mod Edges
pub mod Total
use weldall.Prelude.{
  ◌||◌, ℕ, zero, suc, ◌+◌, String, Bool, true, false, not, ◌&&◌, Option, none, some, List, [], ◌∷◌,
  ◌++◌, map, compare, Ordering, nat_eq, if◌then◌else◌, reversed, or_else, any, all, length, ◌==◌,
  Result, ok, err, ◌>>=◌,
}
use weldall.Iac.Json.{
  Json, null, bool, num, str, arr, nil, get_field, text_of, text_field, texts_field,
}
use weldall.Iac.Contracts.{
  Host, Dependency, exact, on_resource, on_connector_type, Kind, scope, resource, machine,
  email_assignment, group_assignment, skill, cli, connector, shared_connection, group_provider,
  login_provider, same_kind, ActionType, create, recreate, register_key, update, replace,
  revoke_key, delete, noop, is_noop, is_delete, Action, CurrentObject, DesiredObject, PlanError,
  invalid_graph, invalid_dependencies, type_error,
}

abbrev pub action_rank : ActionType → ℕ
action_rank create = 1
action_rank recreate = 1
action_rank register_key = 2
action_rank update = 3
action_rank replace = 4
action_rank revoke_key = 5
action_rank delete = 6
action_rank noop = 7

abbrev pub kind_rank : Kind → ℕ
kind_rank connector = 2
kind_rank group_provider = 2
kind_rank login_provider = 2
kind_rank shared_connection = 3
kind_rank scope = 1
kind_rank resource = 2
kind_rank machine = 3
kind_rank email_assignment = 4
kind_rank group_assignment = 4
kind_rank skill = 2
kind_rank cli = 1

abbrev or_empty : Option String → String
or_empty none = ""
or_empty (some s) = s

unfoldable pub compare_actions : Host → Action → Action → Ordering
compare_actions h left right =
    let kind = compare (kind_rank left.kind) (kind_rank right.kind) in
    or_else (compare (action_rank left.action) (action_rank right.action)) (
      or_else (if is_delete left.action then reversed kind else kind) (
        or_else (h.locale_compare left.address right.address)
          (h.locale_compare (or_empty left.key_id) (or_empty right.key_id))))

-- An action with its place.
abbrev pub Placed : Type 0
Placed = ℕ × Action

unfoldable pub numbered : ℕ → List Action → List Placed
numbered n [] = []
numbered n (a ∷ rest) = (n, a) ∷ numbered (suc n) rest

-- Who waits, and for whom.
abbrev pub Edge : Type 0
Edge = ℕ × ℕ

unfoldable pub find_parent : Kind → String → List Placed → Option Placed
find_parent kind identity [] = none
find_parent kind identity ((j, a) ∷ rest) =
    if same_kind a.kind kind && (a.identity == identity && not (is_noop a.action))
    then some (j, a)
    else find_parent kind identity rest

abbrev pub edge_between : Placed → Placed → List Edge
edge_between (i, child) (j, parent) =
    if is_noop child.action
    then []
    else if is_delete child.action && is_delete parent.action
    then (j, i) ∷ []
    else if not (is_delete child.action) && not (is_delete parent.action)
    then (i, j) ∷ []
    else []

unfoldable pub edge : List Placed → Kind → Option String → Placed → List Edge
unfolding find_parent
edge actions kind none child = []
edge actions kind (some identity) child = elim (find_parent kind identity actions) [
  | none ↦ []
  | some parent ↦ edge_between child parent
]

-- The part of desired and current objects that the edges are drawn from.
pub record Subject : Type 0 where
  pub address : Option String
  pub kind : Kind
  pub identity : String
  pub state : Json

abbrev pub of_desired : DesiredObject → Subject
of_desired o = record {
  address = some o.address;
  kind = o.kind;
  identity = o.identity;
  state = o.state;
}

abbrev pub of_current : CurrentObject → Subject
of_current o = record { address = o.address; kind = o.kind; identity = o.identity; state = o.state }

abbrev has_address : String → Option String → Bool
has_address address none = false
has_address address (some a) = a == address

unfoldable pub find_subject : String → List Subject → Option Subject
find_subject address [] = none
find_subject address (o ∷ os) =
    if has_address address o.address then some o else find_subject address os

abbrev pub is_falsy : Json → Bool
is_falsy null = true
is_falsy (bool b) = not b
is_falsy (num n) = nat_eq n 0
is_falsy (str s) = s == ""
is_falsy _ = false

abbrev is_null : Json → Bool
is_null null = true
is_null _ = false

-- `value.name`, which throws on null: the state of an object that is bound and gone.
unfoldable pub read_field : String → Json → Result PlanError (Option Json)
unfolding get_field
read_field name value = if is_null value then err type_error else ok (get_field name value)

abbrev or_no_dependencies : Option Json → Json
or_no_dependencies none = arr nil
or_no_dependencies (some null) = arr nil
or_no_dependencies (some v) = v

abbrev or_invalid : Option (List Dependency) → Result PlanError (List Dependency)
or_invalid none = err invalid_dependencies
or_invalid (some deps) = ok deps

unfoldable pub dependencies_of : Host → Json → Result PlanError (List Dependency)
unfolding read_field
dependencies_of h state = do
  value ← read_field "mcpDependencies" state
  or_invalid (h.parse_dependencies (or_no_dependencies value))

abbrev pub is_text : Option String → String → Bool
is_text none s = false
is_text (some t) s = t == s

-- The connectors of a type; the types of all of them are read.
unfoldable pub connectors_of_type : String → List Subject → Result PlanError (List Subject)
unfolding read_field
connectors_of_type type [] = ok []
connectors_of_type type (o ∷ os) =
    let others = connectors_of_type type os in
    if same_kind o.kind connector
    then (read_field "type" o.state >>= λ value.
        others >>= λ rest. ok (if is_text (text_of value) type then o ∷ rest else rest))
    else others

unfoldable pub edges_to_connectors : List Placed → List Subject → Placed → List Edge
unfolding edge
edges_to_connectors actions [] child = []
edges_to_connectors actions (o ∷ os) child =
    edge actions connector (some o.identity) child ++ edges_to_connectors actions os child

-- The edges to every connector of a type.
unfoldable pub edges_to_type :
    List Placed → String → List Subject → Placed → Result PlanError (List Edge)
unfolding edges_to_connectors connectors_of_type
edges_to_type actions type all_objects child = do
  connectors ← connectors_of_type type all_objects
  ok (edges_to_connectors actions connectors child)

unfoldable pub edges_of_dependency :
    List Placed → List Subject → Placed → Dependency → Result PlanError (List Edge)
unfolding edges_to_type edge
edges_of_dependency actions all_objects child (exact key) =
    ok (edge actions connector (some key) child)
edges_of_dependency actions all_objects child (on_resource key) =
    ok (edge actions resource (some key) child)
edges_of_dependency actions all_objects child (on_connector_type type) =
    edges_to_type actions type all_objects child

unfoldable pub dependency_edges :
    List Placed → List Subject → Placed → List Dependency → Result PlanError (List Edge)
unfolding edges_of_dependency
dependency_edges actions all_objects child [] = ok []
dependency_edges actions all_objects child (dep ∷ deps) = do
  first ← edges_of_dependency actions all_objects child dep
  others ← dependency_edges actions all_objects child deps
  ok (first ++ others)

unfoldable pub scope_edges : List Placed → Placed → List String → List Edge
unfolding edge
scope_edges actions child [] = []
scope_edges actions child (s ∷ ss) =
    edge actions scope (some s) child ++ scope_edges actions child ss

unfoldable pub edges_by_kind :
    Host → List Placed → List Subject → Placed → Json → Kind → Result PlanError (List Edge)
unfolding dependencies_of dependency_edges scope_edges edge texts_field text_field
edges_by_kind h actions all_objects child state skill = do
  deps ← dependencies_of h state
  dependency_edges actions all_objects child deps
edges_by_kind h actions all_objects child state shared_connection = ok (
    edge actions connector (text_field "connectorKey" state) child
    ++ scope_edges actions child (texts_field "useScopes" state))
edges_by_kind h actions all_objects child state group_assignment =
    ok (edge actions group_provider (text_field "provider" state) child)
edges_by_kind h actions all_objects child state _ = ok []

unfoldable pub action_edges :
    Host → List Placed → List Subject → List Subject → Placed → Result PlanError (List Edge)
unfolding edges_by_kind find_subject
action_edges h actions desired current (i, a) =
    elim (find_subject a.address (if is_delete a.action then current else desired)) [
      | none ↦ ok []
      | some o ↦
          if is_falsy o.state
          then ok []
          else edges_by_kind h actions (desired ++ current) (i, a) o.state a.kind
    ]

unfoldable pub all_edges :
    Host → List Placed → List Subject → List Subject → List Placed → Result PlanError (List Edge)
unfolding action_edges
all_edges h actions desired current [] = ok []
all_edges h actions desired current (a ∷ rest) = do
  first ← action_edges h actions desired current a
  others ← all_edges h actions desired current rest
  ok (first ++ others)

abbrev pub placed_in : ℕ → List Placed → Bool
placed_in j [] = false
placed_in j ((i, _) ∷ rest) = nat_eq i j || placed_in j rest

-- Whether an edge of the list makes `i` wait for an action that remains.
unfoldable pub is_waiting : List Edge → List Placed → ℕ → Bool
is_waiting [] remaining i = false
is_waiting ((waiting, on) ∷ edges) remaining i =
    (nat_eq waiting i && placed_in on remaining) || is_waiting edges remaining i

-- The first remaining action all of whose `before` are gone, and the others.
unfoldable pub take_ready : List Edge → List Placed → List Placed → Option (Placed × List Placed)
unfolding is_waiting
take_ready edges remaining [] = none
take_ready edges remaining ((i, a) ∷ rest) = elim (is_waiting edges remaining i) [
  | false ↦ some ((i, a), rest)
  | true ↦ elim (take_ready edges remaining rest) [
    | none ↦ none
    | some (next, others) ↦ some (next, (i, a) ∷ others)
  ]
]

-- The `while` loop. Each round takes one action out of `remaining`, whose length is the fuel.
unfoldable pub drain : ℕ → List Edge → List Placed → Result PlanError (List Placed)
unfolding take_ready
drain fuel edges [] = ok []
drain zero edges (_ ∷ _) = err invalid_graph
drain (suc fuel) edges (p ∷ ps) = elim (take_ready edges (p ∷ ps) (p ∷ ps)) [
  | none ↦ err invalid_graph
  | some (next, others) ↦ drain fuel edges others >>= λ ordered. ok (next ∷ ordered)
]

unfoldable pub order_mcp_actions :
    Host → List Action → List Subject → List Subject → Result PlanError (List Action)
unfolding all_edges numbered drain
order_mcp_actions h actions desired current =
    let placed = numbered 0 actions in
    do
      edges ← all_edges h placed desired current placed
      ordered ← drain (length placed) edges placed
      ok (map (λ p. p.1) ordered)
