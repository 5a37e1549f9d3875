-- ===== src/Iac/Graph.antt =====
-- mcpGraphBlockers of apps/weldall/src/server/iac/planner.ts, with the providers' MCP support of
-- apps/weldall/src/server/connectors/registry.ts.
pub mod Resolution
use weldall.Prelude.{
  String, Bool, true, false, not, ◌&&◌, Option, none, some, List, [], ◌∷◌, ◌++◌, map, if◌then◌else◌,
  ◌==◌, Result, ok, err, ◌>>=◌,
}
use weldall.Iac.Json.{◌+s◌, text_field, is_true}
use weldall.Iac.Contracts.{
  Host, Dependency, exact, on_resource, on_connector_type, mcp_dependency_key, resource, connector,
  skill, same_kind, Blocker, CurrentObject, DesiredObject, PlanError, unsupported_provider,
}
use weldall.Iac.Order.{Subject, of_desired, of_current, dependencies_of, is_text, read_field}

-- `getConnectorProvider(type).mcp`: of the three providers one has it, and another type is an error.
unfoldable pub provider_mcp : Option String → Result PlanError Bool
provider_mcp none = err unsupported_provider
provider_mcp (some type) =
    if type == "google"
    then ok false
    else if type == "atlassian"
    then ok false
    else if type == "atlassian-mcp"
    then ok true
    else err unsupported_provider

abbrev pub names_connector : Dependency → Subject → Bool
names_connector (exact key) o = o.identity == key
names_connector (on_resource _) o = false
names_connector (on_connector_type type) o = is_text (text_field "type" o.state) type

-- Whether one object answers a dependency.
unfoldable pub answers : Dependency → Subject → Result PlanError Bool
unfolding provider_mcp read_field text_field
answers (on_resource key) o =
    if same_kind o.kind resource && o.identity == key
    then (read_field "enabled" o.state >>= λ enabled. ok (is_true enabled))
    else ok false
answers dep o =
    if same_kind o.kind connector
    then (read_field "enabled" o.state >>= λ enabled.
        if is_true enabled
        then (provider_mcp (text_field "type" o.state) >>= λ mcp. ok (mcp && names_connector dep o))
        else ok false)
    else ok false

-- `objects.some(…)` stops at the first object that answers.
unfoldable pub resolves : List Subject → Dependency → Result PlanError Bool
unfolding answers
resolves [] dep = ok false
resolves (o ∷ os) dep = elim (answers dep o) [
  | err e ↦ err e
  | ok true ↦ ok true
  | ok false ↦ resolves os dep
]

abbrev non_empty : Option String → Option String
non_empty none = none
non_empty (some s) = if s == "" then none else some s

unfoldable pub unresolved_blocker : Subject → Dependency → Blocker
unfolding mcp_dependency_key
unresolved_blocker o dep = record {
  code = "UNRESOLVED_MCP_DEPENDENCY";
  address = non_empty o.address;
  message =
      "Skill " +s o.identity +s " requires enabled MCP source " +s mcp_dependency_key dep +s ".";
  owner_workspace_id = none;
}

-- `!resolves(final, dep) && (isDesired || resolves(current, dep))`, each part only where it is read.
unfoldable pub breaks : List Subject → List Subject → Bool → Dependency → Result PlanError Bool
unfolding resolves
breaks final current is_desired dep = do
  now ← resolves final dep
  if now then ok false else (if is_desired then ok true else resolves current dep)

unfoldable pub skill_blockers :
    List Subject → List Subject → Bool → Subject → List Dependency → Result PlanError (List Blocker)
unfolding breaks unresolved_blocker
skill_blockers final current is_desired o [] = ok []
skill_blockers final current is_desired o (dep ∷ deps) = do
  broken ← breaks final current is_desired dep
  rest ← skill_blockers final current is_desired o deps
  ok (if broken then unresolved_blocker o dep ∷ rest else rest)

unfoldable pub object_blockers :
    Host → List Subject → List Subject → Bool → Subject → Result PlanError (List Blocker)
unfolding skill_blockers dependencies_of
object_blockers h final current is_desired o =
    if same_kind o.kind skill
    then (dependencies_of h o.state >>= skill_blockers final current is_desired o)
    else ok []

unfoldable pub blockers_of :
    Host → List Subject → List Subject → Bool → List Subject → Result PlanError (List Blocker)
unfolding object_blockers
blockers_of h final current is_desired [] = ok []
blockers_of h final current is_desired (o ∷ os) = do
  first ← object_blockers h final current is_desired o
  rest ← blockers_of h final current is_desired os
  ok (first ++ rest)

abbrev pub owned_by : String → Option String → Bool
owned_by workspace none = false
owned_by workspace (some w) = w == workspace

unfoldable pub retained : String → List CurrentObject → List CurrentObject
retained workspace [] = []
retained workspace (o ∷ os) =
    let rest = retained workspace os in
    if not o.tombstone && not (owned_by workspace o.owner_workspace_id) then o ∷ rest else rest

-- What stays of other owners is walked first, then what the manifest asks for.
unfoldable pub mcp_graph_blockers :
    Host → String → List DesiredObject → List CurrentObject → Result PlanError (List Blocker)
unfolding blockers_of retained
mcp_graph_blockers h workspace desired current =
    let kept = map of_current (retained workspace current) in
    let wanted = map of_desired desired in
    let final = kept ++ wanted in
    let now = map of_current current in
    do
      first ← blockers_of h final now false kept
      rest ← blockers_of h final now true wanted
      ok (first ++ rest)
