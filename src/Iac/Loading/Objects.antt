-- ===== src/Iac/Loading/Objects.antt =====
-- `objects` of loadPlanningState in apps/weldall/src/server/iac/planner.ts: an object for every row, then
-- a tombstone for every binding that has lost its row.
pub mod Bindings
use weldall.Prelude.{
  ℕ, String, Bool, true, false, not, ◌&&◌, Option, none, some, List, [], ◌∷◌, ◌++◌, map,
  if◌then◌else◌, ◌==◌, any, Result, ok, err, ◌>>=◌, traverse,
}
use weldall.Iac.Json.{Json, null, ◌+s◌}
use weldall.Iac.Contracts.{
  Kind, scope, resource, machine, email_assignment, group_assignment, skill, connector,
  shared_connection, group_provider, login_provider, CurrentObject, PlanError,
}
use weldall.Iac.Rows.{
  BindingRow, ScopeRow, ResourceRow, MachineRow, EmailRow, GroupRow, SkillRow, ConnectorRow,
  SharedConnectionRow, GroupProviderRow, LoginProviderRow, Tables,
}
use weldall.Iac.Loading.{
  Schemas, is_set, target_ids, binding_targets, bound_object, public_shared_connection,
  public_group_provider, public_login_provider, build_connector_state, scope_state, resource_state,
  machine_state, email_state, group_state, skill_state,
}

-- An unknown kind gives undefined there; the column is an enumeration of these.
unfoldable pub from_prisma_kind : String → Kind
from_prisma_kind kind =
    if kind == "SCOPE"
    then scope
    else if kind == "RESOURCE"
    then resource
    else if kind == "MACHINE"
    then machine
    else if kind == "EMAIL_ASSIGNMENT"
    then email_assignment
    else if kind == "GROUP_ASSIGNMENT"
    then group_assignment
    else if kind == "SKILL"
    then skill
    else if kind == "CONNECTOR"
    then connector
    else if kind == "SHARED_CONNECTION"
    then shared_connection
    else if kind == "GROUP_PROVIDER"
    then group_provider
    else login_provider

-- `!item.scopeId && … && !item.loginProviderId`
abbrev pub has_no_target : BindingRow → Bool
has_no_target b = not (any is_set (target_ids b))

unfoldable pub tombstone_of : BindingRow → CurrentObject
unfolding from_prisma_kind
tombstone_of b = record {
  address = some b.address;
  kind = from_prisma_kind b.kind;
  id = b.id;
  identity = b.natural_identity;
  version = 0;
  owner_workspace_id = some b.workspace_id;
  state = null;
  tombstone = true;
}

unfoldable pub tombstones : List BindingRow → List CurrentObject
unfolding tombstone_of
tombstones [] = []
tombstones (b ∷ bs) =
    let rest = tombstones bs in if has_no_target b then tombstone_of b ∷ rest else rest

module _ (c : Schemas) (targets : List (String × BindingRow)) where
  abbrev pub of_state :
      Kind → String → String → ℕ → Result PlanError Json → Result PlanError CurrentObject
  of_state kind id identity version state =
      state >>= λ j. ok (bound_object targets kind id identity version j)

  abbrev pub shared_objects : List SharedConnectionRow → Result PlanError (List CurrentObject)
  shared_objects = traverse (λ row.
      of_state shared_connection row.id row.key row.version (public_shared_connection c row))

  abbrev pub group_provider_objects : List GroupProviderRow → Result PlanError (List CurrentObject)
  group_provider_objects =
      traverse
        (λ row. of_state group_provider row.id row.key row.version (public_group_provider c row))

  abbrev pub login_provider_objects : List LoginProviderRow → Result PlanError (List CurrentObject)
  login_provider_objects =
      traverse
        (λ row. of_state login_provider row.id row.id row.version (public_login_provider c row))

  abbrev pub connector_objects : List ConnectorRow → Result PlanError (List CurrentObject)
  connector_objects =
      traverse (λ row. of_state connector row.id row.key row.version (build_connector_state c row))

  abbrev pub skill_objects : List SkillRow → Result PlanError (List CurrentObject)
  skill_objects = traverse (λ row. of_state skill row.id row.slug row.version (skill_state c row))

  -- The objects whose states no schema parses.
  abbrev pub plain_objects : Tables → List CurrentObject
  plain_objects t =
      map (λ row. bound_object targets scope row.id row.key row.version (scope_state row)) t.scopes
      ++ (map (λ row. bound_object targets resource row.id row.key row.version (resource_state row))
            t.resources
          ++ (map
                (λ row.
                  bound_object targets machine row.id row.client_id row.version (machine_state row))
                t.machines
              ++ (map
                    (λ row.
                      bound_object targets email_assignment row.id row.normalized_email row.version
                        (email_state row))
                    t.emails
                  ++ map
                      (λ row.
                        bound_object targets group_assignment row.id
                          (row.provider_key +s ":" +s row.group_id) row.version (group_state row))
                      t.groups)))

  unfoldable pub row_objects : Tables → Result PlanError (List CurrentObject)
  unfolding bound_object public_shared_connection public_group_provider public_login_provider
      build_connector_state skill_state traverse
  row_objects t = do
    shared ← shared_objects t.shared_connections
    groups ← group_provider_objects t.group_providers
    logins ← login_provider_objects t.login_providers
    connectors ← connector_objects t.connectors
    skills ← skill_objects t.skills
    ok (shared ++ (groups ++ (logins ++ (connectors ++ (plain_objects t ++ skills)))))

unfoldable pub load_objects : Schemas → Tables → Result PlanError (List CurrentObject)
unfolding row_objects binding_targets tombstones
load_objects c t = do
  rows ← row_objects c (binding_targets [] t.bindings) t
  ok (rows ++ tombstones t.bindings)
