-- ===== src/Iac/Loading.antt =====
-- loadPlanningState of apps/weldall/src/server/iac/planner.ts: the current objects, with bindingInfo,
-- fromPrismaKind and skillMcpState, the public states of domain/secret-primitive-contracts.ts and
-- buildConnectorState of connectors/configuration.ts.
pub mod Objects
pub mod References
pub mod Connectors
pub mod Secrets
pub mod State
mod Tests
use Prim.Native.String
use weldall.Prelude.{
  ℕ, String, Bool, true, false, not, ◌&&◌, Option, none, some, List, [], ◌∷◌, ◌++◌, map,
  if◌then◌else◌, ◌==◌, lookup, insert, sort, Result, ok, err, ◌>>=◌, traverse,
}
use weldall.Iac.Json.{
  Json, null, bool, num, str, arr, obj, Items, nil, cons, Fields, done, field, ◌+s◌,
}
use weldall.Iac.Contracts.{
  Kind, scope, resource, machine, email_assignment, group_assignment, skill, connector,
  shared_connection, group_provider, login_provider, CurrentObject, PlanError, unsupported_provider,
  invalid_dependencies, invalid_state,
}
use weldall.Iac.Graph.{provider_mcp}
use weldall.Iac.Rows.{
  Reference, BindingRow, ScopeRow, ResourceRow, KeyRow, MachineRow, EmailRow, GroupRow, SkillRow,
  ConnectorRow, SharedConnectionRow, GroupProviderRow, LoginProviderRow, Tables,
}

-- What schemas and providers make of untyped values; `none` where they throw. `parse_state` is the
-- schema of a kind's public state, `dependencies` that of a skill's dependencies; the others are the
-- provider's of a type.
pub record Schemas : Type 0 where
  pub parse_state : Kind → Json → Option Json
  pub dependencies : Json → Option Items
  pub parse_configuration : String → Json → Option Json
  pub configuration_identity : String → Json → String
  pub has_registration : String → Bool
  pub is_deep_strict_equal : Json → Json → Bool

abbrev pub is_set : Option String → Bool
is_set none = false
is_set (some s) = not (s == "")

abbrev pub target_ids : BindingRow → List (Option String)
target_ids b =
    b.scope_id ∷ b.resource_id ∷ b.machine_client_id ∷ b.email_assignment_id ∷ b.group_assignment_id
    ∷ b.skill_id ∷ b.connector_id ∷ b.shared_connection_id ∷ b.group_provider_id
    ∷ b.login_provider_id ∷ []

-- The inner loop of `bindingTargets`.
unfoldable pub set_targets :
    BindingRow → List (Option String) → List (String × BindingRow) → List (String × BindingRow)
set_targets b [] targets = targets
set_targets b (none ∷ ids) targets = set_targets b ids targets
set_targets b (some id ∷ ids) targets =
    set_targets b ids (if id == "" then targets else insert id b targets)

unfoldable pub binding_targets :
    List (String × BindingRow) → List BindingRow → List (String × BindingRow)
unfolding set_targets
binding_targets targets [] = targets
binding_targets targets (b ∷ bs) = binding_targets (set_targets b (target_ids b) targets) bs

abbrev pub address_of : Option BindingRow → Option String
address_of none = none
address_of (some b) = some b.address

abbrev pub workspace_of : Option BindingRow → Option String
workspace_of none = none
workspace_of (some b) = some b.workspace_id

-- An object with the `bindingInfo` of its identifier.
unfoldable pub bound_object :
    List (String × BindingRow) → Kind → String → String → ℕ → Json → CurrentObject
bound_object targets kind id identity version state = record {
  address = address_of (lookup id targets);
  kind = kind;
  id = id;
  identity = identity;
  version = version;
  owner_workspace_id = workspace_of (lookup id targets);
  state = state;
  tombstone = false;
}

abbrev pub items_of_texts : List String → Items
items_of_texts [] = nil
items_of_texts (s ∷ ss) = cons (str s) (items_of_texts ss)

abbrev pub texts_json : List String → Json
texts_json ss = arr (items_of_texts ss)

-- `entries.map((entry) => entry.scope.key).sort()`
abbrev pub sorted_keys : List Reference → Json
sorted_keys rs = texts_json (sort String.compare (map (λ (r : Reference). r.key) rs))

abbrev pub or_throw : PlanError → Option Json → Result PlanError Json
or_throw e none = err e
or_throw e (some j) = ok j

unfoldable pub public_shared_connection : Schemas → SharedConnectionRow → Result PlanError Json
public_shared_connection c row = or_throw invalid_state (
    c.parse_state shared_connection (
      obj (
        field "key" (str row.key) (
          field "name" (str row.name) (
            field "enabled" (bool row.enabled) (
              field "connectorKey" (str row.connector_key) (
                field "credentialManagerEmail" (str row.owner_email) (
                  field "serviceAccountLabel" (str row.account_name) (
                    field "provider" row.provider_selection (
                      field "useScopes" (texts_json (map (λ (r : Reference). r.key) row.use_scopes))
                        done))))))))))

unfoldable pub public_group_provider : Schemas → GroupProviderRow → Result PlanError Json
public_group_provider c row = or_throw invalid_state (
    c.parse_state group_provider (
      obj (
        field "key" (str row.key) (
          field "name" (str row.name) (
            field "adapterType" (str row.adapter_type)
              (field "baseUrl" (str row.base_url) (field "enabled" (bool row.enabled) done)))))))

abbrev pub with_set : String → Option String → Fields → Fields
with_set name none rest = rest
with_set name (some s) rest = if s == "" then rest else field name (str s) rest

unfoldable pub public_login_provider : Schemas → LoginProviderRow → Result PlanError Json
public_login_provider c row = or_throw invalid_state (
    c.parse_state login_provider (
      obj (
        field "id" (str row.id) (
          field "name" (str row.name) (
            field "buttonLabel" (str row.button_label) (
              field "buttonColor" (str row.button_color) (
                field "sortOrder" (num row.sort_order) (
                  field "issuer" (str row.issuer) (
                    with_set "discoveryUrl" row.discovery_url (
                      field "clientId" (str row.client_id) (
                        field "tokenEndpointAuthMethod" (str row.token_endpoint_auth_method) (
                          field "scopes" (texts_json row.scopes) (
                            field "allowedEmailDomains" (texts_json row.allowed_email_domains)
                              (field "enabled" (bool row.enabled) done))))))))))))))

unfoldable pub build_connector_state : Schemas → ConnectorRow → Result PlanError Json
unfolding provider_mcp
build_connector_state c row = do
  known ← provider_mcp (some row.provider_type)
  provider ← or_throw invalid_state (c.parse_configuration row.provider_type row.provider_config)
  or_throw invalid_state (
      c.parse_state connector (
        obj (
          field "key" (str row.key) (
            field "name" (str row.name) (
              field "type" (str row.provider_type) (
                field "enabled" (bool row.enabled) (
                  field "envelopeProvider" (str row.envelope_provider) (
                    field "requiredScopes" (sorted_keys row.required_scopes)
                      (field "provider" provider done)))))))))

abbrev pub scope_state : ScopeRow → Json
scope_state row = obj (field "key" (str row.key) (field "description" (str row.description) done))

abbrev pub resource_state : ResourceRow → Json
resource_state row = obj (
    field "key" (str row.key) (
      field "name" (str row.name) (
        field "resourceIdentifier" (str row.resource_identifier) (
          field "authorizationServer" (str row.authorization_server) (
            field "downstreamClientId" (str row.downstream_client_id) (
              field "enabled" (bool row.enabled) (
                field "skillDiscoveryEnabled" (bool row.skill_discovery_enabled) (
                  field "requestPrefixes" (texts_json (sort String.compare row.request_prefixes))
                    (field "scopes" (sorted_keys row.scopes) done)))))))))

-- The keys that are not revoked.
unfoldable pub active_keys : List KeyRow → Fields
active_keys [] = done
active_keys (k ∷ ks) =
    let rest = active_keys ks in if k.is_revoked then rest else field k.kid k.public_jwk rest

abbrev pub machine_state : MachineRow → Json
machine_state row = obj (
    field "clientId" (str row.client_id) (
      field "name" (str row.name) (
        field "enabled" (bool row.enabled) (
          field "publicKeys" (obj (active_keys row.keys)) (
            field "resources" (sorted_keys row.allowed_resources)
              (field "scopes" (sorted_keys row.allowed_scopes) done))))))

abbrev pub email_state : EmailRow → Json
email_state row =
    obj (field "email" (str row.normalized_email) (field "scopes" (sorted_keys row.grants) done))

abbrev pub group_state : GroupRow → Json
group_state row = obj (
    field "provider" (str row.provider_key)
      (field "groupId" (str row.group_id) (field "scopes" (sorted_keys row.grants) done)))

-- skillMcpState: an empty list is left out.
abbrev pub with_dependencies : Items → Fields → Fields
with_dependencies nil rest = rest
with_dependencies (cons d ds) rest = field "mcpDependencies" (arr (cons d ds)) rest

abbrev with_meta : Option Json → Fields → Fields
with_meta none rest = rest
with_meta (some j) rest = field "meta" j rest

abbrev with_last_updated : Option String → Fields → Fields
with_last_updated none rest = rest
with_last_updated (some s) rest = field "lastUpdatedAt" (str s) rest

abbrev or_invalid : Option Items → Result PlanError Items
or_invalid none = err invalid_dependencies
or_invalid (some ds) = ok ds

unfoldable pub skill_state : Schemas → SkillRow → Result PlanError Json
skill_state c row = or_invalid (c.dependencies row.mcp_dependencies) >>= λ ds. ok (
    obj (
      field "slug" (str row.slug) (
        field "title" (str row.title) (
          field "content" (str row.content) (
            field "requiredScopes" (texts_json (sort String.compare row.required_scopes)) (
              with_dependencies ds (
                field "visibility" (str row.visibility)
                  (with_meta row.meta (with_last_updated row.last_updated_at done)))))))))
