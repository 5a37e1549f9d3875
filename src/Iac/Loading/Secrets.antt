-- ===== src/Iac/Loading/Secrets.antt =====
-- secretPrimitiveBlockers of apps/weldall/src/server/iac/secret-primitives.ts.
pub mod Lockout
use Prim.Native.String
use weldall.Prelude.{
  ℕ, String, Bool, true, false, not, ◌&&◌, ◌||◌, Option, none, some, List, [], ◌∷◌, ◌++◌, map, any,
  if◌then◌else◌, ◌==◌, includes,
}
use weldall.Iac.Json.{Json, ◌+s◌, get_field, text_field, texts_field, flag_field}
use weldall.Iac.Contracts.{
  Kind, scope, connector, shared_connection, group_provider, login_provider, group_assignment,
  same_kind, Blocker, CurrentObject, DesiredObject, Manifest, or_null,
}
use weldall.Iac.Decision.{same_text}
use weldall.Iac.Graph.{owned_by, retained}
use weldall.Iac.Order.{Subject, of_desired, of_current}
use weldall.Iac.Desired.{entries_or_none}
use weldall.Iac.Rows.{
  SharedConnectionRow, GroupProviderRow, LoginProviderRow, ConnectionRow, Tables,
}
use weldall.Iac.Loading.{Schemas, is_set}
use weldall.Iac.Loading.Connectors.{block, block_if}

unfoldable pub owned_objects : String → List CurrentObject → List CurrentObject
owned_objects workspace [] = []
owned_objects workspace (o ∷ os) =
    let rest = owned_objects workspace os in
    if owned_by workspace o.owner_workspace_id then o ∷ rest else rest

unfoldable pub setup_blockers : Manifest → Option String → List Blocker
setup_blockers manifest installation = elim (entries_or_none manifest.login_providers) [
  | [] ↦ []
  | _ ∷ _ ↦
      if same_text installation (some "COMPLETED")
      then []
      else record {
        code = "SETUP_REQUIRED";
        address = none;
        message =
            "Complete the initial interactive login installation before managing login providers with IaC.";
        owner_workspace_id = none;
      }
        ∷ []
]

-- A manifest of an older client leaves a section out that the workspace manages.
unfoldable pub section_blockers :
    Kind → String → Option (List (String × Json)) → List CurrentObject → List Blocker
section_blockers kind section (some _) owned = []
section_blockers kind section none owned = block_if (any (λ o. same_kind o.kind kind) owned) (
    block "workspace" "CLIENT_UPGRADE_REQUIRED" (
      "This workspace manages " +s section +s ". Upgrade the CLI and explicitly include " +s section
      +s " (an empty mapping explicitly removes them)."))

unfoldable pub current_for : String → List CurrentObject → Option CurrentObject
current_for address [] = none
current_for address (o ∷ os) =
    if same_text o.address (some address) && not o.tombstone then some o else current_for address os

abbrev pub bound_id : Option CurrentObject → Option String
bound_id none = none
bound_id (some o) = some o.id

unfoldable pub find_shared :
    Option String → Option String → List SharedConnectionRow → Option SharedConnectionRow
find_shared id key [] = none
find_shared id key (r ∷ rs) =
    if same_text (some r.id) id && same_text (some r.key) key then some r else find_shared id key rs

unfoldable pub find_group_provider :
    Option String → Option String → List GroupProviderRow → Option GroupProviderRow
find_group_provider id key [] = none
find_group_provider id key (r ∷ rs) =
    if same_text (some r.id) id && same_text (some r.key) key
    then some r
    else find_group_provider id key rs

unfoldable pub find_login_provider :
    Option String → Option String → List LoginProviderRow → Option LoginProviderRow
find_login_provider id key [] = none
find_login_provider id key (r ∷ rs) =
    if same_text (some r.id) id && same_text (some r.id) key
    then some r
    else find_login_provider id key rs

abbrev pub has_identity : Kind → Option String → Subject → Bool
has_identity kind identity o = same_kind o.kind kind && same_text (some o.identity) identity

-- The type of the first connector with a key among the objects that stay.
unfoldable pub connector_type : Option String → List Subject → Option String
unfolding text_field
connector_type key [] = none
connector_type key (o ∷ os) =
    if has_identity connector key o then text_field "type" o.state else connector_type key os

abbrev pub with_row : {R : Type 0} → (R → Bool) → Option R → Bool
with_row test none = false
with_row test (some row) = test row

-- A credential that the row has.
abbrev pub has_credential : Option SharedConnectionRow → Bool
has_credential none = false
has_credential (some row) = is_set row.credential_id

abbrev starts_with_weldall : String → Bool
starts_with_weldall key = String.slice key 0 8 == "weldall:"

unfoldable pub use_scope_blockers : String → List Subject → List String → List Blocker
use_scope_blockers address final [] = []
use_scope_blockers address final (key ∷ keys) =
    block_if (starts_with_weldall key || not (any (has_identity scope (some key)) final)) (
      block address "INVALID_SCOPE"
        ("Use scope " +s key +s " must exist and must not be a system scope."))
    ++ use_scope_blockers address final keys

unfoldable pub shared_blockers :
    Schemas → Tables → List CurrentObject → List Subject → String × Json → List Blocker
unfolding current_for find_shared connector_type use_scope_blockers text_field texts_field
    flag_field get_field
shared_blockers c t owned final (name, config) =
    let address = "sharedConnection." +s name in
    let row =
      find_shared (bound_id (current_for address owned)) (text_field "key" config)
        t.shared_connections in
    let manager = text_field "credentialManagerEmail" config in
    block_if
      (not (
        same_text (connector_type (text_field "connectorKey" config) final) (some "atlassian-mcp")))
      (block address "INVALID_CONNECTOR"
        "A configured Atlassian MCP connector is required (it may be disabled).")
    ++ (block_if (not (any (λ email. same_text (some email) manager) t.user_emails)) (
          block address "UNKNOWN_CUSTODIAN"
            "credentialManagerEmail must reference an existing user.")
        ++ (block_if
              (with_row
                (λ (r : SharedConnectionRow).
                  not (same_text (some r.connector_key) (text_field "connectorKey" config))
                  || not (same_text (some r.owner_email) manager))
                row)
              (block address "IMMUTABLE_BINDING"
                "Connector and credential manager cannot be reassigned.")
            ++ (block_if
                  (with_row
                    (λ (r : SharedConnectionRow).
                      is_set r.credential_id
                      && not (
                          c.is_deep_strict_equal r.provider_selection
                            (or_null (get_field "provider" config))))
                    row)
                  (block address "CREDENTIAL_BINDING"
                    "A credential cannot be rebound to a different account selection.")
                ++ (block_if (flag_field "enabled" config && not (has_credential row)) (
                      block address "MISSING_CREDENTIAL"
                        "Create disabled, provision the credential in the UI, then explicitly enable.")
                    ++ use_scope_blockers address final (texts_field "useScopes" config)))))

unfoldable pub group_blockers : Tables → List CurrentObject → String × Json → List Blocker
unfolding current_for find_group_provider text_field flag_field
group_blockers t owned (name, config) =
    let address = "groupProvider." +s name in
    let row =
      find_group_provider (bound_id (current_for address owned)) (text_field "key" config)
        t.group_providers in
    block_if
      (flag_field "enabled" config && not (with_row (λ (r : GroupProviderRow). r.has_token) row))
      (block address "MISSING_CREDENTIAL" "Provision a token in the UI before enabling.")
    ++ (block_if
          (with_row
            (λ (r : GroupProviderRow).
              not (same_text (some r.adapter_type) (text_field "adapterType" config)))
            row)
          (block address "IMMUTABLE_PROVIDER" "Provider adapter cannot change.")
        ++ block_if
            (with_row
              (λ (r : GroupProviderRow).
                r.has_token && not (same_text (some r.base_url) (text_field "baseUrl" config)))
              row)
            (block address "CREDENTIAL_BINDING"
              "Changing the token destination requires UI reprovisioning."))

unfoldable pub login_blockers : Tables → List CurrentObject → String × Json → List Blocker
unfolding current_for find_login_provider text_field flag_field
login_blockers t owned (name, config) =
    let address = "loginProvider." +s name in
    let row =
      find_login_provider (bound_id (current_for address owned)) (text_field "id" config)
        t.login_providers in
    block_if
      (flag_field "enabled" config
        && not (with_row (λ (r : LoginProviderRow). r.has_client_secret) row))
      (block address "MISSING_CREDENTIAL" "Provision a client secret in the UI before enabling.")
    ++ (block_if
          (with_row
            (λ (r : LoginProviderRow). not (same_text (some r.issuer) (text_field "issuer" config)))
            row)
          (block address "IMMUTABLE_ISSUER" "An existing login provider's issuer cannot change.")
        ++ block_if
            (with_row
              (λ (r : LoginProviderRow).
                r.has_client_secret
                && (not (same_text (some r.client_id) (text_field "clientId" config))
                    || (not (same_text r.discovery_url (text_field "discoveryUrl" config))
                        || not (
                            same_text (some r.token_endpoint_auth_method)
                              (text_field "tokenEndpointAuthMethod" config)))))
              row)
            (block address "CREDENTIAL_BINDING"
              "Changing the client or discovery endpoint requires UI reprovisioning."))

unfoldable pub each : (String × Json → List Blocker) → List (String × Json) → List Blocker
each f [] = []
each f (e ∷ es) = f e ++ each f es

abbrev pub is_enabled_login : Subject → Bool
is_enabled_login o = same_kind o.kind login_provider && flag_field "enabled" o.state

unfoldable pub find_login_object : String → List CurrentObject → Option CurrentObject
find_login_object id [] = none
find_login_object id (o ∷ os) =
    if same_kind o.kind login_provider && o.id == id then some o else find_login_object id os

abbrev or_workspace : Option String → String
or_workspace none = "workspace"
or_workspace (some a) = a

unfoldable pub last_login_blockers : List CurrentObject → List LoginProviderRow → List Blocker
unfolding find_login_object
last_login_blockers owned [] = []
last_login_blockers owned (p ∷ ps) =
    let rest = last_login_blockers owned ps in
    if p.enabled
    then elim (find_login_object p.id owned) [
      | none ↦ rest
      | some target ↦
          record {
            code = "LAST_LOGIN_PROVIDER";
            address = target.address;
            message =
                "IaC cannot disable or delete the last enabled login provider. Use the explicit UI/recovery workflow.";
            owner_workspace_id = none;
          }
          ∷ rest
    ]
    else rest

-- Nothing is raised where an enabled login provider stays, or where none was enabled.
unfoldable pub lockout_blockers :
    List CurrentObject → List Subject → List LoginProviderRow → List Blocker
unfolding last_login_blockers flag_field
lockout_blockers owned final providers =
    if any is_enabled_login final then [] else last_login_blockers owned providers

unfoldable pub assignment_blockers : List Subject → List Subject → List Blocker
unfolding text_field
assignment_blockers final [] = []
assignment_blockers final (o ∷ os) =
    block_if
      (same_kind o.kind group_assignment
        && not (any (has_identity group_provider (text_field "provider" o.state)) final))
      (block (or_workspace o.address) "EXTERNAL_REFERENCE" (
        "Group assignment still references provider "
        +s elim (text_field "provider" o.state) [ none ↦ "undefined" | some p ↦ p ]
        +s "."))
    ++ assignment_blockers final os

abbrev pub keeps_connector : List DesiredObject → CurrentObject → Bool
keeps_connector desired o =
    any (λ d. same_text (some d.address) o.address && (d.identity == o.identity)) desired

unfoldable pub find_shared_object : String → List CurrentObject → Option CurrentObject
find_shared_object id [] = none
find_shared_object id (o ∷ os) =
    if same_kind o.kind shared_connection && o.id == id then some o else find_shared_object id os

-- Whether a connection is foreign or unmanaged, or one that the manifest keeps.
abbrev pub holds_connector : List DesiredObject → List CurrentObject → ConnectionRow → Bool
holds_connector desired owned row = elim (find_shared_object row.id owned) [
  | none ↦ true
  | some binding ↦ any (λ d. same_text (some d.address) binding.address) desired
]

unfoldable pub dependent_blockers :
    List DesiredObject → List CurrentObject → CurrentObject → List ConnectionRow → List Blocker
unfolding find_shared_object
dependent_blockers desired owned o [] = []
dependent_blockers desired owned o (row ∷ rows) =
    block_if (row.connector_id == o.id && holds_connector desired owned row) (
      block (or_workspace o.address) "EXTERNAL_REFERENCE"
        "Remove dependent connections explicitly; IaC cannot cascade into unmanaged or foreign connections.")
    ++ dependent_blockers desired owned o rows

unfoldable pub cascade_blockers :
    List DesiredObject → List CurrentObject → Tables → List CurrentObject → List Blocker
unfolding dependent_blockers
cascade_blockers desired owned t [] = []
cascade_blockers desired owned t (o ∷ os) =
    let rest = cascade_blockers desired owned t os in
    if same_kind o.kind connector && (not o.tombstone && not (keeps_connector desired o))
    then dependent_blockers desired owned o t.connections
      ++ (block_if (includes t.authorizations o.id) (
            block (or_workspace o.address) "EXTERNAL_REFERENCE"
              "Remove pending authorization attempts in the UI before deleting this connector.")
          ++ rest)
    else rest

unfoldable pub secret_primitive_blockers :
    Schemas → Manifest → List DesiredObject → Tables → List CurrentObject → List Blocker
unfolding owned_objects setup_blockers section_blockers shared_blockers group_blockers
    login_blockers each lockout_blockers assignment_blockers cascade_blockers retained
secret_primitive_blockers c manifest desired t objects =
    let owned = owned_objects manifest.workspace_id objects in
    let final = map of_current (retained manifest.workspace_id objects) ++ map of_desired desired in
    setup_blockers manifest t.login_installation
    ++ (section_blockers shared_connection "sharedConnections" manifest.shared_connections owned
        ++ (section_blockers group_provider "groupProviders" manifest.group_providers owned
            ++ (section_blockers login_provider "loginProviders" manifest.login_providers owned
                ++ (each (shared_blockers c t owned final)
                      (entries_or_none manifest.shared_connections)
                    ++ (each (group_blockers t owned) (entries_or_none manifest.group_providers)
                        ++ (each (login_blockers t owned) (entries_or_none manifest.login_providers)
                            ++ (lockout_blockers owned final t.login_providers
                                ++ (assignment_blockers final final
                                    ++ cascade_blockers desired owned t owned))))))))
