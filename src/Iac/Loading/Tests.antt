-- ===== src/Iac/Loading/Tests.antt =====
-- Loading and planning a small workspace, and the theorems of loading there.
use Prim.Native.String
use mathlib.Core.List
use mathlib.Core.List.{Mem}
use weldall.Prelude.{
  ◌≡◌, refl, ◌⊎◌, inl, String, true, false, none, some, List, [], ◌∷◌, map, any, All, lookup,
  insert, sort, insert_sorted, Result, ok, err,
}
use weldall.Iac.Json.{Json, null, obj, str, nil, field, done, text_field}
use weldall.Iac.Contracts.{
  Host, Blocker, PlanError, scope, group_provider, group_assignment, same_kind, Action, delete,
  CurrentObject, DesiredObject, PlanningState, Manifest, Plan,
}
use weldall.Iac.Desired.{desired_objects}
use weldall.Iac.Planner.{create_plan, draft_actions, plan_object, plan_objects, index_addresses}
use weldall.Iac.Rows.{BindingRow, ConnectorRow, LoginProviderRow, Tables}
use weldall.Iac.Loading.{Schemas}
use weldall.Iac.Loading.References.{Use, scope_id, find_target, all_uses}
use weldall.Iac.Loading.References.Covered.{IsCovered, draft_actions-IsCovered}
use weldall.Iac.Loading.References.Guarded.{Releases}
use weldall.Iac.Loading.Connectors.{connector_blockers, find_connector}
use weldall.Iac.Loading.Connectors.Immutable.{IsAdmissible, connector_blockers-IsAdmissible}
use weldall.Iac.Loading.Secrets.{
  secret_primitive_blockers, is_enabled_login, find_login_object, owned_objects, has_identity,
}
use weldall.Iac.Loading.Secrets.Lockout.{
  final_subjects, secret_primitive_blockers-no_lockout, secret_primitive_blockers-assigned,
}
use weldall.Iac.Loading.State.{scene_of, load_planning_state}
use weldall.Iac.Loading.State.Released.{create_plan-Releases}

abbrev host : Host
host = record {
  locale_compare = String.compare;
  sha256_hex = λ s. s;
  sha256_base64url = λ s. s;
  parse_dependencies = λ j. some [];
}

abbrev schemas : Schemas
schemas = record {
  parse_state = λ kind j. some j;
  dependencies = λ j. some nil;
  parse_configuration = λ type j. some j;
  configuration_identity = λ type j. "client";
  has_registration = λ type. true;
  is_deep_strict_equal = λ a b. true;
}

abbrev binding : BindingRow
binding = record {
  id = "b1";
  workspace_id = "w";
  address = "scope.old";
  kind = "SCOPE";
  natural_identity = "crm:read";
  scope_id = some "s1";
  resource_id = none;
  machine_client_id = none;
  email_assignment_id = none;
  group_assignment_id = none;
  skill_id = none;
  connector_id = none;
  shared_connection_id = none;
  group_provider_id = none;
  login_provider_id = none;
}

abbrev tables : Tables
tables = record {
  revision = some 7;
  bindings =
      binding
      ∷ record binding {
        id = "b2";
        address = "resource.crm";
        scope_id = none;
        resource_id = some "r1";
      }
      ∷ [];
  scopes = record { id = "s1"; key = "crm:read"; description = "Read"; version = 2 } ∷ [];
  resources =
      record {
        id = "r1";
        key = "crm";
        name = "CRM";
        resource_identifier = "https://crm";
        authorization_server = "https://crm";
        downstream_client_id = "crm";
        enabled = true;
        skill_discovery_enabled = false;
        request_prefixes = [];
        scopes = record { target_id = "s1"; key = "crm:read" } ∷ [];
        version = 5;
      }
      ∷ [];
  machines = [];
  emails = [];
  groups = [];
  skills = [];
  cli_settings = none;
  connectors = [];
  shared_connections = [];
  group_providers = [];
  login_providers = [];
  use_scopes = [];
  connections = [];
  authorizations = [];
  user_emails = [];
  login_installation = some "COMPLETED";
}

abbrev nothing_wanted : Manifest
nothing_wanted = record {
  workspace_id = "w";
  workspace_name = "main";
  workspace_issuer = "https://weldall.example";
  cli = none;
  shared_connections = some [];
  group_providers = some [];
  login_providers = some [];
  connectors = [];
  scopes = [];
  resources = [];
  machines = [];
  skills = [];
  email_assignments = [];
  group_assignments = [];
  document = null;
}

abbrev state_or_empty : Result PlanError PlanningState → PlanningState
state_or_empty (ok s) = s
state_or_empty (err e) = record {
  revision = 0;
  objects = [];
  cli_settings = none;
  external_blockers = [];
}

abbrev loaded : PlanningState
loaded = state_or_empty (load_planning_state host schemas nothing_wanted tables)

abbrev plan_or_empty : Result PlanError Plan → Plan
plan_or_empty (ok p) = p
plan_or_empty (err e) = record {
  version = 0;
  workspace_id = "";
  revision = 0;
  config_digest = "";
  actions = [];
  blockers = [];
  digest = "";
}

abbrev plan : Plan
plan = plan_or_empty (create_plan host nothing_wanted loaded)

-- A foreign machine that uses the scope stands in the way of its deletion.
abbrev with_foreign : Tables
with_foreign = record tables {
  machines =
      record {
        id = "m1";
        client_id = "robot";
        name = "Robot";
        enabled = true;
        is_deactivated = false;
        keys = [];
        allowed_resources = [];
        allowed_scopes = record { target_id = "s1"; key = "crm:read" } ∷ [];
        version = 1;
      }
      ∷ [];
}

abbrev messages : List Blocker → List String
messages bs = map (λ (b : Blocker). b.message) bs

foreign_use :
    messages
      (state_or_empty
        (load_planning_state host schemas nothing_wanted with_foreign)).external_blockers
    ≡ "Scope crm:read is referenced by machine robot" ∷ []
unfolding load_planning_state lookup insert sort insert_sorted
foreign_use = refl

own_use : (loaded.external_blockers ≡ []) × (loaded.revision ≡ 7) × (plan.blockers ≡ [])
unfolding load_planning_state create_plan lookup insert sort insert_sorted
own_use = (refl, refl, refl)

abbrev delete_scope : Action
delete_scope = record {
  address = "scope.old";
  kind = scope;
  action = delete;
  identity = "crm:read";
  observed_version = some 2;
  drift = false;
  irreversible = false;
  key_id = none;
  key_thumbprint = none;
  requires_authority_confirmation = false;
}

abbrev resource_use : Use
resource_use = record {
  target = scope_id "s1";
  source_id = "r1";
  field = "scopes";
  prefix = "Scope ";
  suffix = " is referenced by resource crm";
}

abbrev old_scope : CurrentObject
old_scope = record {
  address = some "scope.old";
  kind = scope;
  id = "s1";
  identity = "crm:read";
  version = 2;
  owner_workspace_id = some "w";
  state = obj (field "key" (str "crm:read") (field "description" (str "Read") done));
  tombstone = false;
}

create_plan-Releases_example :
    Releases
      (scene_of nothing_wanted (desired_objects host nothing_wanted) loaded.objects)
      resource_use
      old_scope
unfolding load_planning_state create_plan desired_objects all_uses find_target lookup insert sort
    insert_sorted
create_plan-Releases_example =
    create_plan-Releases host schemas nothing_wanted tables loaded plan delete_scope resource_use
      old_scope tt refl refl refl (List.mem-cons_of_mem _ List.mem-cons_self) refl (inl refl) refl
      refl refl

draft_actions-IsCovered_example : All (IsCovered host "w" [] loaded.objects) (
    draft_actions host nothing_wanted loaded []
      (index_addresses "w" [] loaded.objects)
      (plan_objects
        (plan_object host "w" loaded.objects (index_addresses "w" [] loaded.objects) [])
        []).0)
draft_actions-IsCovered_example = draft_actions-IsCovered host nothing_wanted loaded [] [] tt

abbrev google : LoginProviderRow
google = record {
  id = "google";
  name = "Google";
  button_label = "";
  button_color = "";
  sort_order = 0;
  issuer = "https://accounts.google.com";
  discovery_url = none;
  client_id = "c";
  has_client_secret = true;
  token_endpoint_auth_method = "client_secret_basic";
  scopes = [];
  allowed_email_domains = [];
  enabled = true;
  version = 1;
}

abbrev with_login : Tables
with_login = record tables { login_providers = google ∷ [] }

secret_primitive_blockers-no_lockout_example :
    (any is_enabled_login (final_subjects nothing_wanted [] []) ≡ true)
    ⊎ (find_login_object "google" (owned_objects "w" []) ≡ none)
unfolding secret_primitive_blockers
secret_primitive_blockers-no_lockout_example =
    secret_primitive_blockers-no_lockout schemas nothing_wanted [] with_login [] google refl
      (inl refl) refl

abbrev team : DesiredObject
team = record {
  address = "groupAssignment.team";
  kind = group_assignment;
  identity = "ldap:team";
  state = obj (field "provider" (str "ldap") done);
}

abbrev ldap : DesiredObject
ldap = record {
  address = "groupProvider.ldap";
  kind = group_provider;
  identity = "ldap";
  state = null;
}

secret_primitive_blockers-assigned_example :
    All
      (λ o.
        (same_kind o.kind group_assignment ≡ false)
        ⊎ (any
              (has_identity group_provider (text_field "provider" o.state))
              (final_subjects nothing_wanted (team ∷ ldap ∷ []) [])
            ≡ true))
      (final_subjects nothing_wanted (team ∷ ldap ∷ []) [])
unfolding secret_primitive_blockers lookup
secret_primitive_blockers-assigned_example =
    secret_primitive_blockers-assigned schemas nothing_wanted (team ∷ ldap ∷ []) tables [] refl

abbrev jira_config : Json
jira_config = obj (
    field "key" (str "jira")
      (field "type" (str "atlassian-mcp") (field "envelopeProvider" (str "LOCAL_ENV") done)))

abbrev jira_row : ConnectorRow
jira_row = record {
  id = "c1";
  key = "jira";
  name = "Jira";
  provider_type = "atlassian-mcp";
  enabled = true;
  provider_config = null;
  envelope_provider = "LOCAL_ENV";
  has_secrets = false;
  required_scopes = [];
  connections = 3;
  attempts = 0;
  version = 1;
}

connector_blockers-IsAdmissible_example : IsAdmissible schemas jira_config (some jira_row)
unfolding connector_blockers find_connector lookup
connector_blockers-IsAdmissible_example =
    connector_blockers-IsAdmissible schemas (jira_row ∷ []) (("jira", jira_config) ∷ []) "jira"
      jira_config refl (inl refl)
