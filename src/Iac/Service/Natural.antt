-- ===== src/Iac/Service/Natural.antt =====
-- findNatural of apps/weldall/src/server/iac/service.ts: the object that has a natural identity, the
-- workspace that owns it and the state that an import returns.
use Prim.Native.Char.{Char, code}
use Prim.Native.String
use weldall.Prelude.{
  String, Bool, false, ◌&&◌, ◌||◌, Option, none, some, List, [], ◌∷◌, if◌then◌else◌, ◌==◌, any,
  nat_eq, sort, Ordering, Result, ok, err, ◌>>=◌,
}
use weldall.Iac.Json.{Json, obj, str, bool, Items, field, done, char_text, ◌+s◌}
use weldall.Iac.Contracts.{
  Kind, scope, resource, machine, email_assignment, group_assignment, skill, cli, connector,
  shared_connection, group_provider, login_provider, Host, PlanError, invalid_dependencies,
}
use weldall.Iac.Rows.{
  BindingRow, ScopeRow, ResourceRow, KeyRow, MachineRow, EmailRow, GroupRow, SkillRow, ConnectorRow,
  SharedConnectionRow, GroupProviderRow, LoginProviderRow, Tables,
}
use weldall.Iac.Loading.{
  Schemas, target_ids, public_shared_connection, public_group_provider, public_login_provider,
  build_connector_state, scope_state, resource_state, active_keys, sorted_keys, email_state,
  group_state, with_dependencies, texts_json,
}
use weldall.Iac.Service.{Services, Failure, plan_error}

pub record Found : Type 0 where
  pub id : String
  pub owned : Option String
  pub state : Json

-- The first row that passes.
unfoldable pub find_row : {A : Type 0} → (A → Bool) → List A → Option A
find_row p [] = none
find_row p (x ∷ xs) = if p x then some x else find_row p xs

abbrev pub is_object : String → Option String → Bool
is_object id none = false
is_object id (some other) = other == id

abbrev pub refers_to : String → BindingRow → Bool
refers_to id binding = any (is_object id) (target_ids binding)

abbrev pub owner_of : Option BindingRow → Option String
owner_of none = none
owner_of (some binding) = some binding.workspace_id

-- The state throws where a schema refuses it.
abbrev to_failure : {A : Type 0} → Result PlanError A → Result Failure A
to_failure (ok a) = ok a
to_failure (err e) = err (plan_error e)

abbrev pub found_row : Tables → String → Result PlanError Json → Result Failure (Option Found)
found_row t id state = to_failure state >>= λ j.
    ok (some (record { id = id; owned = owner_of (find_row (refers_to id) t.bindings); state = j }))

-- `identity.indexOf(":")` and the parts around it. Without a colon the index is -1, which `slice` takes
-- from the end: the provider is all but the last character, and the group is the whole.
abbrev is_colon : Char → Bool
is_colon c = nat_eq (code c) 58

unfoldable has_colon : String → Bool
has_colon String.[] = false
has_colon (String.◌∷◌ c s) = is_colon c || has_colon s

unfoldable before_colon : String → String
before_colon String.[] = ""
before_colon (String.◌∷◌ c s) =
    let rest = before_colon s in if is_colon c then "" else char_text c +s rest

unfoldable after_colon : String → String
after_colon String.[] = ""
after_colon (String.◌∷◌ c s) = let rest = after_colon s in if is_colon c then s else rest

unfoldable without_last : String → String
without_last String.[] = ""
without_last (String.◌∷◌ c String.[]) = ""
without_last (String.◌∷◌ c (String.◌∷◌ d s)) = char_text c +s without_last (String.◌∷◌ d s)

unfoldable pub provider_part : String → String
unfolding has_colon before_colon without_last
provider_part identity = if has_colon identity then before_colon identity else without_last identity

unfoldable pub group_part : String → String
unfolding has_colon after_colon
group_part identity = if has_colon identity then after_colon identity else identity

abbrev by_kid : Host → KeyRow → KeyRow → Ordering
by_kid h left right = h.locale_compare left.kid right.kid

-- The state of a machine that is imported has its keys sorted by their names.
abbrev natural_machine_state : Host → MachineRow → Json
natural_machine_state h row = obj (
    field "clientId" (str row.client_id) (
      field "name" (str row.name) (
        field "enabled" (bool row.enabled) (
          field "publicKeys" (obj (active_keys (sort (by_kid h) row.keys))) (
            field "resources" (sorted_keys row.allowed_resources)
              (field "scopes" (sorted_keys row.allowed_scopes) done))))))

abbrev or_no_dependencies : Option Items → Result PlanError Items
or_no_dependencies none = err invalid_dependencies
or_no_dependencies (some ds) = ok ds

-- That of a skill leaves out what a plan compares besides.
abbrev natural_skill_state : Schemas → SkillRow → Result PlanError Json
natural_skill_state c row = or_no_dependencies (c.dependencies row.mcp_dependencies) >>= λ ds. ok (
    obj (
      field "slug" (str row.slug) (
        field "title" (str row.title) (
          field "content" (str row.content) (
            field "requiredScopes" (texts_json (sort String.compare row.required_scopes))
              (with_dependencies ds (field "visibility" (str row.visibility) done)))))))

abbrev is_group : String → String → GroupRow → Bool
is_group provider group row = row.provider_key == provider && row.group_id == group

abbrev find_group : Tables → String → String → Result Failure (Option Found)
find_group t provider group =
    if provider == "" || group == ""
    then ok none
    else elim (find_row (λ (p : GroupProviderRow). p.key == provider) t.group_providers) [
      | none ↦ ok none
      | some p ↦ elim (find_row (is_group provider group) t.groups) [
        | none ↦ ok none
        | some row ↦ found_row t row.id (ok (group_state row))
      ]
    ]

unfoldable pub find_natural : Services → Tables → Kind → String → Result Failure (Option Found)
unfolding find_row provider_part group_part public_shared_connection public_group_provider
    public_login_provider build_connector_state
find_natural env t shared_connection identity =
    elim (find_row (λ (r : SharedConnectionRow). r.key == identity) t.shared_connections) [
      | none ↦ ok none
      | some row ↦ found_row t row.id (public_shared_connection env.schemas row)
    ]
find_natural env t group_provider identity =
    elim (find_row (λ (r : GroupProviderRow). r.key == identity) t.group_providers) [
      | none ↦ ok none
      | some row ↦ found_row t row.id (public_group_provider env.schemas row)
    ]
find_natural env t login_provider identity =
    elim (find_row (λ (r : LoginProviderRow). r.id == identity) t.login_providers) [
      | none ↦ ok none
      | some row ↦ found_row t row.id (public_login_provider env.schemas row)
    ]
find_natural env t connector identity =
    elim (find_row (λ (r : ConnectorRow). r.key == identity) t.connectors) [
      | none ↦ ok none
      | some row ↦ found_row t row.id (build_connector_state env.schemas row)
    ]
find_natural env t scope identity = elim (find_row (λ (r : ScopeRow). r.key == identity) t.scopes) [
  | none ↦ ok none
  | some row ↦ found_row t row.id (ok (scope_state row))
]
find_natural env t resource identity =
    elim (find_row (λ (r : ResourceRow). r.key == identity) t.resources) [
      | none ↦ ok none
      | some row ↦ found_row t row.id (ok (resource_state row))
    ]
find_natural env t machine identity =
    elim (find_row (λ (r : MachineRow). r.client_id == identity) t.machines) [
      | none ↦ ok none
      | some row ↦ found_row t row.id (ok (natural_machine_state env.host row))
    ]
find_natural env t email_assignment identity =
    elim (find_row (λ (r : EmailRow). r.normalized_email == identity) t.emails) [
      | none ↦ ok none
      | some row ↦ found_row t row.id (ok (email_state row))
    ]
find_natural env t group_assignment identity =
    find_group t (provider_part identity) (group_part identity)
find_natural env t skill identity =
    elim (find_row (λ (r : SkillRow). r.slug == identity) t.skills) [
      | none ↦ ok none
      | some row ↦ found_row t row.id (natural_skill_state env.schemas row)
    ]
find_natural env t cli identity = ok none

abbrev no_targets : String → String → String → String → String → BindingRow
no_targets id workspace address kind identity = record {
  id = id;
  workspace_id = workspace;
  address = address;
  kind = kind;
  natural_identity = identity;
  scope_id = none;
  resource_id = none;
  machine_client_id = none;
  email_assignment_id = none;
  group_assignment_id = none;
  skill_id = none;
  connector_id = none;
  shared_connection_id = none;
  group_provider_id = none;
  login_provider_id = none;
}

-- toDbKind; the command line's settings have no kind of their own there.
unfoldable pub to_db_kind : Kind → String
to_db_kind scope = "SCOPE"
to_db_kind resource = "RESOURCE"
to_db_kind machine = "MACHINE"
to_db_kind email_assignment = "EMAIL_ASSIGNMENT"
to_db_kind group_assignment = "GROUP_ASSIGNMENT"
to_db_kind skill = "SKILL"
to_db_kind cli = ""
to_db_kind connector = "CONNECTOR"
to_db_kind shared_connection = "SHARED_CONNECTION"
to_db_kind group_provider = "GROUP_PROVIDER"
to_db_kind login_provider = "LOGIN_PROVIDER"

-- bindingTarget, as a change of a binding.
unfoldable pub binding_target : Kind → String → BindingRow → BindingRow
binding_target scope id b = record b { scope_id = some id }
binding_target resource id b = record b { resource_id = some id }
binding_target machine id b = record b { machine_client_id = some id }
binding_target email_assignment id b = record b { email_assignment_id = some id }
binding_target group_assignment id b = record b { group_assignment_id = some id }
binding_target skill id b = record b { skill_id = some id }
binding_target cli id b = b
binding_target connector id b = record b { connector_id = some id }
binding_target shared_connection id b = record b { shared_connection_id = some id }
binding_target group_provider id b = record b { group_provider_id = some id }
binding_target login_provider id b = record b { login_provider_id = some id }

unfoldable pub new_binding : String → String → String → Kind → String → String → BindingRow
unfolding to_db_kind binding_target
new_binding id workspace address kind identity object_id =
    binding_target kind object_id (no_targets id workspace address (to_db_kind kind) identity)
