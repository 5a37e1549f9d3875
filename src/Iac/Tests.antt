-- ===== src/Iac/Tests.antt =====
-- Plans of small manifests, and the planner's theorems at them.
use Prim.Native.String
use weldall.Prelude.{
  ◌≡◌, refl, inl, inr, String, true, false, Option, none, some, List, [], ◌∷◌, map, sort,
  insert_sorted, All, Any, lookup, Result, ok, err,
}
use weldall.Iac.Json.{
  num, canonical_json, Json, null, obj, arr, str, bool, done, field, Items, nil, cons, get_field,
  text_field, texts_field, flag_field,
}
use weldall.Iac.Contracts.{
  Host, Dependency, exact, on_connector_type, type_error, skill, connector, create, Action,
  CurrentObject, DesiredObject, PlanningState, Manifest, Plan, PlanError,
}
use weldall.Iac.Desired.{desired_objects, unsorted_objects, objects_of, identity_of}
use weldall.Iac.Order.{
  Placed, Subject, of_desired, of_current, order_mcp_actions, compare_actions, all_edges, numbered,
  action_edges, find_subject, edges_by_kind, dependencies_of, dependency_edges, edges_to_type,
  scope_edges, edge, find_parent, drain, take_ready, is_waiting,
}
use weldall.Iac.Order.Drain.{Drained}
use mathlib.Core.List.{Perm}
use weldall.Iac.Order.Total.{order_mcp_actions-Drained}
use weldall.Iac.Graph.{
  mcp_graph_blockers, blockers_of, object_blockers, skill_blockers, breaks, resolves, answers,
  provider_mcp, retained,
}
use weldall.Iac.Graph.Resolution.{Answers, mcp_graph_blockers-ok_nil}
use weldall.Iac.Decision.{keys_without, has_key, collision_blocker, or_collision, action_for}
use weldall.Iac.Sweep.{
  managed_objects, cli_actions, deletions, confirm_authority, needs_confirmation,
}
use weldall.Iac.Planner.{
  create_plan, draft_actions, index_addresses, index_naturals, plan_object, plan_objects,
}
use weldall.Iac.Planner.Ownership.{draft_actions-IsAllowed, IsAllowed}
use weldall.Iac.Planner.Convergence.{IsNoop, draft_actions_in_force}
use weldall.Iac.Planner.Collisions.{IsDecided, plan_object-IsDecided, plan_object-blocks}

-- Dependencies written as a list of connector keys.
unfoldable exacts : Items → Option (List Dependency)
exacts nil = some []
exacts (cons (str key) rest) = elim (exacts rest) [
  | none ↦ none
  | some deps ↦ some (exact key ∷ deps)
]
exacts (cons _ rest) = none

abbrev parse_exacts : Json → Option (List Dependency)
parse_exacts (arr items) = exacts items
parse_exacts _ = none

abbrev test_host : Host
test_host = record {
  locale_compare = String.compare;
  sha256_hex = λ s. s;
  sha256_base64url = λ s. s;
  parse_dependencies = parse_exacts;
}

abbrev jira_state : Json
jira_state = obj (
    field "key" (str "jira")
      (field "type" (str "atlassian-mcp") (field "enabled" (bool true) done)))

abbrev notes_state : Json
notes_state =
    obj (field "slug" (str "notes") (field "mcpDependencies" (arr (cons (str "jira") nil)) done))

abbrev one_manifest : Manifest
one_manifest = record {
  workspace_id = "w";
  workspace_name = "main";
  workspace_issuer = "https://weldall.example";
  cli = none;
  shared_connections = some [];
  group_providers = some [];
  login_providers = some [];
  connectors = ("jira", jira_state) ∷ [];
  scopes = [];
  resources = [];
  machines = [];
  skills = ("notes", notes_state) ∷ [];
  email_assignments = [];
  group_assignments = [];
  document = null;
}

abbrev nothing_there : PlanningState
nothing_there = record { revision = 4; objects = []; cli_settings = none; external_blockers = [] }

abbrev jira : DesiredObject
jira = record {
  address = "connector.jira";
  kind = connector;
  identity = "jira";
  state = jira_state;
}

abbrev notes : DesiredObject
notes = record { address = "skill.notes"; kind = skill; identity = "notes"; state = notes_state }

abbrev create_of : DesiredObject → Action
create_of o = record {
  address = o.address;
  kind = o.kind;
  action = create;
  identity = o.identity;
  observed_version = none;
  drift = false;
  irreversible = false;
  key_id = none;
  key_thumbprint = none;
  requires_authority_confirmation = false;
}

abbrev two_actions : List Action
two_actions = create_of notes ∷ create_of jira ∷ []

abbrev two_subjects : List Subject
two_subjects = of_desired jira ∷ of_desired notes ∷ []

-- The skill stands before its connector, and has to wait for it.
two_edges :
    all_edges test_host (numbered 0 two_actions) two_subjects [] (numbered 0 two_actions)
    ≡ ok ((0, 1) ∷ [])
unfolding all_edges numbered action_edges find_subject edges_by_kind dependencies_of
    dependency_edges edges_to_type scope_edges edge find_parent get_field text_field texts_field
    exacts lookup
two_edges = refl

order_mcp_actions-Drained_example :
    (out : List Placed) × (order_mcp_actions test_host two_actions two_subjects []
      ≡ ok (map (λ (p : Placed). p.1) out))
    × Perm (map (λ (p : Placed). p.1) out) two_actions
    × Drained ((0, 1) ∷ []) (numbered 0 two_actions) out
order_mcp_actions-Drained_example =
    order_mcp_actions-Drained test_host two_actions two_subjects [] ((0, 1) ∷ []) two_edges

connector_first :
    order_mcp_actions test_host two_actions two_subjects []
    ≡ ok (create_of jira ∷ create_of notes ∷ [])
unfolding order_mcp_actions drain take_ready is_waiting all_edges numbered action_edges find_subject
    edges_by_kind dependencies_of dependency_edges edges_to_type scope_edges edge find_parent
    get_field text_field texts_field exacts lookup
connector_first = refl

two_desired : desired_objects test_host one_manifest ≡ jira ∷ notes ∷ []
unfolding desired_objects unsorted_objects objects_of identity_of text_field get_field sort
    insert_sorted lookup
two_desired = refl

no_graph_blockers : mcp_graph_blockers test_host "w" (jira ∷ notes ∷ []) [] ≡ ok []
unfolding mcp_graph_blockers blockers_of object_blockers skill_blockers breaks resolves answers
    provider_mcp retained dependencies_of text_field flag_field get_field exacts lookup
no_graph_blockers = refl

mcp_graph_blockers-ok_nil_example :
    All (λ dep. Any (Answers dep) (of_desired jira ∷ of_desired notes ∷ [])) (exact "jira" ∷ [])
unfolding retained dependencies_of get_field exacts lookup
mcp_graph_blockers-ok_nil_example =
    mcp_graph_blockers-ok_nil test_host "w" (jira ∷ notes ∷ []) [] notes (exact "jira" ∷ [])
      no_graph_blockers (inr (inl refl)) refl refl

abbrev bound_jira : CurrentObject
bound_jira = record {
  address = some "connector.jira";
  kind = connector;
  id = "17";
  identity = "jira";
  version = 3;
  owner_workspace_id = some "w";
  state = jira_state;
  tombstone = false;
}

abbrev jira_there : PlanningState
jira_there = record nothing_there { objects = bound_jira ∷ [] }

draft_actions-IsAllowed_example : All (IsAllowed "w" (bound_jira ∷ [])) (
    draft_actions test_host one_manifest jira_there
      (jira ∷ notes ∷ [])
      (index_addresses "w" [] (bound_jira ∷ []))
      (plan_objects
        (plan_object test_host "w" (bound_jira ∷ []) (index_addresses "w" [] (bound_jira ∷ [])) [])
        (jira ∷ notes ∷ [])).0)
draft_actions-IsAllowed_example =
    draft_actions-IsAllowed test_host one_manifest jira_there (jira ∷ notes ∷ []) []

plan_object-IsDecided_example :
    IsDecided jira
      (plan_object test_host "w" (bound_jira ∷ []) (("connector.jira", bound_jira) ∷ []) [] jira)
plan_object-IsDecided_example =
    plan_object-IsDecided test_host "w" (bound_jira ∷ []) (("connector.jira", bound_jira) ∷ []) []
      jira

plan_object-blocks_example :
    (c : CurrentObject) × (plan_object test_host "v"
        (bound_jira ∷ [])
        []
        (index_naturals [] (bound_jira ∷ []))
        jira
      ≡ ([], collision_blocker jira c "v" ∷ []))
unfolding lookup
plan_object-blocks_example =
    plan_object-blocks test_host "v" (bound_jira ∷ []) [] jira refl (inl (refl, refl))

abbrev two_keys : List (String × Json)
two_keys = ("constructor", null) ∷ ("k1", null) ∷ []

only_k1 : keys_without [] two_keys ≡ ("k1", null) ∷ []
unfolding keys_without has_key
only_k1 = refl

draft_actions_in_force_example :
    All IsNoop (
      draft_actions test_host one_manifest jira_there
        (jira ∷ [])
        (("connector.jira", bound_jira) ∷ [])
        (plan_objects
          (plan_object test_host "w" (bound_jira ∷ []) (("connector.jira", bound_jira) ∷ []) [])
          (jira ∷ [])).0)
    × ((plan_objects
          (plan_object test_host "w" (bound_jira ∷ []) (("connector.jira", bound_jira) ∷ []) [])
          (jira ∷ [])).1
        ≡ [])
unfolding lookup managed_objects
draft_actions_in_force_example =
    draft_actions_in_force test_host one_manifest jira_there (jira ∷ [])
      (("connector.jira", bound_jira) ∷ []) [] ((bound_jira, refl, refl, refl, refl, refl), tt)
      (refl, tt) tt

abbrev planned_actions : Result PlanError Plan → List Action
planned_actions (err e) = []
planned_actions (ok plan) = plan.actions

-- A first plan makes the connector before the skill that depends on it.
plan_from_nothing :
    planned_actions (create_plan test_host one_manifest nothing_there)
    ≡ create_of jira ∷ create_of notes ∷ []
unfolding create_plan desired_objects unsorted_objects objects_of identity_of index_addresses
    index_naturals plan_object plan_objects or_collision action_for draft_actions cli_actions
    deletions managed_objects confirm_authority needs_confirmation mcp_graph_blockers blockers_of
    object_blockers skill_blockers breaks resolves answers provider_mcp retained order_mcp_actions
    drain take_ready is_waiting all_edges numbered action_edges find_subject edges_by_kind
    dependencies_of dependency_edges edges_to_type scope_edges edge find_parent compare_actions
    get_field text_field texts_field flag_field exacts lookup sort insert_sorted
plan_from_nothing = refl

abbrev typed_host : Host
typed_host = record test_host {
  parse_dependencies = λ j. some (on_connector_type "atlassian-mcp" ∷ []);
}

-- A connector that is bound and whose row is gone.
abbrev gone_connector : CurrentObject
gone_connector = record bound_jira {
  address = some "connector.old";
  id = "b9";
  identity = "old";
  state = null;
  tombstone = true;
}

-- No order is found, so no plan is made, while a connector is bound and gone and a skill depends on a
-- connector type.
gone_connector_type_error :
    order_mcp_actions typed_host two_actions two_subjects (of_current gone_connector ∷ [])
    ≡ err type_error
unfolding order_mcp_actions drain take_ready is_waiting all_edges numbered action_edges find_subject
    edges_by_kind dependencies_of dependency_edges edges_to_type scope_edges edge find_parent
    get_field text_field texts_field lookup
gone_connector_type_error = refl

-- Members are sorted by name at every depth, and numbers and control characters are written out.
canonical_sorted :
    canonical_json String.compare
      (obj (field "b" (num 120) (field "a" (arr (cons (str "\n\"") (cons null nil))) done)))
    ≡ "{\"a\":[\"\\n\\\"\",null],\"b\":120}"
unfolding canonical_json sort insert_sorted
canonical_sorted = refl
