-- ===== src/Iac/Planner.antt =====
-- createPlan of apps/weldall/src/server/iac/planner.ts: a manifest against the current state.
pub mod Ownership
pub mod Convergence
pub mod Collisions
pub mod Whole
use Prim.Native.String
use weldall.Prelude.{
  ℕ, String, Bool, true, false, not, ◌&&◌, ◌||◌, Option, none, some, List, [], ◌∷◌, ◌++◌, map,
  Ordering, if◌then◌else◌, any, ◌==◌, lookup, insert, sort, Result, ok, err, ◌>>=◌,
}
use weldall.Iac.Json.{
  Json, obj, arr, num, str, bool, Fields, done, field, Items, nil, cons, ◌+s◌, get_field,
  text_field, flag_field, entries_of, stringify,
}
use weldall.Iac.Contracts.{
  Host, Kind, resource, machine, cli, login_provider, kind_text, action_text, same_kind, ActionType,
  create, update, replace, delete, recreate, register_key, revoke_key, noop, is_noop, is_delete,
  Action, Blocker, CurrentObject, CliSettings, PlanningState, DesiredObject, CliConfig, Manifest,
  Plan, PlanError, canonical, digest, public_key_thumbprint, or_null,
}
use weldall.Iac.Desired.{desired_objects}
use weldall.Iac.Order.{of_desired, of_current, compare_actions, order_mcp_actions}
use weldall.Iac.Graph.{mcp_graph_blockers, owned_by}
use weldall.Iac.Document.{plan_json}
use weldall.Iac.Sweep.{
  first_text, cli_actions, managed_objects, by_address_descending, deletions, confirm_authority,
}
use weldall.Iac.Decision.{Step, observe, action_for, or_collision, plan_bound, same_text}

abbrev pub natural_key : Kind → String → String
natural_key kind identity = kind_text kind +s ":" +s identity

-- `new Map(…)`: the last object of an address wins.
unfoldable pub index_addresses :
    String → List (String × CurrentObject) → List CurrentObject → List (String × CurrentObject)
index_addresses workspace index [] = index
index_addresses workspace index (o ∷ os) =
    index_addresses workspace
      (elim o.address [
        | none ↦ index
        | some a ↦
            if owned_by workspace o.owner_workspace_id && not (a == "")
            then insert a o index
            else index
      ])
      os

unfoldable pub index_naturals :
    List (String × CurrentObject) → List CurrentObject → List (String × CurrentObject)
index_naturals index [] = index
index_naturals index (o ∷ os) = index_naturals (insert (natural_key o.kind o.identity) o index) os

-- The steps of all desired objects, in their order.
unfoldable pub plan_object :
    Host
    → String
    → List CurrentObject
    → List (String × CurrentObject)
    → List (String × CurrentObject)
    → DesiredObject
    → Step
unfolding plan_bound or_collision action_for
plan_object h workspace current by_address by_natural object =
    elim (lookup object.address by_address) [
      | some bound ↦ plan_bound h workspace current object bound
      | none ↦
          or_collision workspace object
            (lookup (natural_key object.kind object.identity) by_natural)
            (action_for object create none)
    ]

unfoldable pub plan_objects : (DesiredObject → Step) → List DesiredObject → Step
plan_objects decide [] = ([], [])
plan_objects decide (o ∷ os) =
    let (actions, blockers) = decide o in
    let (more_actions, more_blockers) = plan_objects decide os in
    (actions ++ more_actions, blockers ++ more_blockers)

abbrev pub blocker_text : Blocker → String
blocker_text b = first_text b.address none +s ":" +s b.code

abbrev pub by_blocker : Host → Blocker → Blocker → Ordering
by_blocker h left right = h.locale_compare (blocker_text left) (blocker_text right)

-- The actions before they are put in order.
unfoldable pub draft_actions :
    Host
    → Manifest
    → PlanningState
    → List DesiredObject
    → List (String × CurrentObject)
    → List Action
    → List Action
unfolding cli_actions deletions managed_objects confirm_authority
draft_actions h manifest current desired by_address object_actions =
    map (confirm_authority desired by_address) (
      object_actions
      ++ (cli_actions manifest.cli current.cli_settings
          ++ deletions desired (
              sort (by_address_descending h)
                (managed_objects manifest.workspace_id current.objects))))

abbrev pub draft_plan : Host → Manifest → PlanningState → List Action → List Blocker → Plan
draft_plan h manifest current ordered blockers = record {
  version = 1;
  workspace_id = manifest.workspace_id;
  revision = current.revision;
  config_digest = digest h manifest.document;
  actions = ordered;
  blockers = sort (by_blocker h) blockers;
  digest = "";
}

-- The digest covers the plan without it.
abbrev pub seal : Host → Plan → Plan
seal h plan = record plan { digest = digest h (plan_json plan) }

unfoldable pub create_plan : Host → Manifest → PlanningState → Result PlanError Plan
unfolding desired_objects index_addresses index_naturals plan_object plan_objects draft_actions
    mcp_graph_blockers order_mcp_actions compare_actions digest plan_json
create_plan h manifest current =
    let workspace = manifest.workspace_id in
    let desired = desired_objects h manifest in
    let by_address = index_addresses workspace [] current.objects in
    let by_natural = index_naturals [] current.objects in
    let (object_actions, blockers) =
      plan_objects (plan_object h workspace current.objects by_address by_natural) desired in
    let drafted = draft_actions h manifest current desired by_address object_actions in
    do
      graph_blockers ← mcp_graph_blockers h workspace desired current.objects
      ordered ←
          order_mcp_actions h (sort (compare_actions h) drafted) (map of_desired desired)
            (map of_current current.objects)
      ok (
          seal h (
            draft_plan h manifest current ordered
              (current.external_blockers ++ (blockers ++ graph_blockers))))
