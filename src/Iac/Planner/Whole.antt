-- ===== src/Iac/Planner/Whole.antt =====
-- The plan as a whole: it holds the drafted actions and the collected blockers, in order.
use mathlib.Core.List.{Perm}
use mathlib.Core.List.Perm
use weldall.Prelude.{◌≡◌, refl, map, List, [], ◌++◌, ok, sort, sort-perm}
use weldall.Iac.Decision.{Step}
use weldall.Iac.Contracts.{Host, Action, Blocker, PlanningState, Manifest, Plan, digest}
use weldall.Iac.Document.{plan_json}
use weldall.Iac.Desired.{desired_objects}
use weldall.Iac.Graph.{mcp_graph_blockers}
use weldall.Iac.Order.{Edge, Placed, numbered, all_edges, compare_actions, of_desired, of_current}
use weldall.Iac.Order.Total.{order_mcp_actions-Drained}
use weldall.Iac.Planner.{
  index_addresses, index_naturals, plan_object, plan_objects, draft_actions, draft_plan, seal,
  by_blocker, create_plan,
}

module _ (h : Host) (manifest : Manifest) (current : PlanningState) where
  abbrev pub object_steps : Step
  object_steps =
      plan_objects
        (plan_object h manifest.workspace_id current.objects
          (index_addresses manifest.workspace_id [] current.objects)
          (index_naturals [] current.objects))
        (desired_objects h manifest)

  abbrev pub drafted : List Action
  drafted =
      draft_actions h manifest current (desired_objects h manifest)
        (index_addresses manifest.workspace_id [] current.objects) object_steps.0

  -- Where the graph blockers and the edges can be computed, a plan is made: for the manifest's
  -- workspace and the state's revision, with the drafted actions and with the blockers of the state,
  -- of the objects and of the dependency graph, each once. Its digest is that of its document.
  pub create_plan_lem :
      (graph_blockers : List Blocker) (edges : List Edge)
      → mcp_graph_blockers h manifest.workspace_id (desired_objects h manifest) current.objects
        ≡ ok graph_blockers
      → all_edges h
          (numbered 0 (sort (compare_actions h) drafted))
          (map of_desired (desired_objects h manifest))
          (map of_current current.objects)
          (numbered 0 (sort (compare_actions h) drafted))
        ≡ ok edges
      → (plan : Plan) × (create_plan h manifest current ≡ ok plan)
        × (plan.workspace_id ≡ manifest.workspace_id)
        × (plan.revision ≡ current.revision)
        × (plan.digest ≡ digest h (plan_json plan))
        × Perm plan.actions drafted
        × Perm plan.blockers (current.external_blockers ++ (object_steps.1 ++ graph_blockers))
  unfolding create_plan plan_json
  create_plan_lem graph_blockers edges g e =
      let (out, ordered, perm, _) =
        order_mcp_actions-Drained h (sort (compare_actions h) drafted)
          (map of_desired (desired_objects h manifest)) (map of_current current.objects) edges e in
      let blockers = current.external_blockers ++ (object_steps.1 ++ graph_blockers) in
      (
        seal h (draft_plan h manifest current (map (λ (p : Placed). p.1) out) blockers),
        rw g (rw ordered refl),
        refl,
        refl,
        refl,
        Perm.trans perm (sort-perm (compare_actions h) drafted),
        sort-perm (by_blocker h) blockers,
      )
