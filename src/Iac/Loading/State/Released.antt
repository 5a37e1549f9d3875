-- ===== src/Iac/Loading/State/Released.antt =====
-- The composition of loading and planning: nothing that is still referred to is deleted.
use mathlib.Core.List.{Perm, Mem}
use mathlib.Core.List
use mathlib.Core.List.Perm
use weldall.Prelude.{
  ◌≡◌, refl, sym, subst, inl, inr, String, true, false, not, ◌&&◌, some, List, [], ◌∷◌, ◌++◌, map,
  arith, ◌==◌, eq_iff, Bool-cases, Option-cases, All, All-map_pred, Any, includes, IsDistinct, ok,
}
use weldall.Iac.Contracts.{
  Host, Action, Blocker, CurrentObject, DesiredObject, PlanningState, Plan, Manifest,
}
use weldall.Iac.Desired.{desired_objects}
use weldall.Iac.Graph.{owned_by, mcp_graph_blockers}
use weldall.Prelude.{bind-eq-ok}
use weldall.Iac.Order.{order_mcp_actions}
use weldall.Iac.Planner.{create_plan, index_naturals}
use weldall.Iac.Planner.Whole.{create_plan_lem, drafted, object_steps}
use weldall.Iac.Rows.{Tables}
use weldall.Iac.Loading.{Schemas}
use weldall.Iac.Loading.Objects.{load_objects}
use weldall.Iac.Loading.References.{
  Use, index_desired, leaving_address, deleting_addresses, find_target, is_deleted, all_uses,
  reference_blockers,
}
use weldall.Iac.Loading.References.Covered.{
  is_removal, addressed, IsCovered, draft_actions-IsCovered,
}
use weldall.Iac.Loading.References.Guarded.{Releases, append-nil, reference_blockers-nil}
use weldall.Iac.Loading.Connectors.{connector_blockers}
use weldall.Iac.Loading.Secrets.{secret_primitive_blockers}
use weldall.Iac.Loading.State.{scene_of, load_planning_state}

-- A plan that was made has the equations that describe it.
create_plan-perm :
    (h : Host) (manifest : Manifest) (state : PlanningState) (plan : Plan)
    → create_plan h manifest state ≡ ok plan
    → (graph_blockers : List Blocker) × Perm plan.actions (drafted h manifest state)
      × Perm plan.blockers
          (state.external_blockers ++ ((object_steps h manifest state).1 ++ graph_blockers))
unfolding create_plan order_mcp_actions
create_plan-perm h manifest state plan made =
    let (graph_blockers, g, rest) =
      bind-eq-ok
        (mcp_graph_blockers h manifest.workspace_id (desired_objects h manifest) state.objects) _
        plan made in
    let (ordered, o, _) = bind-eq-ok _ _ plan rest in
    let (edges, e, _) = bind-eq-ok _ _ ordered o in
    let (plan', made', _, _, _, actions, blockers) =
      create_plan_lem h manifest state graph_blockers edges g e in
    let same : plan' ≡ plan = cc in
    (
      graph_blockers,
      subst (λ (p : Plan). Perm p.actions (drafted h manifest state)) same actions,
      subst
          (λ (p : Plan).
            Perm p.blockers
              (state.external_blockers ++ ((object_steps h manifest state).1 ++ graph_blockers)))
          same blockers,
    )

All-Mem :
    (P : Action → Type 0) (prop : (a : Action) → IsProp (P a)) (xs : List Action) (a : Action)
    → All P xs
    → Mem a xs
    → P a
All-Mem P prop [] a h there = absurd (List.not-mem-nil there)
All-Mem P prop (x ∷ xs) a (p, h) there =
    (List.forall_mem-cons prop).1 (p, λ b m. All-Mem P prop xs b h m) a there

leaving_named :
    (workspace : String) (index : List (String × DesiredObject)) (o : CurrentObject) (b : String)
    → leaving_address workspace index o ≡ some b
    → (b == "") ≡ false
unfolding leaving_address
leaving_named workspace index o b h = elim (Option-cases o.address) [
  | inl e ↦ ground (arith, e)
  | inr (c, e) ↦ ground (arith, e)
]

includes_named :
    (workspace : String) (index : List (String × DesiredObject)) (objects : List CurrentObject)
    (a : String)
    → includes (deleting_addresses workspace index objects) a ≡ true
    → (a == "") ≡ false
unfolding deleting_addresses leaving_address
includes_named workspace index [] a h = cc
includes_named workspace index (o ∷ os) a h =
    elim (Option-cases (leaving_address workspace index o)) [
      | inl e ↦ includes_named workspace index os a (rw (e, deleting_addresses) at h)
      | inr (b, e) ↦ elim (Bool-cases (b == a)) [
        | inl this ↦ ground (arith, leaving_named workspace index o b e, this, eq_iff b a)
        | inr other ↦ includes_named workspace index os a (ground (arith, e, other, h))
      ]
    ]

-- The Boolean form of being covered, which survives a reordering.
abbrev IsCheckedAt : List String → Action → Type 0
IsCheckedAt addresses a = (is_removal a.action && not (includes addresses a.address)) ≡ false

removal-includes :
    (h : Host) (manifest : Manifest) (state : PlanningState) (a : Action) (plan : Plan)
    → IsDistinct (map addressed (desired_objects h manifest))
    → Perm plan.actions (drafted h manifest state)
    → Mem a plan.actions
    → is_removal a.action ≡ true
    → includes (scene_of manifest (desired_objects h manifest) state.objects).deleting a.address
      ≡ true
unfolding scene_of
removal-includes h manifest state a plan distinct perm there gone =
    let desired = desired_objects h manifest in
    let addresses =
      deleting_addresses manifest.workspace_id (index_desired [] desired) state.objects in
    let covered : All (IsCheckedAt addresses) (drafted h manifest state) =
      All-map_pred (IsCovered h manifest.workspace_id desired state.objects) (IsCheckedAt addresses)
        (drafted h manifest state)
        (λ x c. elim c [ inl kept ↦ ground arith | inr left ↦ ground arith ])
        (draft_actions-IsCovered h manifest state desired (index_naturals [] state.objects)
          distinct) in
    let here : IsCheckedAt addresses a =
      All-Mem (IsCheckedAt addresses) (λ x. hlevel) (drafted h manifest state) a covered
        ((Perm.mem_iff perm).0 there) in
    ground arith

external_blockers-nil :
    (h : Host) (c : Schemas) (manifest : Manifest) (t : Tables) (state : PlanningState)
    → load_planning_state h c manifest t ≡ ok state
    → state.external_blockers ≡ []
    → reference_blockers (scene_of manifest (desired_objects h manifest) state.objects) (all_uses t)
      ≡ []
unfolding load_planning_state
external_blockers-nil h c manifest t state loaded none_raised =
    let desired = desired_objects h manifest in
    let (objects, _, rest) = bind-eq-ok (load_objects c t) _ state loaded in
    let secrets = secret_primitive_blockers c manifest desired t objects in
    let connectors = connector_blockers c t.connectors manifest.connectors in
    let references = reference_blockers (scene_of manifest desired objects) (all_uses t) in
    let same : objects ≡ state.objects = ground (arith, rest) in
    let raised : secrets ++ (connectors ++ references) ≡ [] = ground (arith, rest, none_raised) in
    let references_nil : references ≡ [] =
      (append-nil connectors references
        (append-nil secrets (connectors ++ references) raised).1).1 in
    subst (λ os. reference_blockers (scene_of manifest desired os) (all_uses t) ≡ []) same
      references_nil

-- A plan without blockers, of a state as it was loaded, deletes or replaces an object that a row
-- refers to only where the referring object is bound in the workspace too, and is dropped by the
-- manifest or no longer names the object there, if no two desired objects share an address.
pub create_plan-Releases :
    (h : Host) (c : Schemas) (manifest : Manifest) (t : Tables) (state : PlanningState)
    (plan : Plan) (a : Action) (u : Use) (target : CurrentObject)
    → IsDistinct (map addressed (desired_objects h manifest))
    → load_planning_state h c manifest t ≡ ok state
    → create_plan h manifest state ≡ ok plan
    → plan.blockers ≡ []
    → Mem a plan.actions
    → is_removal a.action ≡ true
    → Any (λ x. x ≡ u) (all_uses t)
    → find_target u.target state.objects ≡ some target
    → owned_by manifest.workspace_id target.owner_workspace_id ≡ true
    → target.address ≡ some a.address
    → Releases (scene_of manifest (desired_objects h manifest) state.objects) u target
unfolding scene_of
create_plan-Releases h c manifest t state plan a u target distinct loaded made calm there gone used
      found owned at =
    let desired = desired_objects h manifest in
    let scene = scene_of manifest desired state.objects in
    let (graph_blockers, actions, blockers) = create_plan-perm h manifest state plan made in
    let steps = (object_steps h manifest state).1 ++ graph_blockers in
    let nothing : state.external_blockers ++ steps ≡ [] =
      sym (Perm.nil-eq (subst (λ bs. Perm bs (state.external_blockers ++ steps)) calm blockers)) in
    let quiet =
      external_blockers-nil h c manifest t state loaded
        (append-nil state.external_blockers steps nothing).0 in
    let listed = removal-includes h manifest state a plan distinct actions there gone in
    let named =
      includes_named manifest.workspace_id (index_desired [] desired) state.objects a.address
        listed in
    let deleted : is_deleted scene target ≡ true = rw (owned, at) (rw (named, listed) refl) in
    reference_blockers-nil scene (all_uses t) u target quiet used found deleted
