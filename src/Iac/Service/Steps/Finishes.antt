-- ===== src/Iac/Service/Steps/Finishes.antt =====
-- How importIac, unmanageIac and moveIacState of apps/weldall/src/server/iac/service.ts end when the
-- request is a new one.
use weldall.Prelude.{
  ◌≡◌, subst, inl, inr, String, Option, none, some, List, ok, bind-eq-ok, Bool-cases, ◌==◌,
}
use weldall.Iac.Json.{Json}
use weldall.Iac.Rows.{BindingRow}
use weldall.Iac.Loading.{is_set}
use weldall.Iac.Service.{IacActor, WorkspaceRow, Database, Services, ensure}
use weldall.Iac.Service.Inputs.{ImportInput, UnmanageInput, MoveInput}
use weldall.Iac.Service.Natural.{Found, find_natural, new_binding}
use weldall.Iac.Service.Bindings.{find_binding, create_binding, set_bindings}
use weldall.Iac.Service.Bindings.Created.{create_binding-eq-ok}
use weldall.Iac.Service.Lifecycle.{
  bind_object, import_object, import_found, unmanage_object, move_object, the_binding, is_vacant,
  kind_prefix,
}
use weldall.Iac.Service.Steps.Commits.{Finish, ending-eq-ok}

Finish-set_bindings :
    (id wid : String) (result : Json) (bindings : List BindingRow) (db after : Database)
    → Finish id wid result (set_bindings bindings db) after
    → Finish id wid result db after
Finish-set_bindings id wid result bindings db after f = record {
  workspace = f.workspace;
  row = f.row;
  actor_id = f.actor_id;
  found = f.found;
  stored = f.stored;
  workspaces = f.workspaces;
  operations = f.operations;
  machines = f.machines;
}

pub move_object-Finish :
    (input : MoveInput) (actor : IacActor) (w : WorkspaceRow) (result : Json) (db after : Database)
    → move_object input actor w db ≡ ok (result, after)
    → Finish input.operation_id input.workspace_id result db after
unfolding move_object
move_object-Finish input actor w result db after h =
    let (binding, _, h1) =
      bind-eq-ok (the_binding input.workspace_id input.source db) _ (result, after) h in
    let (_, _, h2) =
      bind-eq-ok
        (ensure (is_vacant (find_binding input.workspace_id input.target db.tables.bindings)) _) _
        (result, after) h1 in
    let (_, _, h3) =
      bind-eq-ok (ensure (kind_prefix input.source == kind_prefix input.target) _) _ (result, after)
        h2 in
    Finish-set_bindings _ _ result _ db after (
      ending-eq-ok input.operation_id input.workspace_id actor _ _ _ _ (λ u. u.0) _ result after h3)

pub unmanage_object-Finish :
    (input : UnmanageInput) (actor : IacActor) (w : WorkspaceRow) (result : Json)
    (db after : Database)
    → unmanage_object input actor w db ≡ ok (result, after)
    → Finish input.operation_id input.workspace_id result db after
unfolding unmanage_object
unmanage_object-Finish input actor w result db after h =
    let (binding, _, h1) =
      bind-eq-ok (the_binding input.workspace_id input.address db) _ (result, after) h in
    Finish-set_bindings _ _ result _ db after (
      ending-eq-ok input.operation_id input.workspace_id actor _ _ _ _ (λ u. u.0) _ result after h1)

module _ (env : Services) (new_id : String) (input : ImportInput) (actor : IacActor)
    (w : WorkspaceRow) (result : Json) (db after : Database) where
  bind_object-Finish :
      (it : Found)
      → bind_object env new_id input actor w db it ≡ ok (result, after)
      → Finish input.operation_id w.id result db after
  unfolding bind_object
  bind_object-Finish it h =
      let new = new_binding new_id w.id input.address input.kind input.identity it.id in
      let (bound, e, h1) = bind-eq-ok (create_binding db new) _ (result, after) h in
      let f = ending-eq-ok input.operation_id w.id actor _ _ _ _ (λ u. w) bound result after h1 in
      Finish-set_bindings _ _ result _ db after (
        subst (λ d. Finish input.operation_id w.id result d after)
          (create_binding-eq-ok db new bound e) f)

  import_found-Finish :
      (object : Option Found)
      → import_found env new_id input actor w db object ≡ ok (result, after)
      → Finish input.operation_id w.id result db after
  unfolding import_found
  import_found-Finish none h = cc
  import_found-Finish (some it) h = elim (Bool-cases (is_set it.owned)) [
    | inl owned ↦ cc (rw owned at h)
    | inr unowned ↦ bind_object-Finish it (rw unowned at h)
  ]

  pub import_object-Finish :
      import_object env new_id input actor w db ≡ ok (result, after)
      → Finish input.operation_id w.id result db after
  unfolding import_object
  import_object-Finish h =
      let (object, _, h1) =
        bind-eq-ok (find_natural env db.tables input.kind input.identity) _ (result, after) h in
      import_found-Finish object h1
