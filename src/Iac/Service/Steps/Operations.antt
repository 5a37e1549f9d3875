-- ===== src/Iac/Service/Steps/Operations.antt =====
-- The effect of importIac, unmanageIac and moveIacState of apps/weldall/src/server/iac/service.ts.
use weldall.Prelude.{
  ok-inj, ◌≡◌, subst, ◌⊎◌, inl, inr, refl, sym, ap, ◌∙◌, String, Bool, true, false, not, none, some,
  any, lookup, ok, bind-eq-ok, Option-cases, Bool-cases,
}
use weldall.Iac.Json.{Json}
use weldall.Iac.Contracts.{Manifest, digest}
use weldall.Iac.Desired.{desired_objects}
use weldall.Iac.Service.{
  Failure, IacActor, WorkspaceRow, import_op, unmanage_op, move_op, Database, Services, ensure,
  assert_caller_authorized, parse_desired_state, ensure_workspace, begin_operation, new_workspace,
  put_workspace, same_identity,
}
use weldall.Iac.Service.Inputs.{
  ImportInput, UnmanageInput, MoveInput, import_json, unmanage_json, move_json, import_manifest,
}
use weldall.Iac.Service.Lifecycle.{
  import_object, unmanage_object, move_object, import_transaction, unmanage_transaction,
  move_transaction, find_workspace, is_declared,
}
use weldall.Iac.Service.Steps.Commits.{Finish}
use weldall.Iac.Service.Steps.Finishes.{
  move_object-Finish, unmanage_object-Finish, import_object-Finish,
}
use weldall.Iac.Service.Steps.Effects.{Ticket, Effect, settle, lookup-insert_same}

abbrev pub move_ticket : Services → MoveInput → Ticket
move_ticket env input = record {
  id = input.operation_id;
  workspace_id = input.workspace_id;
  type = move_op;
  request_digest = digest env.host (move_json input);
}

abbrev pub unmanage_ticket : Services → UnmanageInput → Ticket
unmanage_ticket env input = record {
  id = input.operation_id;
  workspace_id = input.workspace_id;
  type = unmanage_op;
  request_digest = digest env.host (unmanage_json input);
}

abbrev pub import_ticket : Services → Manifest → ImportInput → Ticket
import_ticket env manifest input = record {
  id = input.operation_id;
  workspace_id = manifest.workspace_id;
  type = import_op;
  request_digest = digest env.host (import_json input);
}

find_workspace-eq-ok :
    (id : String) (db : Database) (w : WorkspaceRow)
    → find_workspace id db ≡ ok w
    → lookup id db.workspaces ≡ some w
find_workspace-eq-ok id db w h = elim (Option-cases (lookup id db.workspaces)) [
  | inl gone ↦ cc (rw (gone, find_workspace) at h)
  | inr (there, found) ↦ found ∙ ap some (ok-inj there w _ refl (rw (found, find_workspace) at h))
]

pub ensure-eq-ok : (b : Bool) (f : Failure) (u : Unit) → ensure b f ≡ ok u → b ≡ true
ensure-eq-ok true f u h = refl
ensure-eq-ok false f u h = cc

-- How ensure_workspace comes to the workspace of a manifest.
abbrev pub Opens : Manifest → WorkspaceRow → Database → Database → Type 0
Opens manifest w db opened =
    ((lookup manifest.workspace_id db.workspaces ≡ some w)
      × (same_identity manifest w ≡ true)
      × (opened ≡ db))
    ⊎ ((lookup manifest.workspace_id db.workspaces ≡ none)
        × ((actor_id : String) × (w ≡ new_workspace manifest actor_id))
        × (opened ≡ put_workspace manifest.workspace_id w db))

ensure_workspace-eq-ok :
    (db : Database) (manifest : Manifest) (actor_id : String) (w : WorkspaceRow) (opened : Database)
    → ensure_workspace db manifest actor_id ≡ ok (w, opened)
    → Opens manifest w db opened
unfolding ensure_workspace
ensure_workspace-eq-ok db manifest actor_id w opened h =
    elim (Option-cases (lookup manifest.workspace_id db.workspaces)) [
      | inl gone ↦
          let e = ok-inj (w, opened) _ _ h (rw (gone, ensure_workspace) (refl)) in
          let same : w ≡ new_workspace manifest actor_id =
            ap (λ (p : WorkspaceRow × Database). p.0) e in
          inr (
            gone,
            (actor_id, same),
            ap (λ (p : WorkspaceRow × Database). p.1) e
                ∙ ap (λ v. put_workspace manifest.workspace_id v db) (sym same),
          )
      | inr (there, found) ↦ elim (Bool-cases (same_identity manifest there)) [
        | inr other ↦ cc (rw (found, ensure_workspace, other) at h)
        | inl same ↦
            let e = ok-inj (w, opened) _ _ h (rw (found, ensure_workspace, same) (refl)) in
            let is_there : w ≡ there = ap (λ (p : WorkspaceRow × Database). p.0) e in
            inl (
              found ∙ ap some (sym is_there),
              ap (same_identity manifest) is_there ∙ same,
              ap (λ (p : WorkspaceRow × Database). p.1) e,
            )
      ]
    ]

Opens-found :
    (manifest : Manifest) (w : WorkspaceRow) (db opened : Database)
    → Opens manifest w db opened
    → lookup manifest.workspace_id opened.workspaces ≡ some w
Opens-found manifest w db opened (inl (found, same, e)) =
    ap (λ (d : Database). lookup manifest.workspace_id d.workspaces) e ∙ found
Opens-found manifest w db opened (inr (gone, is_new, e)) =
    ap (λ (d : Database). lookup manifest.workspace_id d.workspaces) e
    ∙ lookup-insert_same manifest.workspace_id w db.workspaces

Opens-id :
    (manifest : Manifest) (w : WorkspaceRow) (db opened : Database)
    → ((k : String) (v : WorkspaceRow) → lookup k db.workspaces ≡ some v → v.id ≡ k)
    → Opens manifest w db opened
    → w.id ≡ manifest.workspace_id
Opens-id manifest w db opened keyed (inl (found, same, e)) = keyed _ w found
Opens-id manifest w db opened keyed (inr (gone, (actor_id, is_new), e)) =
    ap (λ (v : WorkspaceRow). v.id) is_new

not-true : (b : Bool) → not b ≡ true → b ≡ false
not-true true h = cc
not-true false h = refl

module _ (env : Services) (actor : IacActor) (db : Database) (result : Json)
    (after : Database) where
  pub move_transaction-Effect :
      (input : MoveInput)
      → move_transaction env input actor db ≡ ok (result, after)
      → (assert_caller_authorized db actor ≡ ok tt) × Effect (move_ticket env input) result db after
  unfolding move_transaction
  move_transaction-Effect input h =
      let (_, authorized, h1) =
        bind-eq-ok (assert_caller_authorized db actor) _ (result, after) h in
      let (w, e, h2) = bind-eq-ok (find_workspace input.workspace_id db) _ (result, after) h1 in
      let (begun, begins, h3) =
        bind-eq-ok
          (begin_operation db w move_op input.operation_id (digest env.host (move_json input))) _
          (result, after) h2 in
      (
        authorized,
        settle (move_ticket env input) result db after (move_object input actor w) w begun
            (find_workspace-eq-ok input.workspace_id db w e) begins
            (λ before. move_object-Finish input actor w result before after) h3,
      )

  pub unmanage_transaction-Effect :
      (manifest : Manifest) (input : UnmanageInput)
      → unmanage_transaction env manifest input actor db ≡ ok (result, after)
      → (assert_caller_authorized db actor ≡ ok tt)
        × ((w : WorkspaceRow) × (lookup input.workspace_id db.workspaces ≡ some w)
            × (same_identity manifest w ≡ true))
        × (any (is_declared input.address) (desired_objects env.host manifest) ≡ false)
        × Effect (unmanage_ticket env input) result db after
  unfolding unmanage_transaction
  unmanage_transaction-Effect manifest input h =
      let (_, authorized, h1) =
        bind-eq-ok (assert_caller_authorized db actor) _ (result, after) h in
      let (w, e, h2) = bind-eq-ok (find_workspace input.workspace_id db) _ (result, after) h1 in
      let (_, same, h3) = bind-eq-ok (ensure (same_identity manifest w) _) _ (result, after) h2 in
      let (_, undeclared, h4) =
        bind-eq-ok
          (ensure (not (any (is_declared input.address) (desired_objects env.host manifest))) _) _
          (result, after) h3 in
      let (begun, begins, h5) =
        bind-eq-ok
          (begin_operation db w unmanage_op input.operation_id
            (digest env.host (unmanage_json input)))
          _ (result, after) h4 in
      let found = find_workspace-eq-ok input.workspace_id db w e in
      (
        authorized,
        (w, found, ensure-eq-ok _ _ _ same),
        not-true (any (is_declared input.address) (desired_objects env.host manifest))
            (ensure-eq-ok _ _ _ undeclared),
        settle (unmanage_ticket env input) result db after (unmanage_object input actor w) w begun
            found begins (λ before. unmanage_object-Finish input actor w result before after) h5,
      )

  pub import_transaction-Effect :
      (new_id : String) (input : ImportInput)
      → ((k : String) (w : WorkspaceRow) → lookup k db.workspaces ≡ some w → w.id ≡ k)
      → import_transaction env new_id input actor db ≡ ok (result, after)
      → (assert_caller_authorized db actor ≡ ok tt)
        × (manifest : Manifest) × (parse_desired_state env (import_manifest input) ≡ ok manifest)
        × (w : WorkspaceRow) × (opened : Database) × Opens manifest w db opened
        × Effect (import_ticket env manifest input) result opened after
  unfolding import_transaction
  import_transaction-Effect new_id input keyed h =
      let (_, authorized, h1) =
        bind-eq-ok (assert_caller_authorized db actor) _ (result, after) h in
      let (manifest, parsed, h2) =
        bind-eq-ok (parse_desired_state env (import_manifest input)) _ (result, after) h1 in
      let (entered, e, h3) =
        bind-eq-ok (ensure_workspace db manifest actor.client_id) _ (result, after) h2 in
      let (begun, begins, h4) =
        bind-eq-ok
          (begin_operation entered.1 entered.0 import_op input.operation_id
            (digest env.host (import_json input)))
          _ (result, after) h3 in
      let opens = ensure_workspace-eq-ok db manifest actor.client_id entered.0 entered.1 e in
      let named = Opens-id manifest entered.0 db entered.1 keyed opens in
      (
        authorized,
        manifest,
        parsed,
        entered.0,
        entered.1,
        opens,
        settle (import_ticket env manifest input) result entered.1 after
            (import_object env new_id input actor entered.0) entered.0 begun
            (Opens-found manifest entered.0 db entered.1 opens) begins
            (λ before k.
              subst (λ wid. Finish input.operation_id wid result before after) named
                (import_object-Finish env new_id input actor entered.0 result before after k))
            h4,
      )
