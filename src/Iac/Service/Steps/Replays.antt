-- ===== src/Iac/Service/Steps/Replays.antt =====
-- Requests to apps/weldall/src/server/iac/service.ts that are sent again.
use weldall.Prelude.{
  result-cases, some-inj, ◌≡◌, inl, inr, refl, sym, ap, ◌∙◌, String, ◌&&◌, List, [], ◌∷◌, lookup,
  Result, ok, eq_iff, Bool-cases, includes,
}
use weldall.Iac.Json.{Json}
use weldall.Iac.Contracts.{Manifest, scope, same_kind}
use weldall.Iac.Service.{
  Failure, IacActor, WorkspaceRow, Database, Services, same_identity, ensure_workspace, transact,
}
use weldall.Iac.Service.Inputs.{ImportInput, UnmanageInput, MoveInput}
use weldall.Iac.Service.Lifecycle.{
  import_transaction, unmanage_transaction, move_transaction, unmanage_checks, import_iac,
  unmanage_iac, system_scope_keys, find_workspace,
}
use weldall.Iac.Service.Steps.{Request, imports, unmanages, moves, handle, run}
use weldall.Iac.Service.Steps.Effects.{lookup-insert_same}
use weldall.Iac.Service.Steps.Operations.{
  Opens, move_ticket, unmanage_ticket, import_ticket, move_transaction-Effect,
  unmanage_transaction-Effect, import_transaction-Effect,
}
use weldall.Iac.Service.Steps.History.{IsKeyed, IsSound, handle-IsSound}
use weldall.Iac.Service.Steps.Keeps.{
  Keeps-trans, Opens-Keeps, Effect-Stands, Effect-Keeps, handle-Keeps,
}
use weldall.Iac.Service.Steps.Settled.{
  Named, Settled, begin_operation-Stands, assert_caller_authorized-Keeps, Named-Keeps,
  Settled-Keeps,
}

transact-ok :
    (body : Database → Result Failure (Json × Database)) (db : Database) (answer : Json)
    (after : Database)
    → body db ≡ ok (answer, after)
    → transact body db ≡ (ok answer, after)
unfolding transact
transact-ok body db answer after h = rw (h, transact) (refl)

move_transaction-Settled :
    (env : Services) (input : MoveInput) (actor : IacActor) (answer : Json) (db : Database)
    → Settled env (moves input) actor answer db
    → move_transaction env input actor db ≡ ok (answer, db)
unfolding move_transaction
move_transaction-Settled env input actor answer db (authorized, stands) =
    let begun = begin_operation-Stands (move_ticket env input) answer db stands in
    rw (authorized, move_transaction, stands.found, find_workspace, begun) (refl)

unmanage_transaction-Settled :
    (env : Services) (input : UnmanageInput) (actor : IacActor) (answer : Json) (db : Database)
    (h : Settled env (unmanages input) actor answer db)
    → unmanage_transaction env h.2 input actor db ≡ ok (answer, db)
unfolding unmanage_transaction
unmanage_transaction-Settled env input actor answer db
      (authorized, stands, manifest, checked, undeclared, (w, found, same)) =
    let begun = begin_operation-Stands (unmanage_ticket env input) answer db stands in
    let is_w = some-inj w stands.workspace _ found stands.found in
    let same_there = ap (same_identity manifest) (sym is_w) ∙ same in
    rw
      (
        authorized, unmanage_transaction, stands.found, find_workspace, same_there, undeclared,
        begun,
      )
      (refl)

import_transaction-Settled :
    (env : Services) (new_id : String) (input : ImportInput) (actor : IacActor) (answer : Json)
    (db : Database)
    → Settled env (imports new_id input) actor answer db
    → import_transaction env new_id input actor db ≡ ok (answer, db)
unfolding import_transaction
import_transaction-Settled env new_id input actor answer db
      (authorized, other, manifest, parsed, stands, (w, found, same)) =
    let begun = begin_operation-Stands (import_ticket env manifest input) answer db stands in
    let is_w = some-inj w stands.workspace _ found stands.found in
    let same_there = ap (same_identity manifest) (sym is_w) ∙ same in
    rw (authorized, import_transaction, parsed, stands.found, ensure_workspace, same_there, begun)
      (refl)

-- A settled request changes nothing and gives its answer.
handle-Settled :
    (env : Services) (request : Request) (actor : IacActor) (answer : Json) (db : Database)
    → Settled env request actor answer db
    → handle env request actor db ≡ (ok answer, db)
unfolding handle
handle-Settled env (moves input) actor answer db h =
    transact-ok (move_transaction env input actor) db answer db
      (move_transaction-Settled env input actor answer db h)
handle-Settled env (unmanages input) actor answer db h =
    let found =
      transact-ok (unmanage_transaction env h.2 input actor) db answer db
        (unmanage_transaction-Settled env input actor answer db h) in
    rw (h.3, unmanage_iac) (found)
handle-Settled env (imports new_id input) actor answer db h =
    let found =
      transact-ok (import_transaction env new_id input actor) db answer db
        (import_transaction-Settled env new_id input actor answer db h) in
    rw (h.1, import_iac) (found)

transact-eq-ok :
    (body : Database → Result Failure (Json × Database)) (db : Database) (answer : Json)
    (after : Database)
    → transact body db ≡ (ok answer, after)
    → body db ≡ ok (answer, after)
unfolding transact
transact-eq-ok body db answer after h = elim (result-cases (body db)) [
  | inr (f, e) ↦ cc (rw (e, transact) at h)
  | inl (x, e) ↦ e ∙ cc (rw (e, transact) at h)
]

Opens-Named :
    (manifest : Manifest) (w : WorkspaceRow) (db opened : Database)
    → Opens manifest w db opened
    → Named manifest manifest.workspace_id opened
Opens-Named manifest w db opened (inl (found, same, e)) =
    (w, ap (λ (d : Database). lookup manifest.workspace_id d.workspaces) e ∙ found, same)
Opens-Named manifest w db opened (inr (gone, (actor_id, is_new), e)) = (
  w,
  ap (λ (d : Database). lookup manifest.workspace_id d.workspaces) e
      ∙ lookup-insert_same manifest.workspace_id w db.workspaces,
  ap (same_identity manifest) is_new
      ∙ cc (
        (eq_iff manifest.workspace_issuer manifest.workspace_issuer).1 refl,
        (eq_iff manifest.workspace_name manifest.workspace_name).1 refl,
      ),
)

-- A request that returns is settled.
handle-settles :
    (env : Services) (request : Request) (actor : IacActor) (db : Database) (answer : Json)
    (after : Database)
    → IsKeyed db
    → handle env request actor db ≡ (ok answer, after)
    → Settled env request actor answer after
unfolding handle
handle-settles env (moves input) actor db answer after keyed h =
    let e = transact-eq-ok (move_transaction env input actor) db answer after h in
    let (authorized, effect) = move_transaction-Effect env actor db answer after input e in
    let f = Effect-Keeps _ answer db after effect in
    (
      assert_caller_authorized-Keeps db after actor f authorized,
      Effect-Stands _ answer db after effect,
    )
handle-settles env (unmanages input) actor db answer after keyed h =
    elim (result-cases (unmanage_checks env input)) [
      | inr (f, e) ↦ cc (rw (e, unmanage_iac) at h)
      | inl (manifest, checked) ↦
          let e =
            transact-eq-ok (unmanage_transaction env manifest input actor) db answer after
              (rw (checked, unmanage_iac) at h) in
          let (authorized, named, undeclared, effect) =
            unmanage_transaction-Effect env actor db answer after manifest input e in
          let f = Effect-Keeps _ answer db after effect in
          (
            assert_caller_authorized-Keeps db after actor f authorized,
            Effect-Stands _ answer db after effect,
            manifest,
            checked,
            undeclared,
            Named-Keeps manifest _ db after f named,
          )
    ]
handle-settles env (imports new_id input) actor db answer after keyed h =
    elim (Bool-cases (same_kind input.kind scope && includes system_scope_keys input.identity)) [
      | inl system ↦ cc (rw (system, import_iac) at h)
      | inr other ↦
          let e =
            transact-eq-ok (import_transaction env new_id input actor) db answer after
              (rw (other, import_iac) at h) in
          let (authorized, manifest, parsed, w, opened, opens, effect) =
            import_transaction-Effect env actor db answer after new_id input keyed e in
          let f = Effect-Keeps _ answer opened after effect in
          (
            assert_caller_authorized-Keeps db after actor
                (Keeps-trans db opened after (Opens-Keeps manifest w db opened opens) f) authorized,
            other,
            manifest,
            parsed,
            Effect-Stands _ answer opened after effect,
            Named-Keeps manifest _ opened after f (Opens-Named manifest w db opened opens),
          )
    ]

run-Settled :
    (env : Services) (request : Request) (actor : IacActor) (answer : Json)
    (requests : List (Request × IacActor)) (db : Database)
    → IsSound db
    → Settled env request actor answer db
    → Settled env request actor answer (run env requests db)
unfolding run
run-Settled env request actor answer [] db sound h = h
run-Settled env request actor answer ((other, who) ∷ rest) db sound h =
    run-Settled env request actor answer rest (handle env other who db).1
      (handle-IsSound env other who db sound)
      (Settled-Keeps env request actor answer db _ (handle-Keeps env other who db sound.0) h)

-- A request that returned in a sound state gives the same answer when it is sent again, whatever requests
-- came in between, and the second time it changes nothing.
pub run-handle_again :
    (env : Services) (request : Request) (actor : IacActor) (db : Database) (answer : Json)
    (requests : List (Request × IacActor))
    → IsSound db
    → (handle env request actor db).0 ≡ ok answer
    → handle env request actor (run env requests (handle env request actor db).1)
      ≡ (ok answer, run env requests (handle env request actor db).1)
run-handle_again env request actor db answer requests sound h =
    let after = (handle env request actor db).1 in
    let whole : handle env request actor db ≡ (ok answer, after) = ap (λ r. (r, after)) h in
    handle-Settled env request actor answer (run env requests after) (
      run-Settled env request actor answer requests after
        (handle-IsSound env request actor db sound)
        (handle-settles env request actor db answer after sound.0 whole))
