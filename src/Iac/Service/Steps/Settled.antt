-- ===== src/Iac/Service/Steps/Settled.antt =====
-- When a repeated request to apps/weldall/src/server/iac/service.ts finds its operation.
use weldall.Prelude.{◌≡◌, ap, String, true, false, ◌&&◌, some, any, lookup, ok, includes}
use weldall.Iac.Json.{Json}
use weldall.Iac.Contracts.{Manifest, scope, same_kind}
use weldall.Iac.Desired.{desired_objects}
use weldall.Iac.Service.{
  IacActor, WorkspaceRow, Database, Services, same_identity, assert_caller_authorized,
  parse_desired_state, begin_operation, is_authorized,
}
use weldall.Iac.Service.Inputs.{import_manifest}
use weldall.Iac.Service.Lifecycle.{unmanage_checks, system_scope_keys, is_declared}
use weldall.Iac.Service.Steps.{Request, imports, unmanages, moves}
use weldall.Iac.Service.Steps.Effects.{Ticket, Stands}
use weldall.Iac.Service.Steps.Operations.{move_ticket, unmanage_ticket, import_ticket}
use weldall.Iac.Service.Steps.Keeps.{Keeps, Stands-Keeps}

-- The workspace of a manifest is there, with the manifest's name and issuer.
abbrev pub Named : Manifest → String → Database → Type 0
Named manifest id db =
    (w : WorkspaceRow) × (lookup id db.workspaces ≡ some w) × (same_identity manifest w ≡ true)

-- Whatever a repeated request checks before it finds its operation.
abbrev pub Settled : Services → Request → IacActor → Json → Database → Type 0
Settled env (moves input) actor answer db =
    (assert_caller_authorized db actor ≡ ok tt) × Stands (move_ticket env input) answer db
Settled env (unmanages input) actor answer db =
    (assert_caller_authorized db actor ≡ ok tt)
    × Stands (unmanage_ticket env input) answer db
    × (manifest : Manifest) × (unmanage_checks env input ≡ ok manifest)
    × (any (is_declared input.address) (desired_objects env.host manifest) ≡ false)
    × Named manifest input.workspace_id db
Settled env (imports new_id input) actor answer db =
    (assert_caller_authorized db actor ≡ ok tt)
    × ((same_kind input.kind scope && includes system_scope_keys input.identity) ≡ false)
    × (manifest : Manifest) × (parse_desired_state env (import_manifest input) ≡ ok manifest)
    × Stands (import_ticket env manifest input) answer db
    × Named manifest manifest.workspace_id db

pub begin_operation-Stands :
    (t : Ticket) (answer : Json) (db : Database) (s : Stands t answer db)
    → begin_operation db s.workspace t.type t.id t.request_digest ≡ ok (some answer, db)
unfolding begin_operation
begin_operation-Stands t answer db s =
    rw (s.stored, begin_operation, s.recorded, s.succeeded) (ap (λ j. ok (some j, db)) s.result_is)

pub assert_caller_authorized-Keeps :
    (db after : Database) (actor : IacActor)
    → Keeps db after
    → assert_caller_authorized db actor ≡ ok tt
    → assert_caller_authorized after actor ≡ ok tt
unfolding assert_caller_authorized is_authorized
assert_caller_authorized-Keeps db after actor f h = rw (f.machines) (h)

pub Named-Keeps :
    (manifest : Manifest) (id : String) (db after : Database)
    → Keeps db after
    → Named manifest id db
    → Named manifest id after
Named-Keeps manifest id db after f (w, found, same) =
    let (v, there, (i, n, s)) = f.known id w found in (v, there, cc (same, n, s))

-- A settled request stays settled.
pub Settled-Keeps :
    (env : Services) (request : Request) (actor : IacActor) (answer : Json) (db after : Database)
    → Keeps db after
    → Settled env request actor answer db
    → Settled env request actor answer after
Settled-Keeps env (moves input) actor answer db after f (authorized, stands) = (
  assert_caller_authorized-Keeps db after actor f authorized,
  Stands-Keeps _ answer db after stands f,
)
Settled-Keeps env (unmanages input) actor answer db after f
      (authorized, stands, manifest, checked, undeclared, named) =
    (
      assert_caller_authorized-Keeps db after actor f authorized,
      Stands-Keeps _ answer db after stands f,
      manifest,
      checked,
      undeclared,
      Named-Keeps manifest _ db after f named,
    )
Settled-Keeps env (imports new_id input) actor answer db after f
      (authorized, other, manifest, parsed, stands, named) =
    (
      assert_caller_authorized-Keeps db after actor f authorized,
      other,
      manifest,
      parsed,
      Stands-Keeps _ answer db after stands f,
      Named-Keeps manifest _ db after f named,
    )
