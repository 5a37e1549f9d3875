-- ===== src/Iac/Service/Lifecycle.antt =====
-- importIac, unmanageIac and moveIacState of apps/weldall/src/server/iac/service.ts. The advisory lock
-- that each takes first makes the transactions follow one another, so each is one step of the database.
use Prim.Native.Char.{code}
use weldall.Prelude.{
  String, Bool, true, false, not, ◌&&◌, Option, none, some, List, [], ◌∷◌, if◌then◌else◌, ◌==◌, any,
  includes, nat_eq, lookup, Result, ok, err, ◌>>=◌,
}
use weldall.Iac.Json.{Json, obj, str, num, field, done, char_text, ◌+s◌}
use weldall.Iac.Contracts.{scope, same_kind, Manifest, DesiredObject, digest}
use weldall.Iac.Desired.{desired_objects}
use weldall.Iac.Rows.{BindingRow}
use weldall.Iac.Loading.{is_set}
use weldall.Iac.Service.{
  Failure, iac_error, IacActor, WorkspaceRow, import_op, unmanage_op, move_op, Database, Services,
  fail, ensure, parse_desired_state, assert_caller_authorized, same_identity, workspace_mismatch,
  ensure_workspace, begin_operation, complete_operation, increment_revision, write_audit, transact,
}
use weldall.Iac.Service.Inputs.{
  ImportInput, UnmanageInput, MoveInput, import_json, unmanage_json, move_json, import_manifest,
}
use weldall.Iac.Service.Natural.{Found, find_natural, new_binding}
use weldall.Iac.Service.Bindings.{find_binding, create_binding, delete_row, readdress, set_bindings}

abbrev pub system_scope_keys : List String
system_scope_keys =
    "weldall:mcp" ∷ "weldall:administer" ∷ "weldall:login" ∷ "weldall:iac"
    ∷ "weldall:subject-scopes-check" ∷ "weldall:statistics" ∷ []

-- `new_id` is the identifier that the database makes for the binding.
unfoldable pub bind_object :
    Services
    → String
    → ImportInput
    → IacActor
    → WorkspaceRow
    → Database
    → Found
    → Result Failure (Json × Database)
unfolding new_binding create_binding increment_revision complete_operation write_audit
bind_object env new_id input actor workspace db it = do
  bound ←
      create_binding db
        (new_binding new_id workspace.id input.address input.kind input.identity it.id)
  updated ← increment_revision bound workspace.id actor.client_id
  let result = obj (
      field "workspaceId" (str workspace.id) (
        field "address" (str input.address) (
          field "objectId" (str it.id)
            (field "state" it.state (field "revision" (num updated.0.revision) done)))))
  completed ← complete_operation updated.1 input.operation_id updated.0.revision result
  ok (
    result,
    write_audit completed actor "iac.object.imported" workspace workspace.revision
        updated.0.revision (input.address ∷ []),
  )

abbrev pub or_empty : Option String → String
or_empty none = ""
or_empty (some s) = s

unfoldable pub import_found :
    Services
    → String
    → ImportInput
    → IacActor
    → WorkspaceRow
    → Database
    → Option Found
    → Result Failure (Json × Database)
unfolding bind_object
import_found env new_id input actor workspace db none = fail "NOT_FOUND" "Primitive not found" 404
import_found env new_id input actor workspace db (some it) =
    if is_set it.owned
    then err (
        iac_error "OWNED" "Primitive is already owned" 409
          (field "ownerWorkspaceId" (str (or_empty it.owned)) done))
    else bind_object env new_id input actor workspace db it

-- What an import does when it is not a repeated request.
unfoldable pub import_object :
    Services
    → String
    → ImportInput
    → IacActor
    → WorkspaceRow
    → Database
    → Result Failure (Json × Database)
unfolding find_natural import_found
import_object env new_id input actor workspace db =
    find_natural env db.tables input.kind input.identity >>= λ (object : Option Found).
    import_found env new_id input actor workspace db object

-- The first result of a repeated request, or what the request does.
abbrev pub unless_replayed :
    (Database → Result Failure (Json × Database))
    → Option Json × Database
    → Result Failure (Json × Database)
unless_replayed body (none, db) = body db
unless_replayed body (some result, db) = ok (result, db)

unfoldable pub import_transaction :
    Services → String → ImportInput → IacActor → Database → Result Failure (Json × Database)
unfolding assert_caller_authorized ensure_workspace begin_operation import_object
import_transaction env new_id input actor db = do
  authorized ← assert_caller_authorized db actor
  manifest ← parse_desired_state env (import_manifest input)
  entered ← ensure_workspace db manifest actor.client_id
  begun ←
      begin_operation entered.1 entered.0 import_op input.operation_id
        (digest env.host (import_json input))
  unless_replayed (import_object env new_id input actor entered.0) begun

unfoldable pub import_iac :
    Services → String → ImportInput → IacActor → Database → Result Failure Json × Database
unfolding import_transaction transact
import_iac env new_id input actor db =
    if same_kind input.kind scope && includes system_scope_keys input.identity
    then (fail "SYSTEM_SCOPE" "System scopes cannot be imported" 400, db)
    else transact (import_transaction env new_id input actor) db

-- `split(".", 1)[0]`.
unfoldable pub kind_prefix : String → String
kind_prefix String.[] = ""
kind_prefix (String.◌∷◌ c s) =
    let rest = kind_prefix s in if nat_eq (code c) 46 then "" else char_text c +s rest

abbrev pub find_workspace : String → Database → Result Failure WorkspaceRow
find_workspace id db = elim (lookup id db.workspaces) [
  | none ↦ fail "NOT_FOUND" "Workspace not found" 404
  | some w ↦ ok w
]

abbrev pub the_binding : String → String → Database → Result Failure BindingRow
the_binding workspace address db = elim (find_binding workspace address db.tables.bindings) [
  | none ↦ fail "NOT_FOUND" "Binding not found" 404
  | some b ↦ ok b
]

unfoldable pub unmanage_object :
    UnmanageInput → IacActor → WorkspaceRow → Database → Result Failure (Json × Database)
unfolding find_binding delete_row increment_revision complete_operation write_audit
unmanage_object input actor before db = do
  binding ← the_binding input.workspace_id input.address db
  updated ←
      increment_revision (set_bindings (delete_row binding.id db.tables.bindings) db)
        input.workspace_id actor.client_id
  let result = obj (
      field "workspaceId" (str updated.0.id)
        (field "address" (str input.address) (field "revision" (num updated.0.revision) done)))
  completed ← complete_operation updated.1 input.operation_id updated.0.revision result
  ok (
    result,
    write_audit completed actor "iac.object.unmanaged" updated.0 before.revision updated.0.revision
        (input.address ∷ []),
  )

abbrev pub is_declared : String → DesiredObject → Bool
is_declared address object = object.address == address

unfoldable pub unmanage_transaction :
    Services → Manifest → UnmanageInput → IacActor → Database → Result Failure (Json × Database)
unfolding assert_caller_authorized begin_operation unmanage_object desired_objects
unmanage_transaction env manifest input actor db = do
  authorized ← assert_caller_authorized db actor
  before ← find_workspace input.workspace_id db
  matched ← ensure (same_identity manifest before) workspace_mismatch
  undeclared ←
      ensure (not (any (is_declared input.address) (desired_objects env.host manifest)))
        (iac_error "DECLARATION_PRESENT" "Remove the declaration before unmanaging it" 409 done)
  begun ←
      begin_operation db before unmanage_op input.operation_id
        (digest env.host (unmanage_json input))
  unless_replayed (unmanage_object input actor before) begun

-- assertDigest.
abbrev pub assert_digest : String → String → String → Result Failure Unit
assert_digest received expected code = ensure (received == expected) (
    iac_error code "Digest does not match canonical content" 409
      (field "expected" (str expected) done))

abbrev pub unmanage_checks : Services → UnmanageInput → Result Failure Manifest
unmanage_checks env input = do
  manifest ← parse_desired_state env input.manifest
  matched ←
      assert_digest input.config_digest (digest env.host manifest.document) "CONFIG_DIGEST_MISMATCH"
  same ← ensure (manifest.workspace_id == input.workspace_id) workspace_mismatch
  ok manifest

unfoldable pub unmanage_iac :
    Services → UnmanageInput → IacActor → Database → Result Failure Json × Database
unfolding unmanage_transaction transact digest
unmanage_iac env input actor db = elim (unmanage_checks env input) [
  | ok manifest ↦ transact (unmanage_transaction env manifest input actor) db
  | err f ↦ (err f, db)
]

abbrev pub is_vacant : Option BindingRow → Bool
is_vacant none = true
is_vacant (some b) = false

unfoldable pub move_object :
    MoveInput → IacActor → WorkspaceRow → Database → Result Failure (Json × Database)
unfolding find_binding readdress increment_revision complete_operation write_audit kind_prefix
move_object input actor before db = do
  binding ← the_binding input.workspace_id input.source db
  vacant ←
      ensure (is_vacant (find_binding input.workspace_id input.target db.tables.bindings))
        (iac_error "ADDRESS_EXISTS" "Destination address exists" 409 done)
  same ←
      ensure (kind_prefix input.source == kind_prefix input.target)
        (iac_error "KIND_MISMATCH" "State moves must keep the same primitive kind" 409 done)
  updated ←
      increment_revision (set_bindings (readdress binding.id input.target db.tables.bindings) db)
        input.workspace_id actor.client_id
  let result = obj (
      field "workspaceId" (str updated.0.id) (
        field "from" (str input.source)
          (field "to" (str input.target) (field "revision" (num updated.0.revision) done))))
  completed ← complete_operation updated.1 input.operation_id updated.0.revision result
  ok (
    result,
    write_audit completed actor "iac.state.moved" updated.0 before.revision updated.0.revision
        (input.target ∷ []),
  )

unfoldable pub move_transaction :
    Services → MoveInput → IacActor → Database → Result Failure (Json × Database)
unfolding assert_caller_authorized begin_operation move_object
move_transaction env input actor db = do
  authorized ← assert_caller_authorized db actor
  before ← find_workspace input.workspace_id db
  begun ← begin_operation db before move_op input.operation_id (digest env.host (move_json input))
  unless_replayed (move_object input actor before) begun

unfoldable pub move_iac :
    Services → MoveInput → IacActor → Database → Result Failure Json × Database
unfolding move_transaction transact
move_iac env input actor db = transact (move_transaction env input actor) db
