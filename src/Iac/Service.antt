-- ===== src/Iac/Service.antt =====
-- What the operations of apps/weldall/src/server/iac/service.ts share: the rows of workspaces and
-- operations, the errors, the checks of the caller, and the record of an operation that makes a repeated
-- request return its first result.
pub mod Natural
pub mod Bindings
pub mod Inputs
pub mod Lifecycle
pub mod Steps
pub mod Administrators
pub mod References
mod Tests
use weldall.Prelude.{
  ℕ, suc, String, Bool, true, false, not, ◌&&◌, ◌||◌, Option, none, some, List, [], ◌∷◌, ◌++◌,
  if◌then◌else◌, ◌==◌, any, lookup, insert, Result, ok, err, ◌>>=◌,
}
use weldall.Iac.Json.{Json, obj, Fields, done}
use weldall.Iac.Contracts.{Host, PlanError, Manifest}
use weldall.Iac.Loading.{Schemas, is_set}
use weldall.Iac.Rows.{Reference, KeyRow, MachineRow, Tables}

-- IacError, with the details it carries; the errors that other code throws; and the database's, for a
-- value that must be unique and for a row that is not there.
pub data Failure : Type 0 where
  iac_error : String → String → ℕ → Fields → Failure
  plan_error : PlanError → Failure
  invalid_manifest unique_violation record_missing : Failure

pub record IacActor : Type 0 where
  pub client_id : String
  pub key_id : String
  pub key_thumbprint : String
  pub request_id : String
  pub correlation_id : Option String

pub record WorkspaceRow : Type 0 where
  pub id : String
  pub name : String
  pub issuer : String
  pub revision : ℕ
  pub last_config_digest : Option String
  pub last_actor_id : String

pub data OperationType : Type 0 where
  apply_op import_op unmanage_op move_op : OperationType

pub record OperationRow : Type 0 where
  pub workspace_id : String
  pub type : OperationType
  pub request_digest : String
  pub prior_revision : ℕ
  pub resulting_revision : Option ℕ
  pub succeeded : Bool
  pub result_summary : Json

-- A call of writeIacAudit: the event, the actor, the workspace and the summary.
pub record AuditEvent : Type 0 where
  pub event_type : String
  pub actor : IacActor
  pub workspace_id : String
  pub workspace_name : String
  pub prior_revision : ℕ
  pub resulting_revision : ℕ
  pub addresses : List String

-- `tables` holds the rows that plans are made from; operations and workspaces go by their identifier.
pub record Database : Type 0 where
  pub tables : Tables
  pub workspaces : List (String × WorkspaceRow)
  pub operations : List (String × OperationRow)
  pub audit : List AuditEvent

-- `parse_manifest` is the schema of manifests in parseDesiredState; `none` where it throws.
pub record Services : Type 0 where
  pub host : Host
  pub schemas : Schemas
  pub parse_manifest : Json → Option Manifest

abbrev pub same_type : OperationType → OperationType → Bool
same_type apply_op apply_op = true
same_type import_op import_op = true
same_type unmanage_op unmanage_op = true
same_type move_op move_op = true
same_type _ _ = false

abbrev pub fail : {A : Type 0} → String → String → ℕ → Result Failure A
fail code message status = err (iac_error code message status done)

-- An early exit of a function: it throws unless the condition holds.
abbrev pub ensure : Bool → Failure → Result Failure Unit
ensure true f = ok tt
ensure false f = err f

abbrev pub parse_desired_state : Services → Json → Result Failure Manifest
parse_desired_state env value = elim (env.parse_manifest value) [
  | none ↦ err invalid_manifest
  | some manifest ↦ ok manifest
]

unfoldable pub find_machine : String → List MachineRow → Option MachineRow
find_machine client_id [] = none
find_machine client_id (m ∷ ms) =
    if m.client_id == client_id then some m else find_machine client_id ms

abbrev pub is_key_of : IacActor → KeyRow → Bool
is_key_of actor key =
    key.kid == actor.key_id && (key.thumbprint == actor.key_thumbprint && not key.is_revoked)

abbrev pub is_iac_scope : Reference → Bool
is_iac_scope scope = scope.key == "weldall:iac"

abbrev pub is_authorized_machine : IacActor → Option MachineRow → Bool
is_authorized_machine actor none = false
is_authorized_machine actor (some live) =
    live.enabled
    && (not live.is_deactivated
        && (any (is_key_of actor) live.keys && any is_iac_scope live.allowed_scopes))

unfoldable pub is_authorized : Tables → IacActor → Bool
unfolding find_machine
is_authorized t actor = is_authorized_machine actor (find_machine actor.client_id t.machines)

unfoldable pub assert_caller_authorized : Database → IacActor → Result Failure Unit
unfolding is_authorized
assert_caller_authorized db actor =
    ensure (is_authorized db.tables actor)
      (iac_error "AUTHORIZATION_REVOKED" "Machine authorization is no longer active" 401 done)

abbrev pub same_identity : Manifest → WorkspaceRow → Bool
same_identity manifest w =
    w.issuer == manifest.workspace_issuer && w.name == manifest.workspace_name

abbrev pub workspace_mismatch : Failure
workspace_mismatch = iac_error "WORKSPACE_MISMATCH" "Workspace identity does not match" 409 done

abbrev pub new_workspace : Manifest → String → WorkspaceRow
new_workspace manifest actor_id = record {
  id = manifest.workspace_id;
  name = manifest.workspace_name;
  issuer = manifest.workspace_issuer;
  revision = 0;
  last_config_digest = none;
  last_actor_id = actor_id;
}

abbrev pub put_workspace : String → WorkspaceRow → Database → Database
put_workspace id w db = record db { workspaces = insert id w db.workspaces }

unfoldable pub ensure_workspace :
    Database → Manifest → String → Result Failure (WorkspaceRow × Database)
ensure_workspace db manifest actor_id = elim (lookup manifest.workspace_id db.workspaces) [
  | none ↦ ok (
    new_workspace manifest actor_id,
    put_workspace manifest.workspace_id (new_workspace manifest actor_id) db,
  )
  | some current ↦
      if same_identity manifest current then ok (current, db) else err workspace_mismatch
]

abbrev pub idempotency_conflict : Failure
idempotency_conflict =
    iac_error "IDEMPOTENCY_CONFLICT" "Operation ID was used for a different request" 409 done

abbrev pub operation_in_progress : Failure
operation_in_progress = iac_error "OPERATION_IN_PROGRESS" "Operation has not completed" 409 done

abbrev pub started : WorkspaceRow → OperationType → String → OperationRow
started workspace type request_digest = record {
  workspace_id = workspace.id;
  type = type;
  request_digest = request_digest;
  prior_revision = workspace.revision;
  resulting_revision = none;
  succeeded = false;
  result_summary = obj done;
}

abbrev pub put_operation : String → OperationRow → Database → Database
put_operation id row db = record db { operations = insert id row db.operations }

-- The result of an operation that has succeeded, or the record of a new one.
unfoldable pub begin_operation :
    Database
    → WorkspaceRow
    → OperationType
    → String
    → String
    → Result Failure (Option Json × Database)
begin_operation db workspace type id request_digest = elim (lookup id db.operations) [
  | none ↦ ok (none, put_operation id (started workspace type request_digest) db)
  | some prior ↦
      if prior.workspace_id == workspace.id
        && (same_type prior.type type && prior.request_digest == request_digest)
      then if prior.succeeded then ok (some prior.result_summary, db) else err operation_in_progress
      else err idempotency_conflict
]

unfoldable pub complete_operation : Database → String → ℕ → Json → Result Failure Database
complete_operation db id revision result = elim (lookup id db.operations) [
  | none ↦ err record_missing
  | some row ↦ ok (
      put_operation id
        (record row {
          succeeded = true;
          resulting_revision = some revision;
          result_summary = result;
        })
        db)
]

-- The update that every operation but applyIac ends with.
unfoldable pub increment_revision :
    Database → String → String → Result Failure (WorkspaceRow × Database)
increment_revision db id actor_id = elim (lookup id db.workspaces) [
  | none ↦ err record_missing
  | some w ↦
      let updated = record w { revision = suc w.revision; last_actor_id = actor_id } in
      ok (updated, put_workspace id updated db)
]

unfoldable pub write_audit :
    Database → IacActor → String → WorkspaceRow → ℕ → ℕ → List String → Database
write_audit db actor event_type workspace prior resulting addresses = record db {
  audit =
      db.audit
      ++ record {
        event_type = event_type;
        actor = actor;
        workspace_id = workspace.id;
        workspace_name = workspace.name;
        prior_revision = prior;
        resulting_revision = resulting;
        addresses = addresses;
      }
        ∷ [];
}

-- A transaction that throws leaves the database as it was.
unfoldable pub transact :
    (Database → Result Failure (Json × Database)) → Database → Result Failure Json × Database
transact body db = elim (body db) [ ok (result, after) ↦ (ok result, after) | err f ↦ (err f, db) ]
