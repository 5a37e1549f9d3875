-- ===== src/Iac/Service/Inputs.antt =====
-- The inputs of importIac, unmanageIac and moveIacState of apps/weldall/src/server/iac/service.ts, and
-- the JSON that their digests cover.
use weldall.Prelude.{String}
use weldall.Iac.Json.{Json, obj, str, field, done}
use weldall.Iac.Contracts.{Kind, kind_text}

-- The import's workspace is part of a manifest that the schema has passed.
pub record ImportInput : Type 0 where
  pub workspace_id : String
  pub workspace_name : String
  pub workspace_issuer : String
  pub kind : Kind
  pub identity : String
  pub address : String
  pub operation_id : String

pub record UnmanageInput : Type 0 where
  pub workspace_id : String
  pub address : String
  pub manifest : Json
  pub config_digest : String
  pub operation_id : String

pub record MoveInput : Type 0 where
  pub workspace_id : String
  pub source : String
  pub target : String
  pub operation_id : String

abbrev workspace_json : ImportInput → Json
workspace_json i = obj (
    field "id" (str i.workspace_id)
      (field "name" (str i.workspace_name) (field "issuer" (str i.workspace_issuer) done)))

-- The manifest of a workspace that asks for nothing.
abbrev pub import_manifest : ImportInput → Json
import_manifest i =
    obj (field "apiVersion" (str "weldall.dev/v1") (field "workspace" (workspace_json i) done))

abbrev pub import_json : ImportInput → Json
import_json i = obj (
    field "workspace" (workspace_json i) (
      field "kind" (str (kind_text i.kind)) (
        field "identity" (str i.identity)
          (field "address" (str i.address) (field "operationId" (str i.operation_id) done)))))

abbrev pub unmanage_json : UnmanageInput → Json
unmanage_json i = obj (
    field "workspaceId" (str i.workspace_id) (
      field "address" (str i.address) (
        field "manifest" i.manifest (
          field "configDigest" (str i.config_digest)
            (field "operationId" (str i.operation_id) done)))))

abbrev pub move_json : MoveInput → Json
move_json i = obj (
    field "workspaceId" (str i.workspace_id) (
      field "from" (str i.source)
        (field "to" (str i.target) (field "operationId" (str i.operation_id) done))))
