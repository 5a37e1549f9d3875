-- ===== src/Iac/Service/Tests.antt =====
-- A scope that is imported, moved and given up, and the theorems of requests there.
use Prim.Native.String
use weldall.Prelude.{
  includes, All, ◌⊎◌, ◌≡◌, refl, String, true, false, none, some, List, [], ◌∷◌, map, lookup,
  insert, sort, insert_sorted, ok, err,
}
use weldall.Iac.Json.{Json, null, obj, str, num, arr, cons, nil, field, done, canonical_json}
use weldall.Iac.Contracts.{Host, scope, Manifest}
use weldall.Iac.Rows.{EmailRow, BindingRow, Tables}
use weldall.Iac.Loading.{Schemas}
use weldall.Iac.Service.{IacActor, Database, Services, iac_error}
use weldall.Iac.Service.Administrators.{assert_final_administrator_safe}
use weldall.Iac.Service.Administrators.Kept.{
  IsDesiredAdmin, IsUnboundAdmin, assert_final_administrator_safe-ok,
}
use weldall.Iac.Service.References.{
  Avoids, assert_final_references_safe, assert_final_references_safe-Avoids,
}
use weldall.Iac.Service.Steps.{Request, imports, unmanages, moves, handle, run}
use weldall.Iac.Service.Steps.History.{IsSound, revision_of, run-IsSound}
use weldall.Iac.Service.Steps.Replays.{run-handle_again}

abbrev host : Host
host = record {
  locale_compare = String.compare;
  sha256_hex = λ s. s;
  sha256_base64url = λ s. s;
  parse_dependencies = λ j. some [];
}

abbrev schemas : Schemas
schemas = record {
  parse_state = λ kind j. some j;
  dependencies = λ j. some nil;
  parse_configuration = λ type j. some j;
  configuration_identity = λ type j. "client";
  has_registration = λ type. true;
  is_deep_strict_equal = λ a b. true;
}

abbrev nothing_wanted : Manifest
nothing_wanted = record {
  workspace_id = "w";
  workspace_name = "main";
  workspace_issuer = "https://weldall.example";
  cli = none;
  shared_connections = some [];
  group_providers = some [];
  login_providers = some [];
  connectors = [];
  scopes = [];
  resources = [];
  machines = [];
  skills = [];
  email_assignments = [];
  group_assignments = [];
  document = null;
}

abbrev services : Services
services = record { host = host; schemas = schemas; parse_manifest = λ j. some nothing_wanted }

abbrev robot : IacActor
robot = record {
  client_id = "robot";
  key_id = "k1";
  key_thumbprint = "t1";
  request_id = "r";
  correlation_id = none;
}

abbrev tables : Tables
tables = record {
  revision = none;
  bindings = [];
  scopes = record { id = "s1"; key = "crm:read"; description = "Read"; version = 2 } ∷ [];
  resources = [];
  machines =
      record {
        id = "m1";
        client_id = "robot";
        name = "Robot";
        enabled = true;
        is_deactivated = false;
        keys = record { kid = "k1"; public_jwk = null; thumbprint = "t1"; is_revoked = false } ∷ [];
        allowed_resources = [];
        allowed_scopes = record { target_id = "s0"; key = "weldall:iac" } ∷ [];
        version = 1;
      }
      ∷ [];
  emails = [];
  groups = [];
  skills = [];
  cli_settings = none;
  connectors = [];
  shared_connections = [];
  group_providers = [];
  login_providers = [];
  use_scopes = [];
  connections = [];
  authorizations = [];
  user_emails = [];
  login_installation = some "COMPLETED";
}

abbrev new : Database
new = record { tables = tables; workspaces = []; operations = []; audit = [] }

abbrev import_read : Request
import_read = imports "b1" (record {
  workspace_id = "w";
  workspace_name = "main";
  workspace_issuer = "https://weldall.example";
  kind = scope;
  identity = "crm:read";
  address = "scope.read";
  operation_id = "o1";
})

abbrev move_read : Request
move_read = moves (record {
  workspace_id = "w";
  source = "scope.read";
  target = "scope.reader";
  operation_id = "o2";
})

abbrev unmanage_read : Request
unmanage_read = unmanages (record {
  workspace_id = "w";
  address = "scope.reader";
  manifest = null;
  config_digest = "null";
  operation_id = "o3";
})

abbrev later : List (Request × IacActor)
later = (move_read, robot) ∷ (unmanage_read, robot) ∷ []

abbrev imported : Json
imported = obj (
    field "workspaceId" (str "w") (
      field "address" (str "scope.read") (
        field "objectId" (str "s1") (
          field "state" (obj (field "key" (str "crm:read") (field "description" (str "Read") done)))
            (field "revision" (num 1) done)))))

abbrev addresses : List BindingRow → List String
addresses bs = map (λ (b : BindingRow). b.address) bs

moved :
    addresses (run services ((import_read, robot) ∷ (move_read, robot) ∷ []) new).tables.bindings
    ≡ "scope.reader" ∷ []
unfolding run lookup insert sort insert_sorted
moved = refl

given_up :
    ((run services ((import_read, robot) ∷ later) new).tables.bindings ≡ [])
    × (revision_of "w" (run services ((import_read, robot) ∷ later) new) ≡ 3)
unfolding run lookup insert sort insert_sorted canonical_json
given_up = (refl, refl)

-- An operation's identifier serves one request.
reused :
    (handle services
      (moves (record {
        workspace_id = "w";
        source = "scope.read";
        target = "scope.x";
        operation_id = "o1";
      }))
      robot
      (run services ((import_read, robot) ∷ []) new)).0
    ≡ err
        (iac_error "IDEMPOTENCY_CONFLICT" "Operation ID was used for a different request" 409 done)
unfolding run handle lookup insert sort insert_sorted
reused = refl

new-IsSound : IsSound new
unfolding lookup
new-IsSound = (λ k w h. cc h, λ w. refl)

run-IsSound_example : IsSound (run services ((import_read, robot) ∷ later) new)
run-IsSound_example = run-IsSound services ((import_read, robot) ∷ later) new new-IsSound

run-handle_again_example :
    handle services import_read robot (run services later (handle services import_read robot new).1)
    ≡ (ok imported, run services later (handle services import_read robot new).1)
unfolding handle lookup insert sort insert_sorted
run-handle_again_example =
    run-handle_again services import_read robot new imported later new-IsSound refl

abbrev admin_row : EmailRow
admin_row = record {
  id = "e1";
  normalized_email = "ada@example.com";
  grants = record { target_id = "s9"; key = "weldall:administer" } ∷ [];
  version = 1;
}

abbrev lowered : String → String
lowered s = s

last_admin :
    assert_final_administrator_safe lowered
      ("bob@example.com" ∷ [])
      nothing_wanted
      (record tables { emails = admin_row ∷ [] })
    ≡ err (iac_error "LAST_ADMIN" "The last verified administrator cannot be removed" 409 done)
unfolding assert_final_administrator_safe lookup insert
last_admin = refl

assert_final_administrator_safe-ok_example :
    (email : String) × (includes ("ada@example.com" ∷ []) email ≡ true)
    × (IsDesiredAdmin [] email ⊎ IsUnboundAdmin (admin_row ∷ []) [] email)
unfolding assert_final_administrator_safe lookup insert
assert_final_administrator_safe-ok_example =
    assert_final_administrator_safe-ok lowered ("ada@example.com" ∷ []) nothing_wanted
      (record tables { emails = admin_row ∷ [] }) tt refl

-- The scope crm:read is dropped, and the one resource names another.
abbrev dropping : Manifest
dropping = record nothing_wanted {
  resources =
      (
        "crm",
        obj (field "key" (str "crm") (field "scopes" (arr (cons (str "crm:write") nil)) done)),
      )
      ∷ [];
}

abbrev with_binding : Tables
with_binding = (run services ((import_read, robot) ∷ []) new).tables

assert_final_references_safe-Avoids_example :
    All (Avoids "scopes" "crm:read") dropping.resources
    × All (Avoids "scopes" "crm:read") []
    × All (Avoids "requiredScopes" "crm:read") []
    × All (Avoids "scopes" "crm:read") []
    × All (Avoids "scopes" "crm:read") []
unfolding run assert_final_references_safe lookup insert sort insert_sorted
assert_final_references_safe-Avoids_example =
    assert_final_references_safe-Avoids dropping with_binding "crm:read" tt refl refl
