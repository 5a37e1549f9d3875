-- ===== src/Iac/Contracts.antt =====
-- Types of apps/weldall/src/server/iac/contracts.ts and planner.ts, the digests, and what the
-- planner takes from outside the repository: the collation of `localeCompare` and SHA-256.
use weldall.Prelude.{
  ℕ, ◌≡◌, refl, sym, ap, ◌∙◌, ◌↔◌, String, nat_eq, nat_eq_iff, Bool, true, false, Option, none,
  some, List, Ordering, if◌then◌else◌,
}
use weldall.Iac.Json.{Json, null, obj, field, done, canonical_json, get_field, ◌+s◌}

-- SkillMcpDependency of packages/sdk/src/mcp/contracts.ts; of an exact dependency the key alone,
-- which is what the planner reads.
pub data Dependency : Type 0 where
  exact : String → Dependency
  on_resource : String → Dependency
  on_connector_type : String → Dependency

unfoldable pub mcp_dependency_key : Dependency → String
mcp_dependency_key (exact key) = "connector:" +s key
mcp_dependency_key (on_resource key) = "resource:" +s key
mcp_dependency_key (on_connector_type type) = "connector-type:" +s type

-- `parse_dependencies` is skillMcpDependenciesSchema.parse, which the schema library runs; `none`
-- where it throws. The hashes are of UTF-8 text, in hexadecimal and in base64url.
pub record Host : Type 0 where
  pub locale_compare : String → String → Ordering
  pub sha256_hex : String → String
  pub sha256_base64url : String → String
  pub parse_dependencies : Json → Option (List Dependency)

pub data Kind : Type 0 where
  scope resource machine email_assignment group_assignment skill cli connector shared_connection
        group_provider login_provider :
      Kind

pub data ActionType : Type 0 where
  create update replace delete recreate register_key revoke_key noop : ActionType

abbrev pub kind_text : Kind → String
kind_text scope = "scope"
kind_text resource = "resource"
kind_text machine = "machine"
kind_text email_assignment = "emailAssignment"
kind_text group_assignment = "groupAssignment"
kind_text skill = "skill"
kind_text cli = "cli"
kind_text connector = "connector"
kind_text shared_connection = "sharedConnection"
kind_text group_provider = "groupProvider"
kind_text login_provider = "loginProvider"

abbrev pub action_text : ActionType → String
action_text create = "create"
action_text update = "update"
action_text replace = "replace"
action_text delete = "delete"
action_text recreate = "recreate"
action_text register_key = "register_key"
action_text revoke_key = "revoke_key"
action_text noop = "noop"

-- `left === right` on kinds, and on actions.
abbrev kind_index : Kind → ℕ
kind_index scope = 0
kind_index resource = 1
kind_index machine = 2
kind_index email_assignment = 3
kind_index group_assignment = 4
kind_index skill = 5
kind_index cli = 6
kind_index connector = 7
kind_index shared_connection = 8
kind_index group_provider = 9
kind_index login_provider = 10

abbrev pub same_kind : Kind → Kind → Bool
same_kind left right = nat_eq (kind_index left) (kind_index right)

kind_at : ℕ → Kind
kind_at n =
    if nat_eq n 0
    then scope
    else if nat_eq n 1
    then resource
    else if nat_eq n 2
    then machine
    else if nat_eq n 3
    then email_assignment
    else if nat_eq n 4
    then group_assignment
    else if nat_eq n 5
    then skill
    else if nat_eq n 6
    then cli
    else if nat_eq n 7
    then connector
    else if nat_eq n 8
    then shared_connection
    else if nat_eq n 9
    then group_provider
    else login_provider

kind_at_index : (k : Kind) → kind_at (kind_index k) ≡ k
unfolding kind_at
kind_at_index scope = refl
kind_at_index _ = refl

pub same_kind_iff : (left right : Kind) → (same_kind left right ≡ true) ↔ (left ≡ right)
same_kind_iff left right = (
  λ h. sym (kind_at_index left) ∙ ap kind_at ((nat_eq_iff _ _).0 h) ∙ kind_at_index right,
  λ e. (nat_eq_iff _ _).1 (ap kind_index e),
)

abbrev pub is_noop : ActionType → Bool
is_noop noop = true
is_noop _ = false

abbrev pub is_delete : ActionType → Bool
is_delete delete = true
is_delete _ = false

-- Optional flags are set or absent.
pub record Action : Type 0 where
  pub address : String
  pub kind : Kind
  pub action : ActionType
  pub identity : String
  pub observed_version : Option ℕ
  pub drift : Bool
  pub irreversible : Bool
  pub key_id : Option String
  pub key_thumbprint : Option String
  pub requires_authority_confirmation : Bool

pub record Blocker : Type 0 where
  pub code : String
  pub address : Option String
  pub message : String
  pub owner_workspace_id : Option String

pub record CurrentObject : Type 0 where
  pub address : Option String
  pub kind : Kind
  pub id : String
  pub identity : String
  pub version : ℕ
  pub owner_workspace_id : Option String
  pub state : Json
  pub tombstone : Bool

pub record CliSettings : Type 0 where
  pub logo_url : String
  pub dark_logo_url : String
  pub version : ℕ

pub record PlanningState : Type 0 where
  pub revision : ℕ
  pub objects : List CurrentObject
  pub cli_settings : Option CliSettings
  pub external_blockers : List Blocker

pub record DesiredObject : Type 0 where
  pub address : String
  pub kind : Kind
  pub identity : String
  pub state : Json

pub record CliConfig : Type 0 where
  pub logo_url : String
  pub dark_logo_url : Option String

-- A parsed manifest: the workspace, the parts of the manifest by kind, of which older clients
-- leave three out, and the whole as JSON.
pub record Manifest : Type 0 where
  pub workspace_id : String
  pub workspace_name : String
  pub workspace_issuer : String
  pub cli : Option CliConfig
  pub shared_connections : Option (List (String × Json))
  pub group_providers : Option (List (String × Json))
  pub login_providers : Option (List (String × Json))
  pub connectors : List (String × Json)
  pub scopes : List (String × Json)
  pub resources : List (String × Json)
  pub machines : List (String × Json)
  pub skills : List (String × Json)
  pub email_assignments : List (String × Json)
  pub group_assignments : List (String × Json)
  pub document : Json

pub record Plan : Type 0 where
  pub version : ℕ
  pub workspace_id : String
  pub revision : ℕ
  pub config_digest : String
  pub actions : List Action
  pub blockers : List Blocker
  pub digest : String

-- `type_error` is what JavaScript throws where a member of null is read.
pub data PlanError : Type 0 where
  type_error invalid_graph invalid_dependencies unsupported_provider invalid_state : PlanError

unfoldable pub canonical : Host → Json → String
canonical h j = canonical_json h.locale_compare j

unfoldable pub digest : Host → Json → String
unfolding canonical
digest h j = h.sha256_hex (canonical h j)

abbrev pub or_null : Option Json → Json
or_null none = null
or_null (some j) = j

-- The thumbprint covers the four members of an EC key and nothing else.
unfoldable pub public_key_thumbprint : Host → Json → String
unfolding canonical get_field
public_key_thumbprint h jwk = h.sha256_base64url (
    canonical h (
      obj (
        field "crv" (or_null (get_field "crv" jwk)) (
          field "kty" (or_null (get_field "kty" jwk)) (
            field "x" (or_null (get_field "x" jwk))
              (field "y" (or_null (get_field "y" jwk)) done))))))
