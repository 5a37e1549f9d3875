-- ===== src/Iac/Rows.antt =====
-- The rows that loadPlanningState of apps/weldall/src/server/iac/planner.ts reads, with the relations
-- that its queries include. A nullable column is an option; an encrypted value counts as present or not.
use weldall.Prelude.{ℕ, String, Bool, Option, List}
use weldall.Iac.Json.{Json}
use weldall.Iac.Contracts.{CliSettings}

-- An entry of a relation to scopes or to resources: the identifier and the key of the other side.
pub record Reference : Type 0 where
  pub target_id : String
  pub key : String

pub record BindingRow : Type 0 where
  pub id : String
  pub workspace_id : String
  pub address : String
  pub kind : String
  pub natural_identity : String
  pub scope_id : Option String
  pub resource_id : Option String
  pub machine_client_id : Option String
  pub email_assignment_id : Option String
  pub group_assignment_id : Option String
  pub skill_id : Option String
  pub connector_id : Option String
  pub shared_connection_id : Option String
  pub group_provider_id : Option String
  pub login_provider_id : Option String

pub record ScopeRow : Type 0 where
  pub id : String
  pub key : String
  pub description : String
  pub version : ℕ

pub record ResourceRow : Type 0 where
  pub id : String
  pub key : String
  pub name : String
  pub resource_identifier : String
  pub authorization_server : String
  pub downstream_client_id : String
  pub enabled : Bool
  pub skill_discovery_enabled : Bool
  pub request_prefixes : List String
  pub scopes : List Reference
  pub version : ℕ

pub record KeyRow : Type 0 where
  pub kid : String
  pub public_jwk : Json
  pub thumbprint : String
  pub is_revoked : Bool

pub record MachineRow : Type 0 where
  pub id : String
  pub client_id : String
  pub name : String
  pub enabled : Bool
  pub is_deactivated : Bool
  pub keys : List KeyRow
  pub allowed_resources : List Reference
  pub allowed_scopes : List Reference
  pub version : ℕ

pub record EmailRow : Type 0 where
  pub id : String
  pub normalized_email : String
  pub grants : List Reference
  pub version : ℕ

pub record GroupRow : Type 0 where
  pub id : String
  pub provider_key : String
  pub group_id : String
  pub grants : List Reference
  pub version : ℕ

pub record SkillRow : Type 0 where
  pub id : String
  pub slug : String
  pub title : String
  pub content : String
  pub required_scopes : List String
  pub mcp_dependencies : Json
  pub visibility : String
  pub meta : Option Json
  pub last_updated_at : Option String
  pub version : ℕ

pub record ConnectorRow : Type 0 where
  pub id : String
  pub key : String
  pub name : String
  pub provider_type : String
  pub enabled : Bool
  pub provider_config : Json
  pub envelope_provider : String
  pub has_secrets : Bool
  pub required_scopes : List Reference
  pub connections : ℕ
  pub attempts : ℕ
  pub version : ℕ

pub record SharedConnectionRow : Type 0 where
  pub id : String
  pub key : String
  pub name : String
  pub enabled : Bool
  pub account_name : String
  pub provider_selection : Json
  pub credential_id : Option String
  pub connector_key : String
  pub owner_email : String
  pub use_scopes : List Reference
  pub version : ℕ

pub record GroupProviderRow : Type 0 where
  pub id : String
  pub key : String
  pub name : String
  pub adapter_type : String
  pub base_url : String
  pub has_token : Bool
  pub enabled : Bool
  pub version : ℕ

pub record LoginProviderRow : Type 0 where
  pub id : String
  pub name : String
  pub button_label : String
  pub button_color : String
  pub sort_order : ℕ
  pub issuer : String
  pub discovery_url : Option String
  pub client_id : String
  pub has_client_secret : Bool
  pub token_endpoint_auth_method : String
  pub scopes : List String
  pub allowed_email_domains : List String
  pub enabled : Bool
  pub version : ℕ

-- A use of a scope by a connection, which need not be a shared one.
pub record UseScopeRow : Type 0 where
  pub scope_id : String
  pub connection_id : String
  pub connection_key : Option String
  pub connection_name : String

-- A connection of a connector.
pub record ConnectionRow : Type 0 where
  pub id : String
  pub connector_id : String

-- What the transaction sees. `revision` is that of the manifest's workspace, if there is one.
pub record Tables : Type 0 where
  pub revision : Option ℕ
  pub bindings : List BindingRow
  pub scopes : List ScopeRow
  pub resources : List ResourceRow
  pub machines : List MachineRow
  pub emails : List EmailRow
  pub groups : List GroupRow
  pub skills : List SkillRow
  pub cli_settings : Option CliSettings
  pub connectors : List ConnectorRow
  pub shared_connections : List SharedConnectionRow
  pub group_providers : List GroupProviderRow
  pub login_providers : List LoginProviderRow
  pub use_scopes : List UseScopeRow
  pub connections : List ConnectionRow
  pub authorizations : List String
  pub user_emails : List String
  pub login_installation : Option String
