-- ===== src/Iac/Loading/Connectors.antt =====
-- The connector checks of loadPlanningState in apps/weldall/src/server/iac/planner.ts.
pub mod Immutable
use weldall.Prelude.{
  ℕ, String, Bool, true, false, not, ◌&&◌, ◌||◌, Option, none, some, List, [], ◌∷◌, ◌++◌,
  if◌then◌else◌, ◌==◌, nat_eq, Result, ok, err,
}
use weldall.Iac.Json.{Json, null, ◌+s◌, get_field, text_field, flag_field}
use weldall.Iac.Contracts.{Blocker, PlanError, or_null}
use weldall.Iac.Decision.{same_text}
use weldall.Iac.Graph.{provider_mcp}
use weldall.Iac.Rows.{ConnectorRow}
use weldall.Iac.Loading.{Schemas}

abbrev pub block : String → String → String → Blocker
block address code message = record {
  code = code;
  address = some address;
  message = message;
  owner_workspace_id = none;
}

abbrev pub block_if : Bool → Blocker → List Blocker
block_if test b = if test then b ∷ [] else []

abbrev or_text : Option String → String
or_text none = ""
or_text (some s) = s

abbrev pub is_known : Result PlanError Bool → Bool
is_known (ok _) = true
is_known (err _) = false

-- Whether `parseConfiguration` of the type's provider takes the configuration.
unfoldable pub is_parsed : Schemas → Json → Bool
unfolding provider_mcp text_field get_field
is_parsed c config =
    is_known (provider_mcp (text_field "type" config))
    && elim (c.parse_configuration (or_text (text_field "type" config))
        (or_null (get_field "provider" config))) [ none ↦ false | some _ ↦ true ]

unfoldable pub find_connector : Option String → List ConnectorRow → Option ConnectorRow
find_connector key [] = none
find_connector key (row ∷ rows) =
    if same_text (some row.key) key then some row else find_connector key rows

-- The provider and the envelope of a connector that exists stay as they are.
unfoldable pub changes_provider : Json → ConnectorRow → Bool
unfolding text_field
changes_provider config row =
    not (same_text (some row.envelope_provider) (text_field "envelopeProvider" config))
    || not (same_text (some row.provider_type) (text_field "type" config))

abbrev pub has_secrets : Option ConnectorRow → Bool
has_secrets none = false
has_secrets (some row) = row.has_secrets

unfoldable pub lacks_secret : Schemas → Json → Option ConnectorRow → Bool
unfolding flag_field text_field
lacks_secret c config current =
    flag_field "enabled" config
    && (not (has_secrets current) && not (c.has_registration (or_text (text_field "type" config))))

-- The client of a connector in use is not exchanged; the identities are the ones of the manifest's type.
unfoldable pub changes_client : Schemas → Json → ConnectorRow → Bool
unfolding text_field get_field
changes_client c config row =
    (not (same_text (some row.provider_type) (text_field "type" config))
      || not (
          c.configuration_identity (or_text (text_field "type" config)) row.provider_config
          == c.configuration_identity (or_text (text_field "type" config))
              (or_null (get_field "provider" config))))
    && (not (nat_eq row.connections 0) || not (nat_eq row.attempts 0))

abbrev pub if_current : (ConnectorRow → Bool) → Option ConnectorRow → Bool
if_current test none = false
if_current test (some row) = test row

unfoldable pub config_blockers : Schemas → List ConnectorRow → String × Json → List Blocker
unfolding is_parsed find_connector changes_provider lacks_secret changes_client
config_blockers c rows (name, config) =
    let address = "connector." +s name in
    let current = find_connector (text_field "key" config) rows in
    if is_parsed c config
    then block_if (if_current (changes_provider config) current)
        (block address "IMMUTABLE_PROVIDER" "Connector envelope provider cannot change.")
      ++ (block_if (lacks_secret c config current) (
            block address "MISSING_SECRET"
              "Create disabled and provision the write-only client secret before enabling.")
          ++ block_if (if_current (changes_client c config) current) (
              block address "CLIENT_IN_USE"
                "Disconnect and remove connections/attempts before replacing the OAuth client."))
    else block address "INVALID_SCOPES"
        "Scopes must be known to the provider and defaults must be allowed."
      ∷ []

unfoldable pub connector_blockers :
    Schemas → List ConnectorRow → List (String × Json) → List Blocker
unfolding config_blockers
connector_blockers c rows [] = []
connector_blockers c rows (entry ∷ entries) =
    config_blockers c rows entry ++ connector_blockers c rows entries
