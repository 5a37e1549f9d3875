-- ===== src/Iac/Sweep.antt =====
-- The parts of createPlan in apps/weldall/src/server/iac/planner.ts that follow the desired
-- objects: the CLI settings, the deletions and the confirmations of login authorities.
use weldall.Prelude.{
  String, Bool, true, false, not, ◌&&◌, ◌||◌, Option, none, some, List, [], ◌∷◌, Ordering,
  if◌then◌else◌, any, ◌==◌, lookup,
}
use weldall.Iac.Json.{Json, get_field, text_field, flag_field, stringify}
use weldall.Iac.Contracts.{
  Host, cli, login_provider, same_kind, update, delete, noop, is_noop, is_delete, Action,
  CurrentObject, CliSettings, DesiredObject, CliConfig,
}
use weldall.Iac.Graph.{owned_by}
use weldall.Iac.Decision.{observe, same_text}

abbrev pub first_text : Option String → Option String → String
first_text (some s) t = s
first_text none (some t) = t
first_text none none = ""

abbrev pub is_same_cli : CliConfig → Option CliSettings → Bool
is_same_cli wanted none = false
is_same_cli wanted (some now) =
    now.logo_url == wanted.logo_url
    && (now.dark_logo_url == first_text wanted.dark_logo_url (some now.dark_logo_url))

unfoldable pub cli_actions : Option CliConfig → Option CliSettings → List Action
cli_actions none current = []
cli_actions (some wanted) current =
    record {
      address = "cli.default";
      kind = cli;
      action = if is_same_cli wanted current then noop else update;
      identity = "default";
      observed_version = elim current [ none ↦ none | some now ↦ some now.version ];
      drift = false;
      irreversible = false;
      key_id = none;
      key_thumbprint = none;
      requires_authority_confirmation = false;
    }
    ∷ []

abbrev pub wants_address : List DesiredObject → String → Bool
wants_address desired address = any (λ o. o.address == address) desired

-- An object of this workspace with its address; `none` for the others.
abbrev pub managed_address : String → CurrentObject → Option String
managed_address workspace o = elim o.address [
  | none ↦ none
  | some a ↦ if owned_by workspace o.owner_workspace_id && not (a == "") then some a else none
]

unfoldable pub managed_objects : String → List CurrentObject → List (String × CurrentObject)
managed_objects workspace [] = []
managed_objects workspace (o ∷ os) =
    let rest = managed_objects workspace os in
    elim (managed_address workspace o) [ none ↦ rest | some a ↦ (a, o) ∷ rest ]

abbrev pub by_address_descending : Host → String × CurrentObject → String × CurrentObject → Ordering
by_address_descending h (left, _) (right, _) = h.locale_compare right left

unfoldable pub delete_action : String → CurrentObject → Action
delete_action address existing = record {
  address = address;
  kind = existing.kind;
  action = delete;
  identity = existing.identity;
  observed_version = observe (some existing);
  drift = false;
  irreversible = false;
  key_id = none;
  key_thumbprint = none;
  requires_authority_confirmation = false;
}

unfoldable pub deletions : List DesiredObject → List (String × CurrentObject) → List Action
unfolding delete_action
deletions desired [] = []
deletions desired ((a, o) ∷ os) =
    let rest = deletions desired os in
    if wants_address desired a then rest else delete_action a o ∷ rest

-- sameLoginAuthority of apps/weldall/src/server/domain/secret-primitive-contracts.ts.
abbrev pub same_json : Option Json → Option Json → Bool
same_json none none = true
same_json (some a) (some b) = stringify a == stringify b
same_json none (some _) = false
same_json (some _) none = false

unfoldable pub same_login_authority : Json → Json → Bool
unfolding text_field get_field stringify
same_login_authority a b =
    same_text (text_field "issuer" a) (text_field "issuer" b)
    && (same_text (text_field "discoveryUrl" a) (text_field "discoveryUrl" b)
        && (same_text (text_field "clientId" a) (text_field "clientId" b)
            && (same_text (text_field "tokenEndpointAuthMethod" a)
                  (text_field "tokenEndpointAuthMethod" b)
                && (same_json (get_field "scopes" a) (get_field "scopes" b)
                    && same_json (get_field "allowedEmailDomains" a)
                        (get_field "allowedEmailDomains" b)))))

unfoldable pub find_desired : String → List DesiredObject → Option DesiredObject
find_desired address [] = none
find_desired address (o ∷ os) = if o.address == address then some o else find_desired address os

abbrev pub authority_changes : Option DesiredObject → Option CurrentObject → Bool
authority_changes none before = false
authority_changes (some after) none = flag_field "enabled" after.state
authority_changes (some after) (some before) =
    flag_field "enabled" after.state
    && (not (flag_field "enabled" before.state)
        || not (same_login_authority before.state after.state))

-- A login provider that would be trusted anew, or under another authority.
unfoldable pub needs_confirmation :
    List DesiredObject → List (String × CurrentObject) → Action → Bool
unfolding find_desired same_login_authority flag_field
needs_confirmation desired by_address a =
    same_kind a.kind login_provider
    && (not (is_noop a.action)
        && (not (is_delete a.action)
            && authority_changes (find_desired a.address desired) (lookup a.address by_address)))

unfoldable pub confirm_authority :
    List DesiredObject → List (String × CurrentObject) → Action → Action
unfolding needs_confirmation
confirm_authority desired by_address a =
    if needs_confirmation desired by_address a
    then record a { requires_authority_confirmation = true }
    else a
