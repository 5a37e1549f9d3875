-- ===== src/Connectors/Access.antt =====
-- apps/weldall/src/server/connectors/core/connection-access.ts and connectors/access.ts. The state of
-- the database is an argument, so that a change between preparation and resolution is two states.
-- `none` is the error `connection_denied`, which is the same for every reason.
pub mod Granted
pub mod Machines
use Prim.Native.Char.{code}
use Prim.Native.String
use weldall.Prelude.{
  ℕ, ◌+◌, String, Bool, true, false, not, ◌&&◌, ◌||◌, Option, none, some, List, [], ◌∷◌,
  if◌then◌else◌, any, all, ltb, ◌==◌, includes,
}

pub data ActorType : Type 0 where
  user machine : ActorType

-- AuthorizedConnectorActor; an actor without a type is a user.
pub record Actor : Type 0 where
  pub id : String
  pub type : ActorType
  pub client_id : Option String
  pub key_id : Option String
  pub key_thumbprint : Option String
  pub scope_keys : List String

pub data AccessMode : Type 0 where
  owner_only scoped : AccessMode

pub data ConnectionStatus : Type 0 where
  ready disabled refreshing reconnect_required revocation_pending : ConnectionStatus

pub record Connector : Type 0 where
  pub enabled : Bool
  pub required_scopes : List String

pub record Connection : Type 0 where
  pub id : String
  pub name : String
  pub key : Option String
  pub owner_id : String
  pub access_mode : AccessMode
  pub use_scopes : List String
  pub enabled : Bool
  pub status : ConnectionStatus
  pub credential_id : Option String
  pub connector : Connector

pub record MachineKey : Type 0 where
  pub kid : String
  pub thumbprint : String
  pub is_revoked : Bool

pub record Machine : Type 0 where
  pub id : String
  pub client_id : String
  pub enabled : Bool
  pub is_deactivated : Bool
  pub keys : List MachineKey
  pub allowed_scopes : List String

pub record User : Type 0 where
  pub id : String
  pub email : String

pub record Db : Type 0 where
  pub connections : List Connection
  pub machines : List Machine
  pub users : List User

-- prepareEffectiveScopesRequiringSystemScopeFor of policy/resources.ts, for "weldall:login": what an
-- email's remote memberships, once resolved, read from a later state.
abbrev pub Policy : Type 0
Policy = String → Db → Option (List String)

abbrev pub is_machine : ActorType → Bool
is_machine user = false
is_machine machine = true

abbrev is_owner_only : AccessMode → Bool
is_owner_only owner_only = true
is_owner_only scoped = false

abbrev pub is_absent : Option String → Bool
is_absent none = true
is_absent (some _) = false

abbrev pub is_empty : List String → Bool
is_empty [] = true
is_empty (_ ∷ _) = false

-- A condition on an optional text.
abbrev pub is_truthy : Option String → Bool
is_truthy none = false
is_truthy (some s) = not (s == "")

-- Whether an optional text is the given one.
abbrev pub is_text : Option String → String → Bool
is_text none s = false
is_text (some t) s = s == t

abbrev use_by_mode : AccessMode → Connection → Actor → Bool
use_by_mode owner_only row actor =
    not (is_machine actor.type)
    && (row.owner_id == actor.id && (is_absent row.key && is_empty row.use_scopes))
use_by_mode scoped row actor =
    not (is_absent row.key)
    && (not (is_empty row.use_scopes) && all (includes actor.scope_keys) row.use_scopes)

unfoldable pub can_use_connection : Connection → Actor → Bool
can_use_connection row actor = use_by_mode row.access_mode row actor

unfoldable pub can_access_connector : Connector → Actor → Bool
can_access_connector connector actor = all (includes actor.scope_keys) connector.required_scopes

-- The first element with a property.
unfoldable pub find_first : {A : Type 0} → (A → Bool) → List A → Option A
find_first p [] = none
find_first p (x ∷ xs) = if p x then some x else find_first p xs

abbrev pub is_valid_key : Actor → MachineKey → Bool
is_valid_key actor k =
    is_text actor.key_id k.kid && (is_text actor.key_thumbprint k.thumbprint && not k.is_revoked)

-- The scopes of the token that the machine still has.
unfoldable pub still_allowed : List String → List String → List String
still_allowed allowed [] = []
still_allowed allowed (k ∷ ks) =
    let rest = still_allowed allowed ks in if includes allowed k then k ∷ rest else rest

abbrev pub is_active : Actor → Machine → Bool
is_active actor m =
    m.enabled
    && (not m.is_deactivated
        && (is_text actor.client_id m.client_id && any (is_valid_key actor) m.keys))

unfoldable pub read_machine : Actor → Db → Option Actor
unfolding find_first still_allowed
read_machine actor db = elim (find_first (λ (m : Machine). m.id == actor.id) db.machines) [
  | none ↦ none
  | some m ↦
      let scope_keys = still_allowed m.allowed_scopes actor.scope_keys in
      if is_active actor m && includes scope_keys "weldall:mcp"
      then some (record actor { scope_keys = scope_keys })
      else none
]

unfoldable pub read_user : Actor → String → (Db → Option (List String)) → Db → Option Actor
unfolding find_first
read_user actor email read_scopes db = elim (find_first (λ (u : User). u.id == actor.id) db.users) [
  | none ↦ none
  | some u ↦
      if u.email == email
      then elim (read_scopes db) [
        | none ↦ none
        | some scope_keys ↦ some (record actor { scope_keys = scope_keys })
      ]
      else none
]

-- What prepareConnectorActor returns: a reader of the live actor.
pub data Prepared : Type 0 where
  for_machine : Actor → Prepared
  for_user : Actor → String → (Db → Option (List String)) → Prepared

abbrev prepare_by_type : ActorType → Policy → Actor → Db → Option Prepared
prepare_by_type machine policy actor db = some (for_machine actor)
prepare_by_type user policy actor db = elim (find_first (λ (u : User). u.id == actor.id) db.users) [
  | none ↦ none
  | some u ↦ some (for_user actor u.email (policy u.email))
]

unfoldable pub prepare_connector_actor : Policy → Actor → Db → Option Prepared
unfolding find_first
prepare_connector_actor policy actor db = prepare_by_type actor.type policy actor db

unfoldable pub read_actor : Prepared → Db → Option Actor
unfolding read_machine read_user
read_actor (for_machine actor) db = read_machine actor db
read_actor (for_user actor email read_scopes) db = read_user actor email read_scopes db

abbrev owns_named : Actor → String → Connection → Bool
owns_named actor selector c =
    c.owner_id == actor.id && (c.name == selector && is_owner_only c.access_mode)

abbrev pub or_else_find : Option Connection → Option Connection → Option Connection
or_else_find (some row) other = some row
or_else_find none other = other

unfoldable pub find_connection : Actor → String → List Connection → Option Connection
unfolding find_first
find_connection actor selector connections =
    or_else_find (find_first (λ (c : Connection). c.id == selector) connections) (
      or_else_find
        (if is_machine actor.type then none else find_first (owns_named actor selector) connections)
        (find_first (λ (c : Connection). is_text c.key selector) connections))

abbrev pub is_usable_status : ConnectionStatus → Bool
is_usable_status ready = true
is_usable_status refreshing = true
is_usable_status _ = false

unfoldable pub is_open : Connection → Actor → Bool
unfolding can_use_connection can_access_connector
is_open row live =
    can_use_connection row live
    && (row.enabled
        && (is_truthy row.credential_id
            && (row.connector.enabled
                && (is_usable_status row.status && can_access_connector row.connector live))))

pub data AuthorizationSource : Type 0 where
  by_scope by_owner : AuthorizationSource

abbrev pub source_of : AccessMode → AuthorizationSource
source_of owner_only = by_owner
source_of scoped = by_scope

-- `selector.length` counts the units of UTF-16.
unfoldable pub utf16_length : String → ℕ
utf16_length String.[] = 0
utf16_length (String.◌∷◌ c s) = (if ltb (code c) 65536 then 1 else 2) + utf16_length s

-- What prepareConnectionAccess returns.
unfoldable pub resolve : Prepared → Actor → String → Db → Option (Connection × AuthorizationSource)
unfolding utf16_length find_connection read_actor is_open
resolve prepared actor selector db =
    if selector == "" || ltb 160 (utf16_length selector)
    then none
    else elim (find_connection actor selector db.connections) [
      | none ↦ none
      | some row ↦ elim (read_actor prepared db) [
        | none ↦ none
        | some live ↦ if is_open row live then some (row, source_of row.access_mode) else none
      ]
    ]

-- `before` is the state that the preparation saw, `now` that of the transaction.
unfoldable pub resolve_usable_connection :
    Policy → Actor → String → Db → Db → Option (Connection × AuthorizationSource)
unfolding prepare_connector_actor resolve
resolve_usable_connection policy actor selector before now =
    elim (prepare_connector_actor policy actor before) [
      | none ↦ none
      | some prepared ↦ resolve prepared actor selector now
    ]

unfoldable pub live_connector_actor : Policy → Actor → Db → Db → Option Actor
unfolding prepare_connector_actor read_actor
live_connector_actor policy actor before now = elim (prepare_connector_actor policy actor before) [
  | none ↦ none
  | some prepared ↦ read_actor prepared now
]
