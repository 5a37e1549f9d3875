-- ===== src/Connectors/Tests.antt =====
-- A shared and an owned connection, and the theorems of their resolution.

use weldall.Prelude.{◌≡◌, refl, inl, inr, true, false, none, some, [], ◌∷◌, All}
use weldall.Connectors.Access.{
  Actor, user, machine, owner_only, scoped, ready, Connector, Connection, Db, Policy, for_machine,
  for_user, read_actor, resolve, resolve_usable_connection, by_scope, by_owner, source_of,
  prepare_connector_actor, read_machine, read_user, find_first, still_allowed, find_connection,
  is_open, can_use_connection, can_access_connector, utf16_length,
}
use weldall.Connectors.Access.Granted.{
  IsGranted, IsLive, Holds, resolve-IsGranted, resolve-not_shadowed, read_actor-IsLive,
}
use weldall.Connectors.Access.Machines.{resolve_usable_connection-machine}

abbrev robot : Actor
robot = record {
  id = "m1";
  type = machine;
  client_id = some "robot";
  key_id = some "k";
  key_thumbprint = some "t";
  scope_keys = "weldall:mcp" ∷ "crm:read" ∷ [];
}

abbrev alice : Actor
alice = record {
  id = "u1";
  type = user;
  client_id = none;
  key_id = none;
  key_thumbprint = none;
  scope_keys = "crm:read" ∷ [];
}

abbrev crm : Connector
crm = record { enabled = true; required_scopes = "crm:read" ∷ [] }

abbrev shared : Connection
shared = record {
  id = "c1";
  name = "team";
  key = some "crm";
  owner_id = "u2";
  access_mode = scoped;
  use_scopes = "crm:read" ∷ [];
  enabled = true;
  status = ready;
  credential_id = some "e1";
  connector = crm;
}

-- Its name is the identifier of the other one.
abbrev own : Connection
own = record shared {
  id = "c2";
  name = "c1";
  key = none;
  owner_id = "u1";
  access_mode = owner_only;
  use_scopes = [];
}

abbrev world : Db
world = record {
  connections = own ∷ shared ∷ [];
  machines =
      record {
        id = "m1";
        client_id = "robot";
        enabled = true;
        is_deactivated = false;
        keys = record { kid = "k"; thumbprint = "t"; is_revoked = false } ∷ [];
        allowed_scopes = "crm:read" ∷ "weldall:mcp" ∷ "crm:write" ∷ [];
      }
      ∷ [];
  users = record { id = "u1"; email = "alice@example.com" } ∷ [];
}

-- Everybody may read the CRM.
abbrev readers : Policy
readers email db = some ("weldall:login" ∷ "crm:read" ∷ [])

abbrev world_without_alice : Db
world_without_alice = record world { users = record { id = "u1"; email = "bob@example.com" } ∷ [] }

-- The machine gets the shared connection; the identifier hides the name for Alice too; her own one
-- she gets by its identifier, but not once her email has changed.
resolutions :
    (resolve_usable_connection readers robot "crm" world world ≡ some (shared, by_scope))
    × (resolve_usable_connection readers alice "c1" world world ≡ some (shared, by_scope))
    × (resolve_usable_connection readers alice "c2" world world ≡ some (own, by_owner))
    × (resolve_usable_connection readers robot "c2" world world ≡ none)
    × (resolve_usable_connection readers alice "c2" world world_without_alice ≡ none)
unfolding resolve_usable_connection prepare_connector_actor resolve utf16_length find_connection
    read_actor read_machine read_user find_first still_allowed is_open can_use_connection
    can_access_connector
resolutions = (refl, refl, refl, refl, refl)

resolve_usable_connection-machine_example :
    (shared.access_mode ≡ scoped)
    × All (Holds robot.scope_keys) shared.use_scopes
    × All (Holds robot.scope_keys) shared.connector.required_scopes
unfolding resolve_usable_connection prepare_connector_actor resolve utf16_length find_connection
    read_actor read_machine read_user find_first still_allowed is_open can_use_connection
    can_access_connector
resolve_usable_connection-machine_example =
    resolve_usable_connection-machine readers robot "crm" world world shared by_scope refl refl

resolve-IsGranted_example :
    (live : Actor) × (read_actor (for_user alice "alice@example.com" (readers "")) world
      ≡ some live)
    × IsGranted own live
    × (by_owner ≡ source_of own.access_mode)
unfolding resolve utf16_length find_connection read_actor read_machine read_user find_first is_open
    can_use_connection can_access_connector
resolve-IsGranted_example =
    resolve-IsGranted (for_user alice "alice@example.com" (readers "")) alice "c2" world own
      by_owner refl

resolve-not_shadowed_example : shared.id ≡ "c1"
unfolding resolve utf16_length find_connection read_actor read_machine read_user find_first is_open
    can_use_connection can_access_connector
resolve-not_shadowed_example =
    resolve-not_shadowed (for_user alice "alice@example.com" (readers "")) alice "c1" world shared
      by_scope (inr (inl refl)) refl

abbrev live_robot : Actor
live_robot = robot

read_actor-IsLive_example : IsLive (for_machine robot) world live_robot
unfolding read_actor read_machine find_first still_allowed
read_actor-IsLive_example = read_actor-IsLive (for_machine robot) world live_robot refl
