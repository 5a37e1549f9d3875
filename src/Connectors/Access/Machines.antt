-- ===== src/Connectors/Access/Machines.antt =====
-- What a machine reaches: its token is an upper bound.
use weldall.Prelude.{
  ◌≡◌, ◌≢◌, refl, sym, ◌∙◌, subst, inl, inr, String, some, List, [], ◌∷◌, true, All, Any,
  All-map_pred,
}
use weldall.Connectors.Access.{
  Actor, user, machine, AccessMode, owner_only, scoped, Connection, Machine, Db, Policy, is_active,
  for_machine, prepare_connector_actor, AuthorizationSource, resolve_usable_connection,
}
use weldall.Connectors.Access.Granted.{
  Holds, IsAuthorized, IsBounded, resolve-IsGranted, read_actor-IsLive,
}

Holds-bounded :
    (keys token : List String) (s : String) → All (Holds token) keys → Holds keys s → Holds token s
Holds-bounded [] token s h there = elim there [ ]
Holds-bounded (k ∷ ks) token s (h, hs) (inl e) = subst (Holds token) e h
Holds-bounded (k ∷ ks) token s (h, hs) (inr there) = Holds-bounded ks token s hs there

token_bounds :
    (machines : List Machine) (actor : Actor) (keys : List String)
    → Any (λ m. (m.id ≡ actor.id) × (is_active actor m ≡ true) × IsBounded m actor keys) machines
    → All (Holds actor.scope_keys) keys
token_bounds [] actor keys there = elim there [ ]
token_bounds (m ∷ ms) actor keys (inl (_, _, bounded)) = All-map_pred _ _ keys (λ s h. h.1) bounded
token_bounds (m ∷ ms) actor keys (inr there) = token_bounds ms actor keys there

user-ne-machine : user ≢ machine
user-ne-machine e = cc

machine_mode :
    (mode : AccessMode) (row : Connection) (live : Actor) (token : List String)
    → live.type ≡ machine
    → All (Holds token) live.scope_keys
    → IsAuthorized mode row live
    → (mode ≡ scoped) × All (Holds token) row.use_scopes
machine_mode owner_only row live token t bounds (u, _) = absurd (user-ne-machine (sym u ∙ t))
machine_mode scoped row live token t bounds (_, holds) = (
  refl,
  All-map_pred _ _ row.use_scopes (λ s h. Holds-bounded live.scope_keys token s bounds h) holds,
)

prepare-machine :
    (policy : Policy) (actor : Actor) (db : Db)
    → actor.type ≡ machine
    → prepare_connector_actor policy actor db ≡ some (for_machine actor)
unfolding prepare_connector_actor
prepare-machine policy actor db t = rw t refl

-- A machine resolves a shared connection only, and only if its token holds every scope of the
-- connection and of its connector, whatever changes between preparation and transaction.
pub resolve_usable_connection-machine :
    (policy : Policy) (actor : Actor) (selector : String) (before now : Db) (row : Connection)
    (source : AuthorizationSource)
    → actor.type ≡ machine
    → resolve_usable_connection policy actor selector before now ≡ some (row, source)
    → (row.access_mode ≡ scoped)
      × All (Holds actor.scope_keys) row.use_scopes
      × All (Holds actor.scope_keys) row.connector.required_scopes
unfolding resolve_usable_connection
resolve_usable_connection-machine policy actor selector before now row source t h =
    let (live, read, (authorized, _, _, required), _) =
      resolve-IsGranted (for_machine actor) actor selector now row source
        (rw (prepare-machine policy actor before t, resolve_usable_connection) at h) in
    let (_, same_type, there) = read_actor-IsLive (for_machine actor) now live read in
    let bounds = token_bounds now.machines actor live.scope_keys there in
    let (mode, used) =
      machine_mode row.access_mode row live actor.scope_keys (same_type ∙ t) bounds authorized in
    (
      mode,
      used,
      All-map_pred _ _ row.connector.required_scopes
          (λ s e. Holds-bounded live.scope_keys actor.scope_keys s bounds e) required,
    )
