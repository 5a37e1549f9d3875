-- ===== src/Connectors/Access/Granted.antt =====
-- A connection is resolved for live holders of its scopes, or for its owner, and never by a name or
-- key that an identifier shadows.
use weldall.Prelude.{
  ◌≡◌, ◌≢◌, refl, sym, ap, ◌∙◌, subst, inl, inr, String, Bool, true, false, ◌&&◌, some, List, [],
  ◌∷◌, arith, all, Bool-cases, Option-cases, All, Any, Any-map_pred, All-map_pred, ◌==◌, eq_iff,
  includes,
}
use weldall.Connectors.Access.{
  Actor, ActorType, user, machine, AccessMode, owner_only, scoped, Connection, Machine, User, Db,
  is_machine, is_empty, can_use_connection, can_access_connector, find_first, still_allowed,
  is_active, read_machine, read_user, Prepared, for_machine, for_user, read_actor, find_connection,
  is_open, AuthorizationSource, source_of, resolve,
}

abbrev pub Holds : List String → String → Type 0
Holds keys s = Any (λ k. k ≡ s) keys

includes-Holds : (keys : List String) (s : String) → includes keys s ≡ true → Holds keys s
includes-Holds [] s h = cc
includes-Holds (k ∷ ks) s h = elim (Bool-cases (k == s)) [
  | inl e ↦ inl (ground (arith, eq_iff k s))
  | inr e ↦ inr (includes-Holds ks s (ground arith))
]

all-Holds :
    (keys required : List String) → all (includes keys) required ≡ true → All (Holds keys) required
all-Holds keys [] h = tt
all-Holds keys (s ∷ ss) h = (includes-Holds keys s (ground arith), all-Holds keys ss (ground arith))

-- The owner in person, or a holder of every scope of the connection, of which there is one.
abbrev pub IsAuthorized : AccessMode → Connection → Actor → Type 0
IsAuthorized owner_only row live = (live.type ≡ user) × (row.owner_id ≡ live.id)
IsAuthorized scoped row live = (row.use_scopes ≢ []) × All (Holds live.scope_keys) row.use_scopes

abbrev pub IsGranted : Connection → Actor → Type 0
IsGranted row live =
    IsAuthorized row.access_mode row live
    × (row.enabled ≡ true)
    × (row.connector.enabled ≡ true)
    × All (Holds live.scope_keys) row.connector.required_scopes

not_machine-user : (t : ActorType) → is_machine t ≡ false → t ≡ user
not_machine-user user h = refl
not_machine-user machine h = cc

is_empty_nil : (xs : List String) → is_empty xs ≡ false → xs ≢ []
is_empty_nil [] h e = cc
is_empty_nil (x ∷ xs) h e = cc

can_use_connection-IsAuthorized :
    (mode : AccessMode) (row : Connection) (live : Actor)
    → row.access_mode ≡ mode
    → can_use_connection row live ≡ true
    → IsAuthorized mode row live
unfolding can_use_connection
can_use_connection-IsAuthorized owner_only row live e h =
    let h' = rw e at h in
    (not_machine-user live.type (ground arith), ground (arith, eq_iff row.owner_id live.id))
can_use_connection-IsAuthorized scoped row live e h =
    let h' = rw e at h in
    (
      is_empty_nil row.use_scopes (ground arith),
      all-Holds live.scope_keys row.use_scopes (ground arith),
    )

is_open-IsGranted : (row : Connection) (live : Actor) → is_open row live ≡ true → IsGranted row live
unfolding is_open can_access_connector
is_open-IsGranted row live h = (
  can_use_connection-IsAuthorized row.access_mode row live refl (ground arith),
  ground arith,
  ground arith,
  all-Holds live.scope_keys row.connector.required_scopes (ground arith),
)

-- What a resolution that gives a row went through.
resolve-some :
    (prepared : Prepared) (actor : Actor) (selector : String) (db : Db) (row : Connection)
    (source : AuthorizationSource)
    → resolve prepared actor selector db ≡ some (row, source)
    → (find_connection actor selector db.connections ≡ some row)
      × ((live : Actor) × (read_actor prepared db ≡ some live) × (is_open row live ≡ true))
      × (source ≡ source_of row.access_mode)
unfolding resolve
resolve-some prepared actor selector db row source h =
    elim (Option-cases (find_connection actor selector db.connections)) [
      | inl e ↦ ground (arith, e)
      | inr (found, e) ↦ elim (Option-cases (read_actor prepared db)) [
        | inl e' ↦ ground (arith, e, e')
        | inr (live, e') ↦ elim (Bool-cases (is_open found live)) [
          | inr shut ↦ ground (arith, e, e', shut)
          | inl opened ↦
              let pair : ◌≡◌ {A = Connection × AuthorizationSource}
                  (found, source_of found.access_mode) (row, source) =
                ground (arith, e, e', opened) in
              let same : found ≡ row = ap (λ p. p.0) pair in
              (
                e ∙ ap some same,
                (live, e', subst (λ r. is_open r live ≡ true) same opened),
                sym (ap (λ p. p.1) pair) ∙ ap (λ (r : Connection). source_of r.access_mode) same,
              )
        ]
      ]
    ]

-- A resolved connection and its connector are enabled, the caller's live scopes include every one
-- that the connector requires, and the caller owns the connection in person, as a user, or holds
-- all its scopes.
pub resolve-IsGranted :
    (prepared : Prepared) (actor : Actor) (selector : String) (db : Db) (row : Connection)
    (source : AuthorizationSource)
    → resolve prepared actor selector db ≡ some (row, source)
    → (live : Actor) × (read_actor prepared db ≡ some live)
      × IsGranted row live
      × (source ≡ source_of row.access_mode)
resolve-IsGranted prepared actor selector db row source h =
    let (_, (live, read, opened), from) = resolve-some prepared actor selector db row source h in
    (live, read, is_open-IsGranted row live opened, from)

find_first-some :
    {A : Type 0} (p : A → Bool) (xs : List A) (x : A)
    → find_first p xs ≡ some x
    → Any (λ y. (y ≡ x) × (p x ≡ true)) xs
unfolding find_first
find_first-some p [] x h = cc
find_first-some p (y ∷ ys) x h = elim (Bool-cases (p y)) [
  | inl e ↦ let same : y ≡ x = ground (arith, e) in inl (same, subst (λ z. p z ≡ true) same e)
  | inr e ↦ inr (find_first-some p ys x (ground (arith, e)))
]

find_first-Any :
    {A : Type 0} (p : A → Bool) (xs : List A)
    → Any (λ x. p x ≡ true) xs
    → (x : A) × (find_first p xs ≡ some x) × (p x ≡ true)
unfolding find_first
find_first-Any p [] there = elim there [ ]
find_first-Any p (y ∷ ys) there = elim (Bool-cases (p y)) [
  | inl e ↦ (y, ground (arith, e), e)
  | inr e ↦
      let later : Any (λ x. p x ≡ true) ys = elim there [ inl h ↦ cc | inr h ↦ h ] in
      let (x, found, holds) = find_first-Any p ys later in (x, ground (arith, e, found), holds)
]

-- Where a connection has the selector as its identifier, no other one is resolved, though it may be
-- named so or have the selector as its key.
pub resolve-not_shadowed :
    (prepared : Prepared) (actor : Actor) (selector : String) (db : Db) (row : Connection)
    (source : AuthorizationSource)
    → Any (λ c. c.id ≡ selector) db.connections
    → resolve prepared actor selector db ≡ some (row, source)
    → row.id ≡ selector
unfolding find_connection
resolve-not_shadowed prepared actor selector db row source there h =
    let (found, _, _) = resolve-some prepared actor selector db row source h in
    let (x, first, holds) =
      find_first-Any (λ (c : Connection). c.id == selector) db.connections
        (Any-map_pred _ _ db.connections (λ c e. (eq_iff c.id selector).1 e) there) in
    let same : x ≡ row = ground (arith, found, first) in
    ap (λ (c : Connection). c.id) (sym same) ∙ (eq_iff x.id selector).0 holds

-- The scopes that a machine keeps are its token's, and its own by now.
abbrev pub IsBounded : Machine → Actor → List String → Type 0
IsBounded m actor keys = All (λ s. Holds m.allowed_scopes s × Holds actor.scope_keys s) keys

still_allowed-Bounded :
    (allowed keys : List String)
    → All (λ s. Holds allowed s × Holds keys s) (still_allowed allowed keys)
unfolding still_allowed
still_allowed-Bounded allowed [] = tt
still_allowed-Bounded allowed (k ∷ ks) =
    let rest : All (λ s. Holds allowed s × Holds (k ∷ ks) s) (still_allowed allowed ks) =
      All-map_pred _ _ (still_allowed allowed ks) (λ s h. (h.0, inr h.1))
        (still_allowed-Bounded allowed ks) in
    elim (Bool-cases (includes allowed k)) [
      | inl e ↦ rw e ((includes-Holds allowed k e, inl refl), rest)
      | inr e ↦ rw e rest
    ]

-- The actor as it is now, by how it was prepared.
abbrev pub IsLive : Prepared → Db → Actor → Type 0
IsLive (for_machine actor) db live =
    Holds live.scope_keys "weldall:mcp"
    × (live.type ≡ actor.type)
    × Any (λ m. (m.id ≡ actor.id) × (is_active actor m ≡ true) × IsBounded m actor live.scope_keys)
        db.machines
IsLive (for_user actor email read_scopes) db live =
    (read_scopes db ≡ some live.scope_keys)
    × (live.id ≡ actor.id)
    × Any (λ u. (u.id ≡ actor.id) × (u.email ≡ email)) db.users

-- A live machine is active, is bounded by its token and by its own scopes, and may use MCP; a live
-- user still has the email that the memberships were resolved for.
pub read_actor-IsLive :
    (prepared : Prepared) (db : Db) (live : Actor)
    → read_actor prepared db ≡ some live
    → IsLive prepared db live
unfolding read_actor read_machine read_user
read_actor-IsLive (for_machine actor) db live h =
    elim (Option-cases (find_first (λ (m : Machine). m.id == actor.id) db.machines)) [
      | inl e ↦ ground (arith, e)
      | inr (m, e) ↦
          let keys = still_allowed m.allowed_scopes actor.scope_keys in
          elim (Bool-cases (is_active actor m && includes keys "weldall:mcp")) [
            | inr denied ↦ ground (arith, e, denied)
            | inl passed ↦
                let same : record actor { scope_keys = keys } ≡ live = ground (arith, e, passed) in
                rw (← same) (
                  includes-Holds keys "weldall:mcp" (ground arith),
                  refl,
                  Any-map_pred _ _ db.machines
                      (λ x p.
                        subst
                          (λ y.
                            (y.id ≡ actor.id) × (is_active actor y ≡ true) × IsBounded y actor keys)
                          (sym p.0)
                          (
                            (eq_iff m.id actor.id).0 p.1,
                            ground arith,
                            still_allowed-Bounded m.allowed_scopes actor.scope_keys,
                          ))
                      (find_first-some (λ (m : Machine). m.id == actor.id) db.machines m e),
                )
          ]
    ]
read_actor-IsLive (for_user actor email read_scopes) db live h =
    elim (Option-cases (find_first (λ (u : User). u.id == actor.id) db.users)) [
      | inl e ↦ ground (arith, e)
      | inr (u, e) ↦ elim (Bool-cases (u.email == email)) [
        | inr other ↦ ground (arith, e, other)
        | inl kept ↦ elim (Option-cases (read_scopes db)) [
          | inl gone ↦ ground (arith, e, kept, gone)
          | inr (keys, got) ↦
              let same : record actor { scope_keys = keys } ≡ live = ground (arith, e, kept, got) in
              (
                got ∙ ap (λ (a : Actor). some a.scope_keys) same,
                ap (λ (a : Actor). a.id) (sym same),
                Any-map_pred _ _ db.users
                    (λ x p.
                      subst (λ y. (y.id ≡ actor.id) × (y.email ≡ email)) (sym p.0)
                        ((eq_iff u.id actor.id).0 p.1, (eq_iff u.email email).0 kept))
                    (find_first-some (λ (v : User). v.id == actor.id) db.users u e),
              )
        ]
      ]
    ]
