-- ===== src/Cli/Sessions/Reuse.antt =====
-- One refresh serves every caller while its session lasts, and a rotated refresh token is kept.
use weldall.Prelude.{
  ℕ, ◌+◌, ◌<◌, ◌≡◌, refl, sym, ap, ◌∙◌, ◌⊎◌, inl, inr, Bool, true, false, Option, none, some, List,
  [], ◌∷◌, arith, if◌then◌else◌, Bool-cases, Option-cases, All, ltb,
}
use weldall.Cli.Sessions.{
  Version, v1, v2, Credentials, StoredAccessSession, AccessSession, Fresh, Event, reads, enters,
  rotates, refreshed, fails, replaces, Reply, nothing, failed, returns, refreshes, State, usable,
  usable_session, session_of_version, input_from, new_access_session, read, enter, step, run,
}

-- A call that is not aborted and reads, or has its turn at the lock, more than a minute before the limit.
abbrev pub IsAsking : ℕ → Event → Type 0
IsAsking limit (reads now aborted) = (aborted ≡ false) × (now + 60 < limit)
IsAsking limit (enters now aborted) = (aborted ≡ false) × (now + 60 < limit)
IsAsking limit _ = ⊥

abbrev pub IsReading : Event → Type 0
IsReading (reads now aborted) = Unit
IsReading _ = ⊥

abbrev renewed : Fresh → State
renewed fresh = record { store = some (new_access_session fresh).credentials; locked = false }

usable_new :
    (fresh : Fresh) (now : ℕ)
    → now + 60 < fresh.expires_at
    → usable (new_access_session fresh).credentials now ≡ some (new_access_session fresh)
unfolding usable new_access_session input_from
usable_new fresh now h = ground arith

step-asking :
    (fresh : Fresh) (e : Event)
    → IsAsking fresh.expires_at e
    → step e (renewed fresh) ≡ (returns (new_access_session fresh), renewed fresh)
unfolding step read enter
step-asking fresh (reads now aborted) (live, h) = rw live (rw (usable_new fresh now h, read) refl)
step-asking fresh (enters now aborted) (live, h) = rw live (rw (usable_new fresh now h, enter) refl)
step-asking fresh (rotates c) h = absurd h
step-asking fresh (refreshed f) h = absurd h
step-asking fresh fails h = absurd h
step-asking fresh (replaces c) h = absurd h

run-asking :
    (fresh : Fresh) (es : List Event)
    → All (IsAsking fresh.expires_at) es
    → All (λ r. r ≡ returns (new_access_session fresh)) (run es (renewed fresh)).0
unfolding run
run-asking fresh [] hs = tt
run-asking fresh (e ∷ es) (h, hs) = rw (step-asking fresh e h, run) (refl, run-asking fresh es hs)

-- Once a refresh has ended well, and as long as only calls that are not aborted follow, with neither a
-- login nor a logout, every call gets its session, also one that waited for the lock: none of them
-- refreshes again until a minute before the session expires.
pub run-reuses :
    (fresh : Fresh) (es : List Event) (s : State)
    → s.locked ≡ true
    → All (IsAsking fresh.expires_at) es
    → All (λ r. r ≡ returns (new_access_session fresh)) (run es (step (refreshed fresh) s).1).0
unfolding step
run-reuses fresh es s held hs = rw held (run-asking fresh es hs)

usable_session-fresh :
    (c : Credentials) (now : ℕ) (o : Option StoredAccessSession) (a : AccessSession)
    → usable_session c now o ≡ some a
    → (now + 60 < a.session.expires_at) × (a.credentials ≡ c) × (o ≡ some a.session)
usable_session-fresh c now none a h = cc
usable_session-fresh c now (some session) a h =
    elim (Bool-cases (ltb (now + 60) session.expires_at)) [
      | inr e ↦ ground (arith, e)
      | inl e ↦
          let same : ◌≡◌ {A = AccessSession} (record { session = session; credentials = c }) a =
            ground (arith, e) in
          rw (← same) (ground (arith, e), refl, refl)
    ]

-- The session is the one that the credentials hold, which are of version 2, and it lasts.
abbrev pub IsStored : ℕ → AccessSession → Credentials → Type 0
IsStored now a c =
    (a.credentials ≡ c)
    × (c.version ≡ v2)
    × (c.access_session ≡ some a.session)
    × (now + 60 < a.session.expires_at)

of_version :
    (version : Version) (held : Option StoredAccessSession) (session : StoredAccessSession)
    → session_of_version version held ≡ some session
    → (version ≡ v2) × (held ≡ some session)
of_version v1 held session h = cc
of_version v2 held session h = (refl, h)

usable-IsStored :
    (c : Credentials) (now : ℕ) (a : AccessSession) → usable c now ≡ some a → IsStored now a c
unfolding usable
usable-IsStored c now a h =
    let (lasts, same, held) =
      usable_session-fresh c now (session_of_version c.version c.access_session) a h in
    let (version, session) = of_version c.version c.access_session a.session held in
    (same, version, session, lasts)

-- What a reading gives back belongs to what is stored.
abbrev IsFound : ℕ → AccessSession → State → Type 0
IsFound now a s = (c : Credentials) × (s.store ≡ some c) × IsStored now a c

read-returns :
    (now : ℕ) (s : State) (a : AccessSession) → (read now s).0 ≡ returns a → IsFound now a s
unfolding read
read-returns now s a h = elim (Option-cases s.store) [
  | inl e ↦ ground (arith, e)
  | inr (c, e) ↦ elim (Option-cases (usable c now)) [
    | inl e' ↦ ground (arith, e, e')
    | inr (x, e') ↦
        let same : x ≡ a = ground (arith, e, e') in
        (c, e, usable-IsStored c now a (e' ∙ ap some same))
  ]
]

enter-returns :
    (now : ℕ) (s : State) (a : AccessSession) → (enter now s).0 ≡ returns a → IsFound now a s
unfolding enter
enter-returns now s a h = elim (Option-cases s.store) [
  | inl e ↦ ground (arith, e)
  | inr (c, e) ↦ elim (Option-cases (usable c now)) [
    | inl e' ↦ ground (arith, e, e')
    | inr (x, e') ↦
        let same : x ≡ a = ground (arith, e, e') in
        (c, e, usable-IsStored c now a (e' ∙ ap some same))
  ]
]

neither :
    (held gone : Bool) (x y z : Reply × State)
    → held ≡ false
    → gone ≡ false
    → (if held then x else if gone then y else z) ≡ z
neither true gone x y z h k = cc
neither false true x y z h k = cc
neither false false x y z h k = refl

-- A session that a call reads from the store, with the lock or without, is the session that the stored
-- credentials hold, in version 2, comes with these credentials and lasts for more than a minute; and
-- the call was not aborted.
pub step-returns :
    (e : Event) (now : ℕ) (aborted : Bool) (s : State) (a : AccessSession)
    → (e ≡ reads now aborted) ⊎ (e ≡ enters now aborted)
    → (step e s).0 ≡ returns a
    → (aborted ≡ false) × (c : Credentials) × (s.store ≡ some c) × IsStored now a c
unfolding step read enter
step-returns e now true s a (inl is_read) h = cc (rw is_read at h)
step-returns e now false s a (inl is_read) h =
    let (c, there, found) = read-returns now s a (rw is_read at h) in (refl, c, there, found)
step-returns e now aborted s a (inr is_enter) h = elim (Bool-cases s.locked) [
  | inl held ↦ cc (rw held at (rw is_enter at h))
  | inr free ↦ elim (Bool-cases aborted) [
    | inl gone ↦ cc (rw (gone, free) at (rw is_enter at h))
    | inr live ↦
        let (c, there, found) = enter-returns now s a (
          sym (
            ap (λ (p : Reply × State). p.0)
              (neither s.locked aborted (nothing, s) (failed, s) (enter now s) free live))
          ∙ (rw is_enter at h)) in
        (live, c, there, found)
  ]
]

read_same : (now : ℕ) (s : State) → (read now s).1 ≡ s
unfolding read
read_same now s = elim (Option-cases s.store) [
  | inl e ↦ ground (arith, e)
  | inr (c, e) ↦ elim (Option-cases (usable c now)) [
    | inl e' ↦ ground (arith, e, e')
    | inr (x, e') ↦ ground (arith, e, e')
  ]
]

reading_same : (es : List Event) (s : State) → All IsReading es → (run es s).1 ≡ s
unfolding run step read
reading_same [] s hs = refl
reading_same (reads now true ∷ es) s (h, hs) = reading_same es s hs
reading_same (reads now false ∷ es) s (h, hs) =
    ap (λ (t : State). (run es t).1) (read_same now s) ∙ reading_same es s hs
reading_same (enters now aborted ∷ es) s (h, hs) = absurd h
reading_same (rotates c ∷ es) s (h, hs) = absurd h
reading_same (refreshed f ∷ es) s (h, hs) = absurd h
reading_same (fails ∷ es) s (h, hs) = absurd h
reading_same (replaces c ∷ es) s (h, hs) = absurd h

-- A refresh that fails after it has rotated the refresh token leaves the new token to the next
-- caller, and no session: the next call that is not aborted refreshes with the new token.
pub rotates-fails_refreshes :
    (rotated : Credentials) (between after : List Event) (now : ℕ) (s : State)
    → s.locked ≡ true
    → All IsReading between
    → All IsReading after
    → (held : Credentials) × ((step
          (enters now false)
          (run after (step fails (run between (step (rotates rotated) s).1).1).1).1).0
        ≡ refreshes held)
      × (held.refresh_token ≡ rotated.refresh_token)
      × (held.keys ≡ rotated.keys)
unfolding step enter usable input_from
rotates-fails_refreshes rotated between after now s held hs hs' = (
  input_from rotated none true,
  rw held (
      rw (reading_same between _ hs) (
        rw
          (reading_same after
            (record { store = some (input_from rotated none true); locked = false }) hs')
          refl)),
  refl,
  refl,
)
