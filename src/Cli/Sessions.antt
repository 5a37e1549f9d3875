-- ===== src/Cli/Sessions.antt =====
-- apps/cli/src/services/session-manager.ts: the callers of one keychain, in any interleaving. A caller
-- reads the store without the lock, or waits for the lock and reads again; the one that refreshes
-- holds it until its refresh has ended. Times are seconds.
pub mod Reuse
use weldall.Prelude.{
  ℕ, ◌+◌, String, Bool, true, false, Option, none, some, List, [], ◌∷◌, if◌then◌else◌, ltb,
}

pub record StoredAccessSession : Type 0 where
  pub access_token : String
  pub subject : String
  pub expires_at : ℕ

pub data Version : Type 0 where
  v1 v2 : Version

-- StoredCredentials: `keys` stands for the two JWKs. Version 1 has no session.
pub record Credentials : Type 0 where
  pub version : Version
  pub keys : String
  pub refresh_token : String
  pub identity : Option String
  pub access_session : Option StoredAccessSession

pub record AccessSession : Type 0 where
  pub session : StoredAccessSession
  pub credentials : Credentials

abbrev pub session_of_version : Version → Option StoredAccessSession → Option StoredAccessSession
session_of_version v1 session = none
session_of_version v2 session = session

-- `inputFrom` with what the store makes of it; a patch is a new session.
unfoldable pub input_from : Credentials → Option StoredAccessSession → Bool → Credentials
input_from credentials patch clear_access_session = record {
  version = v2;
  keys = credentials.keys;
  refresh_token = credentials.refresh_token;
  identity = credentials.identity;
  access_session = elim patch [
    | some session ↦ some session
    | none ↦
        if clear_access_session
        then none
        else session_of_version credentials.version credentials.access_session
  ];
}

abbrev pub usable_session : Credentials → ℕ → Option StoredAccessSession → Option AccessSession
usable_session credentials now none = none
usable_session credentials now (some session) =
    if ltb (now + 60) session.expires_at
    then some (record { session = session; credentials = credentials })
    else none

unfoldable pub usable : Credentials → ℕ → Option AccessSession
usable credentials now =
    usable_session credentials now
      (session_of_version credentials.version credentials.access_session)

-- What `refreshCredentials` returns.
pub record Fresh : Type 0 where
  pub access_token : String
  pub subject : String
  pub expires_at : ℕ
  pub credentials : Credentials

-- `reads` is the first read of a call, `enters` its turn at the lock, each with the time and with
-- whether the caller's signal is aborted at one of the checks there. `rotates`, `refreshed` and
-- `fails` come from the refresh of the caller that holds the lock: a new refresh token, its result,
-- and an error or an abort. `replaces` is a login or a logout.
pub data Event : Type 0 where
  reads : ℕ → Bool → Event
  enters : ℕ → Bool → Event
  rotates : Credentials → Event
  refreshed : Fresh → Event
  fails : Event
  replaces : Option Credentials → Event

pub data Reply : Type 0 where
  returns : AccessSession → Reply
  waits not_logged_in failed nothing : Reply
  refreshes : Credentials → Reply

pub record State : Type 0 where
  pub store : Option Credentials
  pub locked : Bool

unfoldable pub read : ℕ → State → Reply × State
unfolding usable
read now s = elim s.store [
  | none ↦ (waits, s)
  | some credentials ↦ elim (usable credentials now) [
    | none ↦ (waits, s)
    | some session ↦ (returns session, s)
  ]
]

unfoldable pub enter : ℕ → State → Reply × State
unfolding usable
enter now s = elim s.store [
  | none ↦ (not_logged_in, s)
  | some credentials ↦ elim (usable credentials now) [
    | none ↦ (refreshes credentials, record s { locked = true })
    | some session ↦ (returns session, s)
  ]
]

abbrev pub new_session : Fresh → StoredAccessSession
new_session fresh = record {
  access_token = fresh.access_token;
  subject = fresh.subject;
  expires_at = fresh.expires_at;
}

unfoldable pub new_access_session : Fresh → AccessSession
unfolding input_from
new_access_session fresh = record {
  session = new_session fresh;
  credentials = input_from fresh.credentials (some (new_session fresh)) false;
}

unfoldable pub step : Event → State → Reply × State
unfolding read enter input_from new_access_session
step (reads now aborted) s = if aborted then (failed, s) else read now s
step (enters now aborted) s =
    if s.locked then (nothing, s) else if aborted then (failed, s) else enter now s
step (rotates rotated) s =
    if s.locked
    then (nothing, record s { store = some (input_from rotated none true) })
    else (nothing, s)
step (refreshed fresh) s =
    if s.locked
    then (
      returns (new_access_session fresh),
      record { store = some (new_access_session fresh).credentials; locked = false },
    )
    else (nothing, s)
step fails s = if s.locked then (failed, record s { locked = false }) else (nothing, s)
step (replaces credentials) s =
    if s.locked then (nothing, s) else (nothing, record s { store = credentials })

unfoldable pub run : List Event → State → List Reply × State
unfolding step
run [] s = ([], s)
run (e ∷ es) s =
    let (reply, next) = step e s in let (replies, last) = run es next in (reply ∷ replies, last)
