-- ===== src/Mcp/ToolCache.antt =====
-- apps/weldall/src/server/mcp/tool-cache.ts, createMemoryMcpToolCache: one function for each part
-- of `getOrLoad` that runs without a wait. Times are whole milliseconds, and one reading of the
-- clock serves a part. A flight stands for its `Flight` object and its AbortController.
pub mod Entries
pub mod Pool
pub mod Invariant
pub mod Steps
pub mod Replies
mod Tests
use Prim.Native.String.{len}
use weldall.Prelude.{
  ℕ, zero, suc, ◌+◌, ◌-◌, String, Bool, true, false, ◌&&◌, ◌||◌, Option, none, some, List, [], ◌∷◌,
  ltb, leb, nat_eq, if◌then◌else◌, length, lookup, delete, insert,
}

pub record Bounds : Type 0 where
  pub ttl_ms : ℕ
  pub max_entries : ℕ
  pub max_bytes : ℕ
  pub max_in_flight : ℕ

-- The test of the constructor's arguments, which are safe integers here.
unfoldable pub is_valid_bounds : Bounds → Bool
is_valid_bounds b =
    ltb 0 b.ttl_ms && ltb 0 b.max_entries && ltb 0 b.max_bytes && ltb 0 b.max_in_flight

pub record Entry : Type 0 where
  pub json : String
  pub bytes : ℕ
  pub expires_at : ℕ

-- The promise of a flight: the load runs; the load has settled and the flight's `finally` waits;
-- the promise has settled. `none` is a rejection.
pub data Phase : Type 0 where
  running : Phase
  loaded : Option String → Phase
  settled : Option String → Phase

pub record Flight : Type 0 where
  pub id : ℕ
  pub key : String
  pub phase : Phase
  pub aborted : Bool
  pub waiters : ℕ

-- `pool` holds every flight that was made, also those that `flights` no longer names.
pub record Cache : Type 0 where
  pub entries : List (String × Entry)
  pub flights : List (String × ℕ)
  pub pool : List Flight
  pub bytes : ℕ
  pub in_flight : ℕ
  pub next_id : ℕ

pub data Status : Type 0 where
  hit miss coalesced : Status

pub data Reply : Type 0 where
  cancelled : Reply
  rate_limit : Reply
  cached : String → Reply
  waiting : Status → ℕ → Reply

unfoldable pub find : ℕ → List Flight → Option Flight
find i [] = none
find i (f ∷ pool) = if nat_eq f.id i then some f else find i pool

unfoldable pub modify : ℕ → (Flight → Flight) → List Flight → List Flight
modify i g [] = []
modify i g (f ∷ pool) = let rest = modify i g pool in if nat_eq f.id i then g f ∷ pool else f ∷ rest

unfoldable pub empty : Cache
empty = record { entries = []; flights = []; pool = []; bytes = 0; in_flight = 0; next_id = 0 }

unfoldable pub remove : String → Cache → Cache
remove key c = elim (lookup key c.entries) [
  | none ↦ c
  | some entry ↦ record c { entries = delete key c.entries; bytes = c.bytes - entry.bytes }
]

-- The walk over the entries as they are when it starts.
unfoldable pub expire : ℕ → List (String × Entry) → Cache → Cache
expire now [] c = c
expire now ((key, entry) ∷ rest) c =
    expire now rest (if leb entry.expires_at now then remove key c else c)

-- A hit moves the entry to the end of the map.
unfoldable pub touch : String → Entry → Cache → Cache
touch key entry c = record c { entries = insert key entry (delete key c.entries) }

unfoldable pub join : Status → ℕ → Cache → Reply × Cache
join status i c = (
  waiting status i,
  record c { pool = modify i (λ f. record f { waiters = suc f.waiters }) c.pool },
)

unfoldable pub take_off : String → Cache → Cache
take_off key c = record c {
  in_flight = suc c.in_flight;
  pool =
      record { id = c.next_id; key = key; phase = running; aborted = false; waiters = 0 } ∷ c.pool;
  flights = insert key c.next_id c.flights;
  next_id = suc c.next_id;
}

unfoldable pub start : Bounds → String → Cache → Reply × Cache
start b key c = elim (lookup key c.flights) [
  | some i ↦ join coalesced i c
  | none ↦
      if leb b.max_in_flight c.in_flight
      then (rate_limit, c)
      else join miss c.next_id (take_off key c)
]

-- `getOrLoad` up to its first wait. The argument `aborted` is `input.signal.aborted`.
unfoldable pub get_or_load : Bounds → ℕ → String → Bool → Cache → Reply × Cache
get_or_load b now key true c = (cancelled, c)
get_or_load b now key false c =
    let swept = expire now c.entries c in
    elim (lookup key swept.entries) [
      | some entry ↦ (cached entry.json, touch key entry swept)
      | none ↦ start b key swept
    ]

remove_first : List (String × Entry) → Cache → Cache
remove_first [] c = c
remove_first ((key, _) ∷ _) c = remove key c

-- `while (entries.size >= maxEntries || bytes + size > maxBytes) remove(first key)`; `none` when
-- the fuel is used up.
unfoldable pub evict : Bounds → ℕ → ℕ → Cache → Option Cache
unfolding remove_first
evict b zero size c = none
evict b (suc fuel) size c =
    let rest = evict b fuel size (remove_first c.entries c) in
    if leb b.max_entries (length c.entries) || ltb b.max_bytes (c.bytes + size)
    then rest
    else some c

unfoldable pub add_entry : Bounds → ℕ → String → String → Cache → Cache
add_entry b now key json c = record c {
  entries =
      insert key (record { json = json; bytes = len json; expires_at = now + b.ttl_ms }) c.entries;
  bytes = c.bytes + len json;
}

-- The caching part of the second `then`. The loop removes one entry a round.
unfoldable pub store : Bounds → ℕ → String → String → Cache → Option Cache
store b now key json c =
    if leb (len json) b.max_bytes
    then (elim (evict b (suc (length c.entries)) (len json) c) [
      | none ↦ none
      | some roomy ↦ some (add_entry b now key json roomy)
    ])
    else some c

unfoldable pub set_phase : ℕ → Phase → Cache → Cache
set_phase i phase c = record c { pool = modify i (λ f. record f { phase = phase }) c.pool }

-- The two `then`s: `result` is what the load gave, `none` for a rejection; `timed_out` is the
-- flight's time limit. An aborted flight stores nothing.
unfoldable pub land : Bounds → ℕ → Flight → Option String → Bool → Cache → Option Cache
land b now f none timed_out c = some (set_phase f.id (loaded none) c)
land b now f (some json) timed_out c =
    if f.aborted || timed_out
    then some (set_phase f.id (loaded none) c)
    else elim (store b now f.key json c) [
      | none ↦ none
      | some stored ↦ some (set_phase f.id (loaded (some json)) stored)
    ]

-- Deletes the map's entry for `key` if it still names flight `i`.
unfoldable pub unmap : String → ℕ → List (String × ℕ) → List (String × ℕ)
unmap key i flights = elim (lookup key flights) [
  | none ↦ flights
  | some j ↦ if nat_eq j i then delete key flights else flights
]

-- The flight's `finally`.
unfoldable pub finish : Flight → Option String → Cache → Cache
finish f result c = record c {
  in_flight = c.in_flight - 1;
  flights = unmap f.key f.id c.flights;
  pool = modify f.id (λ g. record g { phase = settled result }) c.pool;
}

abbrev names : String → ℕ → List (String × ℕ) → Bool
names key i flights = elim (lookup key flights) [ none ↦ false | some j ↦ nat_eq j i ]

-- A waiter's `finally`: the last one to leave a flight that is still named aborts it.
unfoldable pub leave : Flight → Cache → Cache
unfolding unmap
leave f c =
    if nat_eq (f.waiters - 1) 0 && names f.key f.id c.flights
    then record c {
      flights = delete f.key c.flights;
      pool = modify f.id (λ g. record g { waiters = g.waiters - 1; aborted = true }) c.pool;
    }
    else record c { pool = modify f.id (λ g. record g { waiters = g.waiters - 1 }) c.pool }

-- What the event loop runs next. An event that its flight is not ready for does nothing.
pub data Event : Type 0 where
  call : ℕ → String → Bool → Event
  lands : ℕ → ℕ → Option String → Bool → Event
  finishes : ℕ → Event
  leaves : ℕ → Event

unfoldable pub land_if_running :
    Bounds → ℕ → Phase → Flight → Option String → Bool → Cache → Option Cache
land_if_running b now running f result timed_out c = land b now f result timed_out c
land_if_running b now (loaded _) f result timed_out c = some c
land_if_running b now (settled _) f result timed_out c = some c

unfoldable pub finish_if_loaded : Phase → Flight → Cache → Cache
finish_if_loaded running f c = c
finish_if_loaded (loaded result) f c = finish f result c
finish_if_loaded (settled _) f c = c

unfoldable pub step : Bounds → Event → Cache → Option Cache
step b (call now key aborted) c = some (get_or_load b now key aborted c).1
step b (lands now i result timed_out) c = elim (find i c.pool) [
  | none ↦ some c
  | some f ↦ land_if_running b now f.phase f result timed_out c
]
step b (finishes i) c = elim (find i c.pool) [
  | none ↦ some c
  | some f ↦ some (finish_if_loaded f.phase f c)
]
step b (leaves i) c = elim (find i c.pool) [
  | none ↦ some c
  | some f ↦ if nat_eq f.waiters 0 then some c else some (leave f c)
]

unfoldable pub run : Bounds → List Event → Cache → Option Cache
run b [] c = some c
run b (e ∷ es) c = elim (step b e c) [ none ↦ none | some c' ↦ run b es c' ]
