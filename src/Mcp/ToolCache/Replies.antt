-- ===== src/Mcp/ToolCache/Replies.antt =====
-- What callers of the tool cache get: fresh hits, shared loads, catalogs that stay for their time.
use Prim.Native.String.{len}
use weldall.Prelude.{
  ℕ, suc, ◌+◌, ◌≤◌, ◌<◌, ◌≡◌, refl, ap, ◌⊎◌, inl, inr, String, Bool, true, false, none, some, List,
  [], ◌∷◌, arith, leb, if◌then◌else◌, length, lookup, IsDistinct, ◌==◌, eq_iff, lookup-delete,
  lookup-insert, Option-cases,
}
use weldall.Mcp.ToolCache.{
  Bounds, Entry, running, Flight, Cache, Status, coalesced, cached, waiting, find, join, take_off,
  start, get_or_load, set_phase, expire, remove, land, store, evict, add_entry, run, empty, Event,
  is_valid_bounds,
}
use weldall.Mcp.ToolCache.Entries.{expire-Shrinks}
use weldall.Mcp.ToolCache.Invariant.{IsValid}
use weldall.Mcp.ToolCache.Steps.{run_lem, land-Succeeds}

lookup-remove :
    (k j : String) (c : Cache)
    → lookup j (remove k c).entries ≡ (if k == j then none else lookup j c.entries)
unfolding remove
lookup-remove k j c = elim (Option-cases (lookup k c.entries)) [
  | inl e ↦ rw (e, remove) (ground (arith, eq_iff k j))
  | inr (w, e) ↦ rw (e, remove) (lookup-delete k j c.entries)
]

-- An entry that the sweep leaves was there before, and is not expired if the sweep met it.
lookup-expire :
    (now : ℕ) (m : List (String × Entry)) (c : Cache) (k : String) (e : Entry)
    → lookup k (expire now m c).entries ≡ some e
    → (lookup k c.entries ≡ some e) × (lookup k m ≡ some e → now < e.expires_at)
unfolding expire lookup
lookup-expire now [] c k e h = (h, λ p. cc)
lookup-expire now ((j, w) ∷ m) c k e h =
    let (before, met) =
      lookup-expire now m (if leb w.expires_at now then remove j c else c) k e h in
    ground (arith, before, met, lookup-remove j k c, eq_iff j k)

-- A hit is an entry of the key that has not expired, and its own text.
pub cached-IsFresh :
    (b : Bounds) (now : ℕ) (k json : String) (aborted : Bool) (c : Cache)
    → (get_or_load b now k aborted c).0 ≡ cached json
    → (e : Entry) × (lookup k c.entries ≡ some e) × (now < e.expires_at) × (json ≡ e.json)
unfolding get_or_load start join
cached-IsFresh b now k json true c h = ground arith
cached-IsFresh b now k json false c h =
    elim (Option-cases (lookup k (expire now c.entries c).entries)) [
      | inl e ↦ ground arith
      | inr (w, e) ↦
          let (before, met) = lookup-expire now c.entries c k w e in
          (w, before, met before, ground arith)
    ]

-- The sweep leaves an entry that has not expired.
lookup-expire_fresh :
    (now : ℕ) (m : List (String × Entry)) (c : Cache) (k : String) (e : Entry)
    → IsDistinct m
    → (lookup k m ≡ none) ⊎ (lookup k m ≡ some e)
    → now < e.expires_at
    → lookup k c.entries ≡ some e
    → lookup k (expire now m c).entries ≡ some e
unfolding expire lookup
lookup-expire_fresh now [] c k e d w p h = h
lookup-expire_fresh now ((j, x) ∷ m) c k e d w p h =
    lookup-expire_fresh now m (if leb x.expires_at now then remove j c else c) k e d.1
      (ground (arith, eq_iff j k)) p (ground (arith, eq_iff j k, lookup-remove j k c))

module _ (b : Bounds) (k : String) where
  start_again :
      (c : Cache) (i : ℕ) → lookup k c.flights ≡ some i → (start b k c).0 ≡ waiting coalesced i
  unfolding start join
  start_again c i h = rw (h, start) refl

  flights-start :
      (c : Cache) (s : Status) (i : ℕ)
      → (start b k c).0 ≡ waiting s i
      → (lookup k (start b k c).1.flights ≡ some i) × ((start b k c).1.entries ≡ c.entries)
  unfolding start join take_off
  flights-start c s i h = elim (Option-cases (lookup k c.flights)) [
    | inr (j, e) ↦ ground (arith, e)
    | inl e ↦ ground (arith, e, lookup-insert k k c.next_id c.flights, eq_iff k k)
  ]

  call_when_swept :
      (now : ℕ) (c : Cache)
      → lookup k (expire now c.entries c).entries ≡ none
      → get_or_load b now k false c ≡ start b k (expire now c.entries c)
  unfolding get_or_load
  call_when_swept now c h = rw (h, get_or_load) refl

  call_when_present :
      (now : ℕ) (c : Cache) (w : Entry)
      → lookup k (expire now c.entries c).entries ≡ some w
      → (get_or_load b now k false c).0 ≡ cached w.json
  unfolding get_or_load
  call_when_present now c w h = rw (h, get_or_load) refl

  call_when_absent :
      (now : ℕ) (c : Cache)
      → lookup k c.entries ≡ none
      → get_or_load b now k false c ≡ start b k (expire now c.entries c)
  call_when_absent now c h = call_when_swept now c ((expire-Shrinks b now c.entries c).absent k h)

  joins_named :
      (later : ℕ) (c : Cache) (i : ℕ)
      → lookup k c.entries ≡ none
      → lookup k c.flights ≡ some i
      → (get_or_load b later k false c).0 ≡ waiting coalesced i
  joins_named later c i gone named = rw (call_when_absent later c gone) (
      start_again (expire later c.entries c) i
        (rw (expire-Shrinks b later c.entries c).flights named))

-- While nothing else happens, a second call for a key that is being loaded joins the same flight,
-- whatever the time.
pub get_or_load-coalesces :
    (b : Bounds) (now later i : ℕ) (k : String) (s : Status) (c : Cache)
    → (get_or_load b now k false c).0 ≡ waiting s i
    → (get_or_load b later k false (get_or_load b now k false c).1).0 ≡ waiting coalesced i
get_or_load-coalesces b now later i k s c h =
    let swept = expire now c.entries c in
    elim (Option-cases (lookup k swept.entries)) [
      | inr (w, e) ↦ cc (call_when_present b k now c w e)
      | inl e ↦
          let (named, same) = flights-start b k swept s i (rw (call_when_swept b k now c e) at h) in
          rw (call_when_swept b k now c e)
            (joins_named b k later (start b k swept).1 i (rw same e) named)
    ]

module _ (b : Bounds) (now : ℕ) (key json : String) where
  abbrev entry_of : Entry
  entry_of = record { json = json; bytes = len json; expires_at = now + b.ttl_ms }

  lookup-store :
      (c d : Cache)
      → store b now key json c ≡ some d
      → len json ≤ b.max_bytes
      → lookup key d.entries ≡ some entry_of
  unfolding store add_entry
  lookup-store c d h small = elim (Option-cases (evict b (suc (length c.entries)) (len json) c)) [
    | inl e ↦ ground (arith, e)
    | inr (r, e) ↦ ground (arith, e, lookup-insert key key entry_of r.entries, eq_iff key key)
  ]

-- A catalog that fits, of a load that was neither aborted nor timed out, answers every later call
-- for its key until its time is up, if nothing else happens in between.
pub land-cached :
    (b : Bounds) (now later i : ℕ) (f : Flight) (json : String) (c d : Cache)
    → IsValid b c
    → 0 < b.max_entries
    → find i c.pool ≡ some f
    → f.phase ≡ running
    → f.aborted ≡ false
    → len json ≤ b.max_bytes
    → later < now + b.ttl_ms
    → land b now f (some json) false c ≡ some d
    → (get_or_load b later f.key false d).0 ≡ cached json
unfolding land set_phase get_or_load
land-cached b now later i f json c d v pos e p q small soon h =
    elim (Option-cases (store b now f.key json c)) [
      | inl failed ↦ ground (arith, failed)
      | inr (m, stored) ↦
          let (d', same, w) = land-Succeeds b now i f (some json) false c e p pos v in
          let same-entries : d.entries ≡ m.entries = ground (arith, stored) in
          let found : lookup f.key d.entries ≡ some (entry_of b now f.key json) =
            rw same-entries (lookup-store b now f.key json c m stored small) in
          let distinct : IsDistinct d.entries = let u : d ≡ d' = cc in rw u w.sound.distinct in
          rw
            (
              lookup-expire_fresh later d.entries d f.key (entry_of b now f.key json) distinct
                  (inr found) soon found,
              get_or_load,
            )
            refl
    ]

-- In every state that the event loop reaches, two loads of one key that may still store their
-- catalog are the same load.
pub run-single_load :
    (b : Bounds) (es : List Event) (c : Cache) (i j : ℕ) (f g : Flight)
    → is_valid_bounds b ≡ true
    → run b es empty ≡ some c
    → find i c.pool ≡ some f
    → find j c.pool ≡ some g
    → f.phase ≡ running
    → g.phase ≡ running
    → f.aborted ≡ false
    → g.aborted ≡ false
    → f.key ≡ g.key
    → i ≡ j
run-single_load b es c i j f g ok ran e e' p p' q q' same =
    let (d, ran', v) = run_lem b es ok in
    let at_c : c ≡ d = cc in
    let (named, _) = v.tracked.covered i f (rw at_c at e) p q in
    let (named', _) = v.tracked.covered j g (rw at_c at e') p' q' in
    ground (arith, ap (λ k. lookup k d.flights) same)
