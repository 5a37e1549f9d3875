-- ===== src/Mcp/ToolCache/Entries.antt =====
-- The entries of the tool cache and their byte count: what `remove`, the sweep, the hit and the
-- eviction loop keep of them.
use Prim.Native.String.{len}
use weldall.Prelude.{
  ℕ, zero, suc, ◌+◌, ◌≤◌, ◌<◌, ◌≡◌, refl, ◌≢◌, inl, inr, ◌||◌, ◌∙◌, String, true, none, some, List,
  [], ◌∷◌, arith, ltb, leb, leb→le, length, All, lookup, delete, insert, IsDistinct, eq_iff,
  lookup-delete, lookup-insert, delete_absent, IsDistinct-delete, IsDistinct-insert,
  length-insert_absent, Bool-cases, Option-cases,
}
use weldall.Mcp.ToolCache.{
  Bounds, Entry, Cache, remove, expire, touch, remove_first, evict, add_entry, store,
}

unfoldable pub total : List (String × Entry) → ℕ
total [] = 0
total ((_, e) ∷ m) = e.bytes + total m

total-delete :
    (k : String) (m : List (String × Entry)) (e : Entry)
    → lookup k m ≡ some e
    → IsDistinct m
    → total (delete k m) + e.bytes ≡ total m
unfolding total lookup delete
total-delete k [] e h d = ground arith
total-delete k ((i, w) ∷ m) e h d =
    ground (arith, total-delete k m e, delete_absent k m, eq_iff i k)

length-delete :
    (k : String) (m : List (String × Entry)) (e : Entry)
    → lookup k m ≡ some e
    → IsDistinct m
    → suc (length (delete k m)) ≡ length m
unfolding lookup delete
length-delete k [] e h d = ground arith
length-delete k ((i, w) ∷ m) e h d =
    ground (arith, length-delete k m e, delete_absent k m, eq_iff i k)

total-insert :
    (k : String) (e : Entry) (m : List (String × Entry))
    → lookup k m ≡ none
    → total (insert k e m) ≡ total m + e.bytes
unfolding total lookup insert
total-insert k e [] h = omega arith
total-insert k e ((i, w) ∷ m) h = ground (arith, total-insert k e m)

abbrev pub IsSized : String × Entry → Type 0
IsSized (_, e) = e.bytes ≡ len e.json

All-delete : (k : String) (m : List (String × Entry)) → All IsSized m → All IsSized (delete k m)
unfolding delete
All-delete k [] h = tt
All-delete k ((i, w) ∷ m) h = ground (arith, All-delete k m)

All-insert :
    (k : String) (e : Entry) (m : List (String × Entry))
    → IsSized (k, e)
    → All IsSized m
    → All IsSized (insert k e m)
unfolding insert
All-insert k e [] p h = (p, tt)
All-insert k e ((i, w) ∷ m) p h = ground (arith, All-insert k e m)

lookup-IsSized :
    (k : String) (e : Entry) (m : List (String × Entry))
    → All IsSized m
    → lookup k m ≡ some e
    → e.bytes ≡ len e.json
unfolding lookup
lookup-IsSized k e [] h p = ground arith
lookup-IsSized k e ((i, w) ∷ m) h p = ground (arith, lookup-IsSized k e m)

-- The count is the sum of the entries' sizes, and both limits hold.
pub record IsSound (b : Bounds) (c : Cache) : Type 0 where
  pub distinct : IsDistinct c.entries
  pub sum : c.bytes ≡ total c.entries
  pub room : length c.entries ≤ b.max_entries
  pub fits : c.bytes ≤ b.max_bytes
  pub sized : All IsSized c.entries

-- `c'` differs from `c` at most by entries that are gone or moved.
pub record Shrinks (c c' : Cache) : Type 0 where
  pub absent : (k : String) → lookup k c.entries ≡ none → lookup k c'.entries ≡ none
  pub flights : c'.flights ≡ c.flights
  pub pool : c'.pool ≡ c.pool
  pub in_flight : c'.in_flight ≡ c.in_flight
  pub next_id : c'.next_id ≡ c.next_id

-- The same, but `key` may have become present.
pub record Frame (key : String) (c c' : Cache) : Type 0 where
  pub absent : (k : String) → key ≢ k → lookup k c.entries ≡ none → lookup k c'.entries ≡ none
  pub flights : c'.flights ≡ c.flights
  pub pool : c'.pool ≡ c.pool
  pub in_flight : c'.in_flight ≡ c.in_flight
  pub next_id : c'.next_id ≡ c.next_id

pub Frame-refl : (key : String) (c : Cache) → Frame key c c
Frame-refl key c = record {
  absent = λ k _ h. h;
  flights = refl;
  pool = refl;
  in_flight = refl;
  next_id = refl;
}

pub Shrinks-refl : (c : Cache) → Shrinks c c
Shrinks-refl c = record {
  absent = λ k h. h;
  flights = refl;
  pool = refl;
  in_flight = refl;
  next_id = refl;
}

pub Shrinks-trans : {c d e : Cache} → Shrinks c d → Shrinks d e → Shrinks c e
Shrinks-trans s t = record {
  absent = λ k h. t.absent k (s.absent k h);
  flights = t.flights ∙ s.flights;
  pool = t.pool ∙ s.pool;
  in_flight = t.in_flight ∙ s.in_flight;
  next_id = t.next_id ∙ s.next_id;
}

remove-Shrinks : (k : String) (c : Cache) → Shrinks c (remove k c)
unfolding remove
remove-Shrinks k c = elim (Option-cases (lookup k c.entries)) [
  | inl e ↦ rw (e, remove) (Shrinks-refl c)
  | inr (w, e) ↦
      rw (e, remove)
        (record {
          absent = λ j h. ground (arith, lookup-delete k j c.entries);
          flights = refl;
          pool = refl;
          in_flight = refl;
          next_id = refl;
        })
]

module _ (b : Bounds) where
  remove-IsSound : (k : String) (c : Cache) → IsSound b c → IsSound b (remove k c)
  unfolding remove
  remove-IsSound k c v = elim (Option-cases (lookup k c.entries)) [
    | inl e ↦ rw (e, remove) v
    | inr (w, e) ↦
        rw (e, remove)
          (record {
            distinct = IsDistinct-delete k c.entries v.distinct;
            sum = omega (arith, total-delete k c.entries w e v.distinct, v.sum);
            room = omega (arith, length-delete k c.entries w e v.distinct, v.room);
            fits = omega (arith, v.fits);
            sized = All-delete k c.entries v.sized;
          })
  ]

  pub expire-Shrinks :
      (now : ℕ) (m : List (String × Entry)) (c : Cache) → Shrinks c (expire now m c)
  unfolding expire
  expire-Shrinks now [] c = Shrinks-refl c
  expire-Shrinks now ((k, e) ∷ m) c = elim (Bool-cases (leb e.expires_at now)) [
    | inl p ↦ rw p (Shrinks-trans (remove-Shrinks k c) (expire-Shrinks now m (remove k c)))
    | inr p ↦ rw p (expire-Shrinks now m c)
  ]

  pub expire-IsSound :
      (now : ℕ) (m : List (String × Entry)) (c : Cache) → IsSound b c → IsSound b (expire now m c)
  unfolding expire
  expire-IsSound now [] c v = v
  expire-IsSound now ((k, e) ∷ m) c v = elim (Bool-cases (leb e.expires_at now)) [
    | inl p ↦ rw p (expire-IsSound now m (remove k c) (remove-IsSound k c v))
    | inr p ↦ rw p (expire-IsSound now m c v)
  ]

  pub touch-IsSound :
      (k : String) (e : Entry) (c : Cache)
      → lookup k c.entries ≡ some e
      → IsSound b c
      → IsSound b (touch k e c)
  unfolding touch
  touch-IsSound k e c h v =
      let gone : lookup k (delete k c.entries) ≡ none =
        ground (arith, lookup-delete k k c.entries, eq_iff k k) in
      record {
        distinct =
            IsDistinct-insert k e (delete k c.entries) (IsDistinct-delete k c.entries v.distinct);
        sum = omega (
          arith,
          total-delete k c.entries e h v.distinct,
          total-insert k e (delete k c.entries) gone,
          v.sum,
        );
        room = omega (
          arith,
          length-delete k c.entries e h v.distinct,
          length-insert_absent k e (delete k c.entries) gone,
          v.room,
        );
        fits = v.fits;
        sized =
            All-insert k e (delete k c.entries) (lookup-IsSized k e c.entries v.sized h)
              (All-delete k c.entries v.sized);
      }

  remove_first-Shrinks : (m : List (String × Entry)) (c : Cache) → Shrinks c (remove_first m c)
  unfolding remove_first
  remove_first-Shrinks [] c = Shrinks-refl c
  remove_first-Shrinks ((k, _) ∷ m) c = remove-Shrinks k c

  remove_first-IsSound :
      (m : List (String × Entry)) (c : Cache) → IsSound b c → IsSound b (remove_first m c)
  unfolding remove_first
  remove_first-IsSound [] c v = v
  remove_first-IsSound ((k, _) ∷ m) c v = remove-IsSound k c v

  remove_first-shorter :
      (m : List (String × Entry)) (c : Cache)
      → m ≡ c.entries
      → 0 < length m
      → IsSound b c
      → suc (length (remove_first m c).entries) ≡ length c.entries
  unfolding remove_first remove
  remove_first-shorter [] c e p v = absurd (omega arith)
  remove_first-shorter ((k, w) ∷ m) c e p v =
      let found : lookup k c.entries ≡ some w =
        rw (← e) (unfold lookup in ground (arith, eq_iff k k)) in
      rw (found, remove) (length-delete k c.entries w found v.distinct)

  total_of_empty : (m : List (String × Entry)) → length m ≡ 0 → total m ≡ 0
  unfolding total
  total_of_empty [] h = refl
  total_of_empty (_ ∷ m) h = absurd (omega arith)

  nonempty :
      (size : ℕ) (c : Cache)
      → IsSound b c
      → 0 < b.max_entries
      → size ≤ b.max_bytes
      → (leb b.max_entries (length c.entries) || ltb b.max_bytes (c.bytes + size)) ≡ true
      → 0 < length c.entries
  nonempty size c v pos small full = ground (arith, total_of_empty c.entries, v.sum)

  -- Whatever the entries are, a sound cache needs one round of the loop for each entry at most.
  evict_lem :
      (fuel size : ℕ) (c : Cache)
      → IsSound b c
      → 0 < b.max_entries
      → size ≤ b.max_bytes
      → length c.entries < fuel
      → (c' : Cache) × (evict b fuel size c ≡ some c')
        × IsSound b c'
        × Shrinks c c'
        × (length c'.entries < b.max_entries)
        × (c'.bytes + size ≤ b.max_bytes)
  unfolding evict
  evict_lem zero size c v pos small enough = absurd (omega arith)
  evict_lem (suc fuel) size c v pos small enough =
      elim (Bool-cases (leb b.max_entries (length c.entries) || ltb b.max_bytes (c.bytes + size))) [
        | inr done ↦ (c, rw done refl, v, Shrinks-refl c, ground arith, ground arith)
        | inl full ↦
            let shorter =
              remove_first-shorter c.entries c refl (nonempty size c v pos small full) v in
            let (c', e, v', s, r, f) =
              evict_lem fuel size (remove_first c.entries c) (remove_first-IsSound c.entries c v)
                pos small (omega arith) in
            (c', rw full e, v', Shrinks-trans (remove_first-Shrinks c.entries c) s, r, f)
      ]

  add_entry-IsSound :
      (now : ℕ) (key json : String) (c : Cache)
      → IsSound b c
      → lookup key c.entries ≡ none
      → length c.entries < b.max_entries
      → c.bytes + len json ≤ b.max_bytes
      → IsSound b (add_entry b now key json c)
  unfolding add_entry
  add_entry-IsSound now key json c v gone room fits =
      let e : Entry = record { json = json; bytes = len json; expires_at = now + b.ttl_ms } in
      record {
        distinct = IsDistinct-insert key e c.entries v.distinct;
        sum = omega (arith, total-insert key e c.entries gone, v.sum);
        room = omega (arith, length-insert_absent key e c.entries gone);
        fits = fits;
        sized = All-insert key e c.entries refl v.sized;
      }

  add_entry-Frame :
      (now : ℕ) (key json : String) (c d : Cache)
      → Shrinks c d
      → Frame key c (add_entry b now key json d)
  unfolding add_entry
  add_entry-Frame now key json c d s = record {
    absent = λ k ne h. ground (
      arith,
      lookup-insert key k (record { json = json; bytes = len json; expires_at = now + b.ttl_ms })
          d.entries,
      eq_iff key k,
      s.absent k h,
    );
    flights = s.flights;
    pool = s.pool;
    in_flight = s.in_flight;
    next_id = s.next_id;
  }

  -- Storing a catalog always ends, keeps the limits and the count, and leaves what was absent
  -- absent, but for the key itself.
  pub store_lem :
      (now : ℕ) (key json : String) (c : Cache)
      → IsSound b c
      → 0 < b.max_entries
      → lookup key c.entries ≡ none
      → (c' : Cache) × (store b now key json c ≡ some c') × IsSound b c' × Frame key c c'
  unfolding store
  store_lem now key json c v pos gone = elim (Bool-cases (leb (len json) b.max_bytes)) [
    | inr big ↦ (c, rw big refl, v, Frame-refl key c)
    | inl small ↦
        let (d, e, w, s, r, f) =
          evict_lem (suc (length c.entries)) (len json) c v pos (leb→le _ _ small) (omega arith) in
        (
          add_entry b now key json d,
          rw (small, e) refl,
          add_entry-IsSound now key json d w (s.absent key gone) r f,
          add_entry-Frame now key json c d s,
        )
  ]
