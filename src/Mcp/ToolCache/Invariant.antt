-- ===== src/Mcp/ToolCache/Invariant.antt =====
-- The invariant of the tool cache: entries, byte count, flights and their number agree.
use weldall.Prelude.{
  ℕ, suc, ◌≤◌, ◌<◌, ◌≡◌, refl, inl, inr, ◌&&◌, String, false, none, some, List, arith, leb, nat_eq,
  if◌then◌else◌, lookup, delete, ◌==◌, eq_iff, lookup-delete, lookup-insert, Bool-cases,
  Option-cases,
}
use weldall.Mcp.ToolCache.{
  Bounds, Entry, running, Flight, Cache, coalesced, miss, find, modify, touch, join, take_off,
  start, unmap, names,
}
use weldall.Mcp.ToolCache.Entries.{IsSound, Shrinks}
use weldall.Mcp.ToolCache.Pool.{load_of, unsettled, find-modify, find-modify_inv, unsettled-modify}

-- A flight that `flights` names is the one it was made for, has not settled, was not aborted, and
-- somebody waits for it.
pub record IsLive (k : String) (i : ℕ) (pool : List Flight) : Type 0 where
  pub flight : Flight
  pub found : find i pool ≡ some flight
  pub key : flight.key ≡ k
  pub open_phase : load_of flight.phase ≡ 1
  pub not_aborted : flight.aborted ≡ false
  pub awaited : 0 < flight.waiters

pub record IsTracked (b : Bounds) (c : Cache) : Type 0 where
  pub mapped : (k : String) (i : ℕ) → lookup k c.flights ≡ some i → IsLive k i c.pool
  -- A load that may still store its catalog is the one that `flights` names, and its key has no
  -- entry.
  pub covered :
      (i : ℕ) (f : Flight)
      → find i c.pool ≡ some f
      → f.phase ≡ running
      → f.aborted ≡ false
      → (lookup f.key c.flights ≡ some i) × (lookup f.key c.entries ≡ none)
  pub fresh : (i : ℕ) → c.next_id ≤ i → find i c.pool ≡ none
  pub count : c.in_flight ≡ unsettled c.pool
  pub limit : c.in_flight ≤ b.max_in_flight

pub record IsValid (b : Bounds) (c : Cache) : Type 0 where
  pub sound : IsSound b c
  pub tracked : IsTracked b c

pub lookup-unmap :
    (key k : String) (i : ℕ) (m : List (String × ℕ))
    → lookup k (unmap key i m) ≡ (if key == k && names key i m then none else lookup k m)
unfolding unmap
lookup-unmap key k i m = ground (arith, lookup-delete key k m)

module _ (b : Bounds) where
  pub Shrinks-IsTracked : (c d : Cache) → Shrinks c d → IsTracked b c → IsTracked b d
  Shrinks-IsTracked c d s t = record {
    mapped = λ k i h. rw s.pool (t.mapped k i (rw (← s.flights) h));
    covered = λ i f h p q.
        let (named, gone) = t.covered i f (rw (← s.pool) h) p q in
        (rw s.flights named, s.absent f.key gone);
    fresh = λ i h. rw s.pool (t.fresh i (rw (← s.next_id) h));
    count = rw (s.in_flight, s.pool) t.count;
    limit = rw s.in_flight t.limit;
  }

  pub touch-Shrinks :
      (k : String) (e : Entry) (c : Cache) → lookup k c.entries ≡ some e → Shrinks c (touch k e c)
  unfolding touch
  touch-Shrinks k e c h = record {
    absent = λ j p.
        ground (
          arith,
          lookup-insert k j e (delete k c.entries),
          lookup-delete k j c.entries,
          eq_iff k j,
        );
    flights = refl;
    pool = refl;
    in_flight = refl;
    next_id = refl;
  }

  abbrev more_waiters : Flight → Flight
  more_waiters f = record f { waiters = suc f.waiters }

  join-IsTracked :
      (k : String) (i : ℕ) (c : Cache)
      → lookup k c.flights ≡ some i
      → IsTracked b c
      → IsTracked b (join coalesced i c).1
  unfolding join
  join-IsTracked k i c h t =
      let l = t.mapped k i h in
      record {
        mapped = λ j n p.
            let m = t.mapped j n p in
            record {
              flight = if nat_eq i n then more_waiters m.flight else m.flight;
              found = ground (arith, m.found, find-modify more_waiters (λ _. refl) i n c.pool);
              key = ground (arith, m.key);
              open_phase = ground (arith, m.open_phase);
              not_aborted = ground (arith, m.not_aborted);
              awaited = ground (arith, m.awaited);
            };
        covered = λ n f p q r.
            let (f', e, same) = find-modify_inv more_waiters (λ _. refl) i n c.pool f p in
            ground (arith, t.covered n f' e);
        fresh = λ n p. ground (arith, t.fresh n, find-modify more_waiters (λ _. refl) i n c.pool);
        count = omega (arith, unsettled-modify more_waiters i l.flight c.pool l.found, t.count);
        limit = t.limit;
      }

  start_miss-IsTracked :
      (k : String) (c : Cache)
      → lookup k c.flights ≡ none
      → lookup k c.entries ≡ none
      → c.in_flight < b.max_in_flight
      → IsTracked b c
      → IsTracked b (join miss c.next_id (take_off k c)).1
  unfolding join take_off modify find unsettled
  start_miss-IsTracked k c h gone space t = record {
    mapped = λ j n p. elim (Bool-cases (k == j)) [
      | inl e ↦ record {
        flight = record { id = c.next_id; key = k; phase = running; aborted = false; waiters = 1 };
        found = ground (arith, lookup-insert k j c.next_id c.flights);
        key = ground (arith, eq_iff k j);
        open_phase = refl;
        not_aborted = refl;
        awaited = omega arith;
      }
      | inr e ↦
          let m = t.mapped j n (ground (arith, lookup-insert k j c.next_id c.flights)) in
          record {
            flight = m.flight;
            found = ground (arith, m.found, t.fresh n);
            key = m.key;
            open_phase = m.open_phase;
            not_aborted = m.not_aborted;
            awaited = m.awaited;
          }
    ];
    covered = λ n f p q r.
        ground (arith, t.covered n f, lookup-insert k f.key c.next_id c.flights, eq_iff k f.key);
    fresh = λ n p. ground (arith, t.fresh n);
    count = ground (arith, t.count);
    limit = ground arith;
  }

  pub start-IsTracked :
      (k : String) (c : Cache)
      → lookup k c.entries ≡ none
      → IsTracked b c
      → IsTracked b (start b k c).1
  unfolding start
  start-IsTracked k c gone t = elim (Option-cases (lookup k c.flights)) [
    | inr (i, e) ↦ rw (e, start) (join-IsTracked k i c e t)
    | inl e ↦ elim (Bool-cases (leb b.max_in_flight c.in_flight)) [
      | inl full ↦ rw (e, start) (rw full t)
      | inr space ↦ rw (e, start) (rw space (start_miss-IsTracked k c e gone (ground arith) t))
    ]
  ]
