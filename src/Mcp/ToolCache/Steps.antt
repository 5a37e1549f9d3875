-- ===== src/Mcp/ToolCache/Steps.antt =====
-- Every event keeps the invariant of the tool cache, and no event fails.

use weldall.Prelude.{
  ℕ, ◌-◌, ◌<◌, ◌≡◌, ◌≢◌, refl, ap, ◌⊎◌, inl, inr, ◌||◌, ◌&&◌, String, Bool, true, false, Option,
  none, some, List, [], ◌∷◌, arith, leb, nat_eq, if◌then◌else◌, lookup, delete, eq_iff,
  lookup-delete, Bool-cases, Option-cases,
}
use weldall.Mcp.ToolCache.{
  Bounds, Phase, running, loaded, settled, Flight, Cache, find, modify, touch, join, take_off,
  start, get_or_load, set_phase, expire, names, finish, leave, land, land_if_running,
  finish_if_loaded, Event, call, lands, finishes, leaves, step, run, empty, is_valid_bounds,
}
use weldall.Mcp.ToolCache.Entries.{
  IsSound, total, Shrinks, Shrinks-refl, Frame, Frame-refl, expire-Shrinks, expire-IsSound,
  touch-IsSound, store_lem,
}
use weldall.Mcp.ToolCache.Invariant.{
  IsTracked, IsValid, lookup-unmap, Shrinks-IsTracked, touch-Shrinks, start-IsTracked,
}
use weldall.Mcp.ToolCache.Pool.{unsettled, find-modify, find-modify_inv, unsettled-modify, find-id}

module _ (b : Bounds) where
  start-IsSound : (k : String) (c : Cache) → IsSound b c → IsSound b (start b k c).1
  unfolding start join take_off
  start-IsSound k c v = elim (Option-cases (lookup k c.flights)) [
    | inr (i, e) ↦
        rw (e, start)
          (record {
            distinct = v.distinct;
            sum = v.sum;
            room = v.room;
            fits = v.fits;
            sized = v.sized;
          })
    | inl e ↦ elim (Bool-cases (leb b.max_in_flight c.in_flight)) [
      | inl full ↦ rw (e, start) (rw full v)
      | inr space ↦
          rw (e, start)
            (rw space (record {
              distinct = v.distinct;
              sum = v.sum;
              room = v.room;
              fits = v.fits;
              sized = v.sized;
            }))
    ]
  ]

  pub get_or_load-IsValid :
      (now : ℕ) (k : String) (aborted : Bool) (c : Cache)
      → IsValid b c
      → IsValid b (get_or_load b now k aborted c).1
  unfolding get_or_load
  get_or_load-IsValid now k true c v = v
  get_or_load-IsValid now k false c v =
      let swept = expire now c.entries c in
      let sound = expire-IsSound b now c.entries c v.sound in
      let tracked = Shrinks-IsTracked b c swept (expire-Shrinks b now c.entries c) v.tracked in
      elim (Option-cases (lookup k swept.entries)) [
        | inl e ↦
            rw (e, get_or_load)
              (record {
                sound = start-IsSound k swept sound;
                tracked = start-IsTracked b k swept e tracked;
              })
        | inr (entry, e) ↦
            rw (e, get_or_load)
              (record {
                sound = touch-IsSound b k entry swept e sound;
                tracked =
                    Shrinks-IsTracked b swept (touch k entry swept)
                      (touch-Shrinks b k entry swept e) tracked;
              })
      ]

  absent_after :
      (i n : ℕ) (f g : Flight) (c d : Cache)
      → find i c.pool ≡ some f
      → f.phase ≡ running
      → find n c.pool ≡ some g
      → g.phase ≡ running
      → g.aborted ≡ false
      → i ≢ n
      → Frame f.key c d
      → (f.aborted ≡ false) ⊎ Shrinks c d
      → IsTracked b c
      → lookup g.key d.entries ≡ none
  absent_after i n f g c d e p e' p' q' ne s (inr t) v = t.absent g.key (v.covered n g e' p' q').1
  absent_after i n f g c d e p e' p' q' ne s (inl q) v =
      let (named, _) = v.covered i f e p q in
      let (named', gone) = v.covered n g e' p' q' in
      s.absent g.key (λ same. ground (arith, ap (λ k. lookup k c.flights) same)) gone

  abbrev land_in : Option String → Flight → Flight
  land_in r f = record f { phase = loaded r }

  -- The flight of a load that has settled, where the entries changed at its key at most.
  set_phase-IsTracked :
      (i : ℕ) (f : Flight) (r : Option String) (c d : Cache)
      → find i c.pool ≡ some f
      → f.phase ≡ running
      → Frame f.key c d
      → (f.aborted ≡ false) ⊎ Shrinks c d
      → IsTracked b c
      → IsTracked b (set_phase i (loaded r) d)
  unfolding set_phase
  set_phase-IsTracked i f r c d e p s w t = record {
    mapped = λ j n q.
        let m = t.mapped j n (rw (← s.flights) q) in
        record {
          flight = if nat_eq i n then land_in r m.flight else m.flight;
          found =
              rw s.pool (ground (arith, m.found, find-modify (land_in r) (λ _. refl) i n c.pool));
          key = ground (arith, m.key);
          open_phase = ground (arith, m.open_phase);
          not_aborted = ground (arith, m.not_aborted);
          awaited = ground (arith, m.awaited);
        };
    covered = λ n g q u z.
        let (g', found, same) =
          find-modify_inv (land_in r) (λ _. refl) i n c.pool g (rw (← s.pool) q) in
        elim (Bool-cases (nat_eq i n)) [
          | inl at_i ↦ ground (arith, same)
          | inr other ↦
              let g-same : g ≡ g' = ground (arith, same) in
              let found' : find n c.pool ≡ some g = rw g-same found in
              (
                rw s.flights (t.covered n g found' u z).0,
                absent_after i n f g c d e p found' u z (ground arith) s w t,
              )
        ];
    fresh = λ n q.
        rw s.pool
          (ground (arith, t.fresh n, s.next_id, find-modify (land_in r) (λ _. refl) i n c.pool));
    count =
        rw (s.pool, s.in_flight)
          (ground (arith, unsettled-modify (land_in r) i f c.pool e, t.count));
    limit = rw s.in_flight t.limit;
  }

  abbrev settle_in : Option String → Flight → Flight
  settle_in r f = record f { phase = settled r }

  finish-IsTracked :
      (i : ℕ) (f : Flight) (r : Option String) (c : Cache)
      → find i c.pool ≡ some f
      → f.phase ≡ loaded r
      → IsTracked b c
      → IsTracked b (finish f r c)
  unfolding finish
  finish-IsTracked i f r c e p t = rw (find-id i f c.pool e) (record {
    mapped = λ j n q.
        let m = t.mapped j n (ground (arith, lookup-unmap f.key j i c.flights)) in
        record {
          flight = m.flight;
          found = ground (
            arith,
            m.found,
            m.key,
            lookup-unmap f.key j i c.flights,
            eq_iff f.key j,
            find-modify (settle_in r) (λ _. refl) i n c.pool,
          );
          key = m.key;
          open_phase = m.open_phase;
          not_aborted = m.not_aborted;
          awaited = m.awaited;
        };
    covered = λ n g q u z.
        let (g', found, same) = find-modify_inv (settle_in r) (λ _. refl) i n c.pool g q in
        elim (Bool-cases (nat_eq i n)) [
          | inl at_i ↦ ground (arith, same)
          | inr other ↦
              let g-same : g ≡ g' = ground (arith, same) in
              ground (
                arith,
                t.covered n g (rw g-same found),
                lookup-unmap f.key g.key i c.flights,
                eq_iff f.key g.key,
              )
        ];
    fresh = λ n q. ground (arith, t.fresh n, find-modify (settle_in r) (λ _. refl) i n c.pool);
    count = ground (arith, unsettled-modify (settle_in r) i f c.pool e, t.count);
    limit = ground (arith, t.limit);
  })

  abbrev leave_in : Flight → Flight
  leave_in f = record f { waiters = f.waiters - 1 }

  abbrev abort_in : Flight → Flight
  abort_in f = record f { waiters = f.waiters - 1; aborted = true }

  -- The last waiter of a flight that is named.
  leave_last-IsTracked :
      (i : ℕ) (f : Flight) (c : Cache)
      → find i c.pool ≡ some f
      → lookup f.key c.flights ≡ some i
      → IsTracked b c
      → IsTracked b (record c { flights = delete f.key c.flights; pool = modify i abort_in c.pool })
  leave_last-IsTracked i f c e named t = record {
    mapped = λ j n q.
        let m = t.mapped j n (ground (arith, lookup-delete f.key j c.flights)) in
        record {
          flight = m.flight;
          found = ground (
            arith,
            m.found,
            m.key,
            lookup-delete f.key j c.flights,
            eq_iff f.key j,
            find-modify abort_in (λ _. refl) i n c.pool,
          );
          key = m.key;
          open_phase = m.open_phase;
          not_aborted = m.not_aborted;
          awaited = m.awaited;
        };
    covered = λ n g q u z.
        let (g', found, same) = find-modify_inv abort_in (λ _. refl) i n c.pool g q in
        elim (Bool-cases (nat_eq i n)) [
          | inl at_i ↦ ground (arith, same)
          | inr other ↦
              let g-same : g ≡ g' = ground (arith, same) in
              ground (
                arith,
                t.covered n g (rw g-same found),
                lookup-delete f.key g.key c.flights,
                eq_iff f.key g.key,
              )
        ];
    fresh = λ n q. ground (arith, t.fresh n, find-modify abort_in (λ _. refl) i n c.pool);
    count = ground (arith, unsettled-modify abort_in i f c.pool e, t.count);
    limit = t.limit;
  }

  leave_other-IsTracked :
      (i : ℕ) (f : Flight) (c : Cache)
      → find i c.pool ≡ some f
      → 0 < f.waiters
      → (nat_eq (f.waiters - 1) 0 && names f.key i c.flights) ≡ false
      → IsTracked b c
      → IsTracked b (record c { pool = modify i leave_in c.pool })
  leave_other-IsTracked i f c e p stays t = record {
    mapped = λ j n q.
        let m = t.mapped j n q in
        record {
          flight = if nat_eq i n then leave_in m.flight else m.flight;
          found = ground (arith, m.found, find-modify leave_in (λ _. refl) i n c.pool);
          key = ground (arith, m.key);
          open_phase = ground (arith, m.open_phase);
          not_aborted = ground (arith, m.not_aborted);
          awaited = ground (arith, m.awaited, m.found, m.key);
        };
    covered = λ n g q u z.
        let (g', found, same) = find-modify_inv leave_in (λ _. refl) i n c.pool g q in
        ground (arith, same, t.covered n g' found);
    fresh = λ n q. ground (arith, t.fresh n, find-modify leave_in (λ _. refl) i n c.pool);
    count = ground (arith, unsettled-modify leave_in i f c.pool e, t.count);
    limit = t.limit;
  }

  named_of_names :
      (k : String) (i : ℕ) (m : List (String × ℕ)) → names k i m ≡ true → lookup k m ≡ some i
  named_of_names k i m h = ground arith

  leave-IsTracked :
      (i : ℕ) (f : Flight) (c : Cache)
      → find i c.pool ≡ some f
      → 0 < f.waiters
      → IsTracked b c
      → IsTracked b (leave f c)
  unfolding leave
  leave-IsTracked i f c e p t =
      rw (find-id i f c.pool e)
        (elim (Bool-cases (nat_eq (f.waiters - 1) 0 && names f.key i c.flights)) [
          | inl last ↦
              rw last
                (leave_last-IsTracked i f c e (named_of_names f.key i c.flights (ground arith)) t)
          | inr stays ↦ rw stays (leave_other-IsTracked i f c e p stays t)
        ])

  set_phase-IsSound : (i : ℕ) (p : Phase) (c : Cache) → IsSound b c → IsSound b (set_phase i p c)
  unfolding set_phase
  set_phase-IsSound i p c v = record {
    distinct = v.distinct;
    sum = v.sum;
    room = v.room;
    fits = v.fits;
    sized = v.sized;
  }

  finish-IsSound :
      (f : Flight) (r : Option String) (c : Cache) → IsSound b c → IsSound b (finish f r c)
  unfolding finish
  finish-IsSound f r c v = record {
    distinct = v.distinct;
    sum = v.sum;
    room = v.room;
    fits = v.fits;
    sized = v.sized;
  }

  leave-IsSound : (f : Flight) (c : Cache) → IsSound b c → IsSound b (leave f c)
  unfolding leave
  leave-IsSound f c v = elim (Bool-cases (nat_eq (f.waiters - 1) 0 && names f.key f.id c.flights)) [
    | inl e ↦ rw e (record {
      distinct = v.distinct;
      sum = v.sum;
      room = v.room;
      fits = v.fits;
      sized = v.sized;
    })
    | inr e ↦ rw e (record {
      distinct = v.distinct;
      sum = v.sum;
      room = v.room;
      fits = v.fits;
      sized = v.sized;
    })
  ]

  abbrev pub Succeeds : Option Cache → Type 0
  Succeeds r = (c : Cache) × (r ≡ some c) × IsValid b c

  reject-IsValid :
      (i : ℕ) (f : Flight) (c : Cache)
      → find i c.pool ≡ some f
      → f.phase ≡ running
      → IsValid b c
      → IsValid b (set_phase f.id (loaded none) c)
  reject-IsValid i f c e p v = rw (find-id i f c.pool e) (record {
    sound = set_phase-IsSound i (loaded none) c v.sound;
    tracked =
        set_phase-IsTracked i f none c c e p (Frame-refl f.key c) (inr (Shrinks-refl c)) v.tracked;
  })

  pub land-Succeeds :
      (now i : ℕ) (f : Flight) (r : Option String) (timed_out : Bool) (c : Cache)
      → find i c.pool ≡ some f
      → f.phase ≡ running
      → 0 < b.max_entries
      → IsValid b c
      → Succeeds (land b now f r timed_out c)
  unfolding land
  land-Succeeds now i f none timed_out c e p pos v =
      (set_phase f.id (loaded none) c, refl, reject-IsValid i f c e p v)
  land-Succeeds now i f (some json) timed_out c e p pos v =
      elim (Bool-cases (f.aborted || timed_out)) [
        | inl dead ↦ (set_phase f.id (loaded none) c, rw dead refl, reject-IsValid i f c e p v)
        | inr alive ↦
            let (d, stored, sound, frame) =
              store_lem b now f.key json c v.sound pos
                (v.tracked.covered i f e p (ground arith)).1 in
            (
              set_phase f.id (loaded (some json)) d,
              rw (alive, stored) refl,
              rw (find-id i f c.pool e) (record {
                sound = set_phase-IsSound i (loaded (some json)) d sound;
                tracked =
                    set_phase-IsTracked i f (some json) c d e p frame (inl (ground arith))
                      v.tracked;
              }),
            )
      ]

  land_if_running-Succeeds :
      (now i : ℕ) (f : Flight) (p : Phase) (r : Option String) (timed_out : Bool) (c : Cache)
      → find i c.pool ≡ some f
      → f.phase ≡ p
      → 0 < b.max_entries
      → IsValid b c
      → Succeeds (land_if_running b now p f r timed_out c)
  unfolding land_if_running
  land_if_running-Succeeds now i f running r timed_out c e p pos v =
      land-Succeeds now i f r timed_out c e p pos v
  land_if_running-Succeeds now i f (loaded _) r timed_out c e p pos v = (c, refl, v)
  land_if_running-Succeeds now i f (settled _) r timed_out c e p pos v = (c, refl, v)

  finish_if_loaded-IsValid :
      (i : ℕ) (f : Flight) (p : Phase) (c : Cache)
      → find i c.pool ≡ some f
      → f.phase ≡ p
      → IsValid b c
      → IsValid b (finish_if_loaded p f c)
  unfolding finish_if_loaded
  finish_if_loaded-IsValid i f running c e p v = v
  finish_if_loaded-IsValid i f (loaded r) c e p v = record {
    sound = finish-IsSound f r c v.sound;
    tracked = finish-IsTracked i f r c e p v.tracked;
  }
  finish_if_loaded-IsValid i f (settled _) c e p v = v

  pub step-Succeeds :
      (e : Event) (c : Cache) → 0 < b.max_entries → IsValid b c → Succeeds (step b e c)
  unfolding step
  step-Succeeds (call now k aborted) c pos v = (_, refl, get_or_load-IsValid now k aborted c v)
  step-Succeeds (lands now i r timed_out) c pos v = elim (Option-cases (find i c.pool)) [
    | inl e ↦ (c, rw (e, step) refl, v)
    | inr (f, e) ↦
        let (d, same, w) = land_if_running-Succeeds now i f f.phase r timed_out c e refl pos v in
        (d, rw (e, step) same, w)
  ]
  step-Succeeds (finishes i) c pos v = elim (Option-cases (find i c.pool)) [
    | inl e ↦ (c, rw (e, step) refl, v)
    | inr (f, e) ↦ (
      finish_if_loaded f.phase f c,
      rw (e, step) refl,
      finish_if_loaded-IsValid i f f.phase c e refl v,
    )
  ]
  step-Succeeds (leaves i) c pos v = elim (Option-cases (find i c.pool)) [
    | inl e ↦ (c, rw (e, step) refl, v)
    | inr (f, e) ↦ elim (Bool-cases (nat_eq f.waiters 0)) [
      | inl nobody ↦ (c, rw (e, step) (rw nobody refl), v)
      | inr someone ↦ (
        leave f c,
        rw (e, step) (rw someone refl),
        record {
          sound = leave-IsSound f c v.sound;
          tracked = leave-IsTracked i f c e (ground arith) v.tracked;
        },
      )
    ]
  ]

  pub empty-IsValid : IsValid b empty
  unfolding empty find unsettled total lookup
  empty-IsValid = record {
    sound = record {
      distinct = tt;
      sum = refl;
      room = omega arith;
      fits = omega arith;
      sized = tt;
    };
    tracked = record {
      mapped = λ k i h. cc;
      covered = λ i f h p q. cc;
      fresh = λ i h. refl;
      count = refl;
      limit = omega arith;
    };
  }

  run-Succeeds :
      (es : List Event) (c : Cache) → 0 < b.max_entries → IsValid b c → Succeeds (run b es c)
  unfolding run
  run-Succeeds [] c pos v = (c, refl, v)
  run-Succeeds (e ∷ es) c pos v =
      let (d, stepped, w) = step-Succeeds e c pos v in
      let (d', ran, w') = run-Succeeds es d pos w in (d', rw (stepped, run) ran, w')

  -- For accepted bounds, and whatever calls, loads, time-outs and departures the event loop runs
  -- from the empty cache, the eviction loop always ends, and then the byte count is the sum of the
  -- entries' sizes, the limits on entries, bytes and running loads hold, no key stands twice, and
  -- every flight that is named is unsettled, not aborted and awaited.
  pub run_lem :
      (es : List Event)
      → is_valid_bounds b ≡ true
      → (c : Cache) × (run b es empty ≡ some c) × IsValid b c
  unfolding is_valid_bounds
  run_lem es ok = run-Succeeds es empty (ground arith) empty-IsValid
