-- ===== src/Mcp/ToolCache/Tests.antt =====
-- Runs of the tool cache, and its theorems at concrete states.
use weldall.Prelude.{ℕ, ◌<◌, ◌≡◌, refl, false, some, List, [], ◌∷◌, arith, lookup, insert, delete}
use weldall.Mcp.ToolCache.{
  Bounds, Entry, running, loaded, settled, Flight, Cache, miss, coalesced, cached, waiting, Event,
  call, lands, finishes, leaves, empty, get_or_load, land, evict, run, is_valid_bounds, find,
  modify, expire, start, join, take_off, touch, store, add_entry, set_phase, land_if_running,
  finish_if_loaded, finish, leave, step, remove,
}
use weldall.Mcp.ToolCache.Invariant.{IsValid}
use weldall.Mcp.ToolCache.Steps.{run_lem, get_or_load-IsValid, empty-IsValid}
use weldall.Mcp.ToolCache.Replies.{
  cached-IsFresh, get_or_load-coalesces, land-cached, run-single_load,
}

abbrev small : Bounds
small = record { ttl_ms = 100; max_entries = 1; max_bytes = 20; max_in_flight = 2 }

-- Two callers share the load of "k1", then a load of "k2" evicts its catalog.
abbrev shared : List Event
shared =
    call 0 "k1" false
    ∷ call 1 "k1" false
    ∷ lands 5 0 (some "[1,2,3]") false
    ∷ finishes 0
    ∷ leaves 0
    ∷ leaves 0
    ∷ call 6 "k2" false
    ∷ []

abbrev flying : Flight
flying = record { id = 0; key = "k1"; phase = running; aborted = false; waiters = 1 }

abbrev loading : Cache
loading = record {
  entries = [];
  flights = ("k1", 0) ∷ [];
  pool = flying ∷ [];
  bytes = 0;
  in_flight = 1;
  next_id = 1;
}

abbrev catalog : Entry
catalog = record { json = "[1,2,3]"; bytes = 7; expires_at = 105 }

abbrev landed : Cache
landed = record {
  entries = ("k1", catalog) ∷ [];
  flights = ("k1", 0) ∷ [];
  pool = record flying { phase = loaded (some "[1,2,3]") } ∷ [];
  bytes = 7;
  in_flight = 1;
  next_id = 1;
}

-- The second caller shared the load, and the later load of "k2" runs beside the cached "k1".
run-shared :
    run small shared empty
    ≡ some (record {
      entries = ("k1", catalog) ∷ [];
      flights = ("k2", 1) ∷ [];
      pool =
          record { id = 1; key = "k2"; phase = running; aborted = false; waiters = 1 }
          ∷ record flying { phase = settled (some "[1,2,3]"); waiters = 0 }
          ∷ [];
      bytes = 7;
      in_flight = 1;
      next_id = 2;
    })
unfolding run step get_or_load start join take_off land_if_running land store evict add_entry
    set_phase finish_if_loaded finish leave touch expire remove find modify lookup insert delete
    empty
run-shared = refl

run_lem_example : (c : Cache) × (run small shared empty ≡ some c) × IsValid small c
unfolding is_valid_bounds
run_lem_example = run_lem small shared refl

cached-IsFresh_example :
    (e : Entry) × (lookup "k1" landed.entries ≡ some e) × (50 < e.expires_at) × ("[1,2,3]" ≡ e.json)
unfolding get_or_load expire lookup
cached-IsFresh_example = cached-IsFresh small 50 "k1" "[1,2,3]" false landed refl

get_or_load-coalesces_example :
    (get_or_load small 90 "k1" false (get_or_load small 0 "k1" false empty).1).0
    ≡ waiting coalesced 0
unfolding get_or_load start join expire lookup empty
get_or_load-coalesces_example = get_or_load-coalesces small 0 90 0 "k1" miss empty refl

loading-IsValid : IsValid small loading
unfolding get_or_load start join take_off expire lookup insert modify find empty
loading-IsValid = get_or_load-IsValid small 0 "k1" false empty (empty-IsValid small)

land-cached_example : (get_or_load small 104 "k1" false landed).0 ≡ cached "[1,2,3]"
unfolding land store evict add_entry set_phase lookup insert modify find
land-cached_example =
    land-cached small 5 104 0 flying "[1,2,3]" loading landed loading-IsValid (omega arith) refl
      refl refl (omega arith) (omega arith) refl

run-single_load_example : ◌≡◌ {A = ℕ} 0 0
unfolding is_valid_bounds run step get_or_load start join take_off expire lookup insert modify find
    empty
run-single_load_example =
    run-single_load small (call 0 "k1" false ∷ []) loading 0 0 flying flying refl refl refl refl
      refl refl refl refl refl
