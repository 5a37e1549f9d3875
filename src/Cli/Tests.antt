-- ===== src/Cli/Tests.antt =====
-- Two callers of an expired session, and the theorems of its refresh.

use weldall.Prelude.{◌≡◌, refl, inl, none, some, [], ◌∷◌, true, false, arith, All}
use weldall.Cli.Sessions.{
  v1, Credentials, Fresh, reads, enters, rotates, refreshed, fails, failed, returns, waits, nothing,
  refreshes, State, usable, input_from, new_access_session, read, enter, step, run,
}
use weldall.Cli.Sessions.Reuse.{IsStored, run-reuses, step-returns, rotates-fails_refreshes}

abbrev old : Credentials
old = record {
  version = v1;
  keys = "k";
  refresh_token = "r1";
  identity = none;
  access_session = none;
}

abbrev rotated : Credentials
rotated = record old { refresh_token = "r2" }

abbrev fresh : Fresh
fresh = record { access_token = "a"; subject = "s"; expires_at = 1000; credentials = rotated }

abbrev idle : State
idle = record { store = some old; locked = false }

abbrev refreshing : State
refreshing = record idle { locked = true }

-- Both read an old session; the second one finds the first one's session at its turn.
two_callers :
    (run
      (reads 10 false
        ∷ reads 10 false
        ∷ enters 11 false
        ∷ enters 11 false
        ∷ rotates rotated
        ∷ refreshed fresh
        ∷ enters 12 false
        ∷ [])
      idle).0
    ≡ waits
      ∷ waits
      ∷ refreshes old
      ∷ nothing
      ∷ nothing
      ∷ returns (new_access_session fresh)
      ∷ returns (new_access_session fresh)
      ∷ []
unfolding run step read enter usable input_from new_access_session
two_callers = refl

run-reuses_example :
    All
      (λ r. r ≡ returns (new_access_session fresh))
      (run (reads 20 false ∷ enters 30 false ∷ []) (step (refreshed fresh) refreshing).1).0
run-reuses_example =
    run-reuses fresh (reads 20 false ∷ enters 30 false ∷ []) refreshing refl
      ((refl, omega arith), ((refl, omega arith), tt))

abbrev signed_in : State
signed_in = record { store = some (new_access_session fresh).credentials; locked = false }

step-returns_example :
    (false ≡ false)
    × (c : Credentials) × (signed_in.store ≡ some c)
    × IsStored 20 (new_access_session fresh) c
unfolding step read usable input_from new_access_session
step-returns_example =
    step-returns (reads 20 false) 20 false signed_in (new_access_session fresh) (inl refl) refl

-- An aborted caller gets nothing and leaves the lock to the next one.
aborted_turn : (run (enters 10 true ∷ enters 11 false ∷ []) idle).0 ≡ failed ∷ refreshes old ∷ []
unfolding run step enter usable
aborted_turn = refl

rotates-fails_refreshes_example :
    (held : Credentials) × ((step
        (enters 50 false)
        (run
          (reads 41 false ∷ [])
          (step fails (run (reads 40 false ∷ []) (step (rotates rotated) refreshing).1).1).1).1).0
      ≡ refreshes held)
    × (held.refresh_token ≡ "r2")
    × (held.keys ≡ "k")
rotates-fails_refreshes_example =
    rotates-fails_refreshes rotated (reads 40 false ∷ []) (reads 41 false ∷ []) 50 refreshing refl
      (tt, tt) (tt, tt)
