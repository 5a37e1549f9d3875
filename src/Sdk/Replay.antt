-- ===== src/Sdk/Replay.antt =====
-- packages/sdk/src/replay.ts: the in-memory replay store, and consumeReplay over it. Times are whole
-- milliseconds since the epoch; an expiry of `none` is an invalid date.
pub mod Sweep
pub mod Once
use weldall.Prelude.{
  ℕ, String, Bool, true, false, ◌||◌, Option, none, some, List, [], ◌∷◌, if◌then◌else◌, leb, length,
  ◌==◌, lookup, delete, insert, Result, ok, err,
}
use weldall.Iac.Json.{◌+s◌}

-- The map `values` from keys to expiries.
abbrev pub Store : Type 0
Store = List (String × ℕ)

pub record Call : Type 0 where
  pub now : ℕ
  pub key : String
  pub expires_at : Option ℕ

-- `full` is the error of a store that has reached its capacity.
pub data Reply : Type 0 where
  accepted refused full : Reply

-- The walk over the values as they are when it starts.
unfoldable pub sweep : ℕ → Store → Store → Store
sweep now [] values = values
sweep now ((candidate, expiry) ∷ rest) values =
    sweep now rest (if leb expiry now then delete candidate values else values)

-- `consume` after the sweep.
unfoldable pub admit : ℕ → ℕ → String → Option ℕ → Store → Reply × Store
admit max_entries now key none values = (refused, values)
admit max_entries now key (some t) values =
    if key == "" || leb t now then (refused, values) else elim (lookup key values) [
      | some _ ↦ (refused, values)
      | none ↦
          if leb max_entries (length values)
          then (full, values)
          else (accepted, insert key t values)
    ]

unfoldable pub consume : ℕ → Call → Store → Reply × Store
unfolding sweep admit
consume max_entries c values =
    admit max_entries c.now c.key c.expires_at (sweep c.now values values)

-- A sequence of calls; what they are told does not matter to the store.
unfoldable pub run : ℕ → List Call → Store → Store
unfolding consume
run max_entries [] values = values
run max_entries (c ∷ cs) values = run max_entries cs (consume max_entries c values).1

pub data Namespace : Type 0 where
  dpop id_jag machine_assertion skills : Namespace

abbrev pub namespace_text : Namespace → String
namespace_text dpop = "dpop"
namespace_text id_jag = "id-jag"
namespace_text machine_assertion = "machine-assertion"
namespace_text skills = "skills"

pub data ReplayError : Type 0 where
  temporarily_unavailable replay_detected : ReplayError

abbrev pub answer : Reply → Result ReplayError Unit
answer accepted = ok tt
answer refused = err replay_detected
answer full = err temporarily_unavailable

abbrev pub in_namespace : Namespace → Call → Call
in_namespace namespace c = record c { key = namespace_text namespace +s ":" +s c.key }

-- Without a store the protection is disabled.
unfoldable pub consume_replay :
    ℕ → Namespace → Call → Option Store → Result ReplayError Unit × Option Store
unfolding consume
consume_replay max_entries namespace c none = (ok tt, none)
consume_replay max_entries namespace c (some values) =
    let (reply, after) = consume max_entries (in_namespace namespace c) values in
    (answer reply, some after)
