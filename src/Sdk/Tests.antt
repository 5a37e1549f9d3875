-- ===== src/Sdk/Tests.antt =====
-- Runs of the replay store and of the check of JSON values, and their theorems at concrete data.

use weldall.Prelude.{
  ◌≤◌, ◌≡◌, refl, inl, some, [], ◌∷◌, arith, length, lookup, delete, insert, eq_iff, err,
}
use weldall.Sdk.Replay.{
  Call, accepted, refused, full, consume, run, sweep, admit, dpop, consume_replay, in_namespace,
  replay_detected,
}
use Prim.Native.String.{len}
use weldall.Iac.Json.{Json, null, str, obj, field, done, stringify}
use weldall.Sdk.McpJson.{
  mcp_limits, BoundaryError, response_too_large, upstream_protocol_error, assert_mcp_json, walk,
  visit, visit_value, visit_entries, push_entries,
}
use weldall.Sdk.McpJson.Walk.{IsSafe, assert_mcp_json_total, assert_mcp_json-IsSafe}
use weldall.Prelude.{Result, ok}
use weldall.Sdk.Replay.Once.{
  run-consume_refused, length-run-le, consume-accepts, consume_replay-detected,
}

abbrev proof_a : Call
proof_a = record { now = 10; key = "a"; expires_at = some 50 }

abbrev proof_b : Call
proof_b = record { now = 20; key = "b"; expires_at = some 30 }

abbrev later_a : Call
later_a = record { now = 40; key = "a"; expires_at = some 90 }

-- A full store refuses new keys, and makes room once a key has expired.
replies :
    ((consume 1 proof_b (consume 1 proof_a []).1).0 ≡ full)
    × ((consume 1 (record proof_b { now = 60; expires_at = some 70 }) (consume 1 proof_a []).1).0
        ≡ accepted)
    × ((consume 1 later_a (consume 1 proof_a []).1).0 ≡ refused)
unfolding consume sweep admit lookup delete insert
replies = (refl, refl, refl)

run-consume_refused_example :
    (consume 5 later_a (run 5 (proof_b ∷ []) (consume 5 proof_a (run 5 [] [])).1)).0 ≡ refused
unfolding run consume sweep admit lookup delete insert
run-consume_refused_example =
    run-consume_refused 5 [] (proof_b ∷ []) proof_a later_a 50 refl refl (omega arith, tt) refl
      (omega arith)

length-run-le_example : length (run 1 (proof_a ∷ proof_b ∷ []) []) ≤ 1
length-run-le_example = length-run-le 1 (proof_a ∷ proof_b ∷ []) [] (omega arith)

consume-accepts_example : (consume 5 later_a (("b", 30) ∷ [])).0 ≡ accepted
unfolding lookup
consume-accepts_example =
    consume-accepts 5 later_a (("b", 30) ∷ []) 90 (ground (arith, eq_iff "a" "")) refl (omega arith)
      (inl refl) (omega arith)

consume_replay-detected_example :
    (consume_replay 5 dpop later_a
      (some (run 5 (proof_b ∷ []) (consume 5 (in_namespace dpop proof_a) (run 5 [] [])).1))).0
    ≡ err replay_detected
unfolding consume_replay run consume sweep admit lookup delete insert
consume_replay-detected_example =
    consume_replay-detected 5 [] (proof_b ∷ []) dpop proof_a later_a 50 refl refl (omega arith, tt)
      refl (omega arith)

abbrev nested : Json
nested = obj (field "a" (obj (field "b" null done)) (field "c" (str "xy") done))

-- Accepted, too deep, a forbidden name, and too long.
checks :
    (assert_mcp_json mcp_limits nested 100 ≡ some (ok tt))
    × (assert_mcp_json (record mcp_limits { depth = 1 }) nested 100 ≡ some (err response_too_large))
    × (assert_mcp_json mcp_limits (obj (field "constructor" null done)) 100
        ≡ some (err upstream_protocol_error))
    × (assert_mcp_json mcp_limits nested 3 ≡ some (err response_too_large))
unfolding assert_mcp_json walk visit visit_value visit_entries push_entries
checks = (refl, refl, refl, refl)

assert_mcp_json_total_example :
    (r : Result BoundaryError Unit) × (assert_mcp_json mcp_limits nested 3 ≡ some r)
assert_mcp_json_total_example = assert_mcp_json_total mcp_limits nested 3

assert_mcp_json-IsSafe_example : IsSafe 16 0 nested × (len (stringify nested) ≤ 100)
unfolding assert_mcp_json walk visit visit_value visit_entries push_entries
assert_mcp_json-IsSafe_example = assert_mcp_json-IsSafe mcp_limits nested 100 refl
