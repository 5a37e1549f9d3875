-- ===== src/Sdk/McpJson.antt =====
-- assertMcpJson of packages/sdk/src/mcp/contracts.ts: the bounded walk over an untrusted value, before
-- it is parsed or printed. Values are trees, so that the test for cycles never fires.
pub mod Walk
use Prim.Native.String.{len}
use weldall.Prelude.{
  ℕ, zero, suc, ◌+◌, String, Bool, true, false, ◌||◌, Option, none, some, List, [], ◌∷◌,
  if◌then◌else◌, ltb, length, includes, Result, ok, err,
}
use weldall.Iac.Json.{
  Json, null, bool, num, str, arr, obj, Items, nil, cons, Fields, done, field, decimal,
  entries_of_fields, stringify,
}

-- MCP_LIMITS.jsonDepth and jsonNodes.
pub record Limits : Type 0 where
  pub depth : ℕ
  pub nodes : ℕ

abbrev pub mcp_limits : Limits
mcp_limits = record { depth = 16; nodes = 20000 }

pub data BoundaryError : Type 0 where
  response_too_large upstream_protocol_error : BoundaryError

pub record Item : Type 0 where
  pub value : Json
  pub depth : ℕ

abbrev pub is_forbidden : String → Bool
is_forbidden key = includes ("__proto__" ∷ "constructor" ∷ "prototype" ∷ []) key

-- Object.entries of an array.
abbrev pub entries_of_items : ℕ → Items → List (String × Json)
entries_of_items n nil = []
entries_of_items n (cons v vs) = (decimal n, v) ∷ entries_of_items (suc n) vs

-- The loop over the entries; the top of the stack is the head of the list.
unfoldable pub push_entries :
    ℕ → ℕ → List (String × Json) → ℕ → List Item → Result BoundaryError (ℕ × List Item)
push_entries maximum depth [] bytes pending = ok (bytes, pending)
push_entries maximum depth ((key, child) ∷ rest) bytes pending =
    let pushed =
      push_entries maximum depth rest (bytes + len key)
        (record { value = child; depth = depth } ∷ pending) in
    if is_forbidden key
    then err upstream_protocol_error
    else if ltb maximum (bytes + len key)
    then err response_too_large
    else pushed

unfoldable pub visit_entries :
    Limits → ℕ → ℕ → ℕ → ℕ → List (String × Json) → List Item → Result BoundaryError (ℕ × List Item)
unfolding push_entries
visit_entries limits maximum nodes depth bytes entries pending =
    if ltb limits.nodes (length entries + length pending + nodes)
    then err response_too_large
    else push_entries maximum (suc depth) entries bytes pending

unfoldable pub visit_value :
    Limits → ℕ → ℕ → ℕ → ℕ → Json → List Item → Result BoundaryError (ℕ × List Item)
unfolding visit_entries
visit_value limits maximum nodes depth bytes (str s) pending =
    if ltb maximum (bytes + len s) then err response_too_large else ok (bytes + len s, pending)
visit_value limits maximum nodes depth bytes (arr items) pending =
    visit_entries limits maximum nodes depth bytes (entries_of_items 0 items) pending
visit_value limits maximum nodes depth bytes (obj fields) pending =
    visit_entries limits maximum nodes depth bytes (entries_of_fields fields) pending
visit_value limits maximum nodes depth bytes _ pending = ok (bytes, pending)

-- One round: the item that was popped, the count with it, and what is left on the stack.
unfoldable pub visit : Limits → ℕ → ℕ → ℕ → Item → List Item → Result BoundaryError (ℕ × List Item)
unfolding visit_value
visit limits maximum nodes bytes item pending =
    if ltb limits.depth item.depth || ltb limits.nodes nodes
    then err response_too_large
    else visit_value limits maximum nodes item.depth bytes item.value pending

-- `none` when the fuel is used up.
unfoldable pub walk : ℕ → Limits → ℕ → ℕ → ℕ → List Item → Option (Result BoundaryError Unit)
unfolding visit
walk zero limits maximum nodes bytes pending = none
walk (suc fuel) limits maximum nodes bytes [] = some (ok tt)
walk (suc fuel) limits maximum nodes bytes (item ∷ pending) =
    elim (visit limits maximum (suc nodes) bytes item pending) [
      | err e ↦ some (err e)
      | ok (more, next) ↦ walk fuel limits maximum (suc nodes) more next
    ]

abbrev pub check_size : ℕ → Json → Result BoundaryError Unit → Result BoundaryError Unit
check_size maximum value (err e) = err e
check_size maximum value (ok _) =
    if ltb maximum (len (stringify value)) then err response_too_large else ok tt

-- Each round counts a node, and no more than the limit pass.
unfoldable pub assert_mcp_json : Limits → Json → ℕ → Option (Result BoundaryError Unit)
unfolding walk stringify
assert_mcp_json limits value maximum =
    elim (walk (suc (suc limits.nodes)) limits maximum 0 0
      (record { value = value; depth = 0 } ∷ [])) [
        | none ↦ none
        | some r ↦ some (check_size maximum value r)
      ]
