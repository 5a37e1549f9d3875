-- ===== src/Iac/Json.antt =====
-- The JSON values that manifests and stored states are made of, with JSON.stringify, and
-- canonicalJson of apps/weldall/src/server/iac/contracts.ts.
use Prim.Native.Char.{Char, code}
use Prim.Native.Nat.{◌/◌, ◌%◌}
use Prim.Native.String
use weldall.Prelude.{
  ◌-◌, ℕ, zero, suc, String, Bool, true, false, Option, none, some, List, [], ◌∷◌, map, Ordering,
  ltb, nat_eq, if◌then◌else◌, sort, lookup,
}

mutual
  pub data Json : Type 0 where
    null : Json
    bool : Bool → Json
    num : ℕ → Json
    str : String → Json
    arr : Items → Json
    obj : Fields → Json

  pub data Items : Type 0 where
    nil : Items
    cons : Json → Items → Items

  pub data Fields : Type 0 where
    done : Fields
    field : String → Json → Fields → Fields

infixr 65 ◌+s◌
abbrev pub ◌+s◌ : String → String → String
s +s t = String.◌++◌ s t

abbrev pub char_text : Char → String
char_text c = String.◌∷◌ c String.[]

abbrev digits : List String
digits =
    "0" ∷ "1" ∷ "2" ∷ "3" ∷ "4" ∷ "5" ∷ "6" ∷ "7" ∷ "8" ∷ "9" ∷ "a" ∷ "b" ∷ "c" ∷ "d" ∷ "e" ∷ "f"
    ∷ []

pick : List String → ℕ → String
pick [] n = ""
pick (d ∷ ds) n = let rest = pick ds (n - 1) in if nat_eq n 0 then d else rest

-- A digit, decimal or hexadecimal.
digit : ℕ → String
unfolding pick
digit n = pick digits n

decimal_from : ℕ → ℕ → String → String
unfolding digit
decimal_from zero n text = text
decimal_from (suc fuel) n text =
    let more = decimal_from fuel (n / 10) (digit (n % 10) +s text) in
    if ltb n 10 then digit n +s text else more

-- A number has at most as many digits as its value and one more.
pub decimal : ℕ → String
unfolding decimal_from
decimal n = decimal_from (suc n) n ""

-- A character in a JSON text.
escaped : Char → String
unfolding digit
escaped c =
    let n = code c in
    if nat_eq n 34
    then "\\\""
    else if nat_eq n 92
    then "\\\\"
    else if nat_eq n 8
    then "\\b"
    else if nat_eq n 9
    then "\\t"
    else if nat_eq n 10
    then "\\n"
    else if nat_eq n 12
    then "\\f"
    else if nat_eq n 13
    then "\\r"
    else if ltb n 32
    then "\\u00" +s digit (n / 16) +s digit (n % 16)
    else char_text c

escape : String → String
unfolding escaped
escape String.[] = ""
escape (String.◌∷◌ c s) = escaped c +s escape s

pub quote : String → String
unfolding escape
quote s = "\"" +s escape s +s "\""

abbrev pub join_by : String → List String → String
join_by sep [] = ""
join_by sep (s ∷ []) = s
join_by sep (s ∷ t ∷ rest) = s +s sep +s join_by sep (t ∷ rest)

bool_text : Bool → String
bool_text true = "true"
bool_text false = "false"

-- JSON.stringify.
unfoldable mutual
  unfolding quote decimal bool_text

  pub stringify : Json → String
  stringify null = "null"
  stringify (bool b) = bool_text b
  stringify (num n) = decimal n
  stringify (str s) = quote s
  stringify (arr xs) = "[" +s join_by "," (stringify_items xs) +s "]"
  stringify (obj fs) = "{" +s join_by "," (stringify_fields fs) +s "}"

  pub stringify_items : Items → List String
  stringify_items nil = []
  stringify_items (cons x xs) = stringify x ∷ stringify_items xs

  pub stringify_fields : Fields → List String
  stringify_fields done = []
  stringify_fields (field k v fs) = (quote k +s ":" +s stringify v) ∷ stringify_fields fs

abbrev member : String × String → String
member (name, text) = quote name +s ":" +s text

abbrev by_name : (String → String → Ordering) → String × String → String × String → Ordering
by_name compare_names (left, _) (right, _) = compare_names left right

-- The members of an object are sorted by name, whatever order they were written in.
unfoldable mutual
  unfolding quote decimal bool_text

  pub canonical_json : (String → String → Ordering) → Json → String
  canonical_json c null = "null"
  canonical_json c (bool b) = bool_text b
  canonical_json c (num n) = decimal n
  canonical_json c (str s) = quote s
  canonical_json c (arr xs) = "[" +s join_by "," (canonical_items c xs) +s "]"
  canonical_json c (obj fs) =
      "{" +s join_by "," (map member (sort (by_name c) (canonical_fields c fs))) +s "}"

  pub canonical_items : (String → String → Ordering) → Items → List String
  canonical_items c nil = []
  canonical_items c (cons x xs) = canonical_json c x ∷ canonical_items c xs

  pub canonical_fields : (String → String → Ordering) → Fields → List (String × String)
  canonical_fields c done = []
  canonical_fields c (field k v fs) = (k, canonical_json c v) ∷ canonical_fields c fs

-- Reading untyped states.
abbrev pub entries_of_fields : Fields → List (String × Json)
entries_of_fields done = []
entries_of_fields (field k v fs) = (k, v) ∷ entries_of_fields fs

abbrev pub list_of_items : Items → List Json
list_of_items nil = []
list_of_items (cons x xs) = x ∷ list_of_items xs

-- Object.entries of an object.
unfoldable pub entries_of : Json → List (String × Json)
entries_of (obj fs) = entries_of_fields fs
entries_of null = []
entries_of (bool _) = []
entries_of (num _) = []
entries_of (str _) = []
entries_of (arr _) = []

-- `value.name`; `none` is undefined.
unfoldable pub get_field : String → Json → Option Json
unfolding entries_of
get_field name j = lookup name (entries_of j)

abbrev pub text_of : Option Json → Option String
text_of (some (str s)) = some s
text_of (some null) = none
text_of (some (bool _)) = none
text_of (some (num _)) = none
text_of (some (arr _)) = none
text_of (some (obj _)) = none
text_of none = none

unfoldable pub text_field : String → Json → Option String
unfolding get_field
text_field name j = text_of (get_field name j)

-- `value.name` as a condition, for a field that holds a boolean.
abbrev pub is_true : Option Json → Bool
is_true (some (bool b)) = b
is_true (some null) = false
is_true (some (num _)) = false
is_true (some (str _)) = false
is_true (some (arr _)) = false
is_true (some (obj _)) = false
is_true none = false

unfoldable pub flag_field : String → Json → Bool
unfolding get_field
flag_field name j = is_true (get_field name j)

texts : List Json → List String
texts [] = []
texts (str s ∷ xs) = s ∷ texts xs
texts (_ ∷ xs) = texts xs

abbrev elements : Option Json → List Json
elements (some (arr xs)) = list_of_items xs
elements (some null) = []
elements (some (bool _)) = []
elements (some (num _)) = []
elements (some (str _)) = []
elements (some (obj _)) = []
elements none = []

-- The texts of an array of texts.
unfoldable pub texts_field : String → Json → List String
unfolding get_field texts
texts_field name j = texts (elements (get_field name j))
