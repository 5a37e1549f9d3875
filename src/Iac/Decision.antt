-- ===== src/Iac/Decision.antt =====
-- The decision for one object of createPlan in apps/weldall/src/server/iac/planner.ts, with
-- actionFor and collisionBlocker.
use Prim.Native.String
use weldall.Prelude.{
  ℕ, String, Bool, true, false, not, ◌&&◌, ◌||◌, Option, none, some, List, [], ◌∷◌, ◌++◌, map,
  Ordering, if◌then◌else◌, ◌==◌, includes, sort,
}
use weldall.Iac.Json.{Json, ◌+s◌, get_field, text_field, entries_of}
use weldall.Iac.Contracts.{
  Host, resource, machine, same_kind, ActionType, update, replace, recreate, register_key,
  revoke_key, noop, Action, Blocker, CurrentObject, DesiredObject, canonical, public_key_thumbprint,
  or_null,
}

abbrev pub observe : Option CurrentObject → Option ℕ
observe none = none
observe (some o) = if o.tombstone then none else some o.version

unfoldable pub action_for : DesiredObject → ActionType → Option CurrentObject → Action
action_for object action observed = record {
  address = object.address;
  kind = object.kind;
  action = action;
  identity = object.identity;
  observed_version = observe observed;
  drift = false;
  irreversible = false;
  key_id = none;
  key_thumbprint = none;
  requires_authority_confirmation = false;
}

abbrev owned_by_other : String → Option String → Bool
owned_by_other workspace none = false
owned_by_other workspace (some w) = not (w == workspace)

unfoldable pub collision_blocker : DesiredObject → CurrentObject → String → Blocker
collision_blocker object collision workspace =
    if owned_by_other workspace collision.owner_workspace_id
    then record {
      code = "OWNED_BY_OTHER_WORKSPACE";
      address = some object.address;
      message = object.identity +s " is owned by another workspace";
      owner_workspace_id = collision.owner_workspace_id;
    }
    else record {
      code = "MANUAL_COLLISION";
      address = some object.address;
      message = object.identity +s " already exists; import it explicitly";
      owner_workspace_id = none;
    }

abbrev pub same_text : Option String → Option String → Bool
same_text none none = true
same_text (some s) (some t) = s == t
same_text none (some _) = false
same_text (some _) none = false

-- The resource identifier of a resource cannot be changed in place.
unfoldable pub immutable_resource_change : DesiredObject → CurrentObject → Bool
unfolding text_field
immutable_resource_change object bound =
    same_kind object.kind resource
    && (not bound.tombstone
        && not (
            same_text (text_field "resourceIdentifier" bound.state)
              (text_field "resourceIdentifier" object.state)))

-- A live object that is not the bound one and has the kind and identity that are asked for.
unfoldable pub find_collision :
    DesiredObject → CurrentObject → List CurrentObject → Option CurrentObject
find_collision object bound [] = none
find_collision object bound (c ∷ cs) =
    if not c.tombstone
      && (not (c.id == bound.id)
          && (same_kind c.kind object.kind && (c.identity == object.identity)))
    then some c
    else find_collision object bound cs

-- The names that every object has from Object.prototype.
abbrev pub inherited : List String
inherited =
    "constructor" ∷ "hasOwnProperty" ∷ "isPrototypeOf" ∷ "propertyIsEnumerable" ∷ "toLocaleString"
    ∷ "toString" ∷ "valueOf" ∷ "__defineGetter__" ∷ "__defineSetter__" ∷ "__lookupGetter__"
    ∷ "__lookupSetter__" ∷ "__proto__" ∷ []

abbrev pub has_own : List (String × Json) → String → Bool
has_own [] k = false
has_own ((j, _) ∷ m) k = j == k || has_own m k

-- `key in object`.
unfoldable pub has_key : List (String × Json) → String → Bool
has_key m k = has_own m k || includes inherited k

-- The entries whose key the other side lacks, sorted by key.
unfoldable pub keys_without : List (String × Json) → List (String × Json) → List (String × Json)
unfolding has_key
keys_without other [] = []
keys_without other ((k, v) ∷ m) =
    let rest = keys_without other m in if has_key other k then rest else (k, v) ∷ rest

abbrev pub by_key : String × Json → String × Json → Ordering
by_key (left, _) (right, _) = String.compare left right

unfoldable pub key_action :
    Host → DesiredObject → CurrentObject → ActionType → Bool → String × Json → Action
unfolding public_key_thumbprint
key_action h object bound action irreversible (kid, jwk) = record {
  address = object.address;
  kind = machine;
  action = action;
  identity = object.identity;
  observed_version = some bound.version;
  drift = false;
  irreversible = irreversible;
  key_id = some kid;
  key_thumbprint = some (public_key_thumbprint h jwk);
  requires_authority_confirmation = false;
}

abbrev pub public_keys : Json → List (String × Json)
public_keys state = entries_of (or_null (get_field "publicKeys" state))

unfoldable pub machine_key_actions : Host → DesiredObject → CurrentObject → List Action
unfolding key_action keys_without entries_of get_field
machine_key_actions h object bound =
    let before = public_keys bound.state in
    let after = public_keys object.state in
    map (key_action h object bound register_key false) (sort by_key (keys_without before after))
    ++ map (key_action h object bound revoke_key true) (sort by_key (keys_without after before))

abbrev pub Step : Type 0
Step = List Action × List Blocker

abbrev pub blocked : Blocker → Step
blocked b = ([], b ∷ [])

abbrev pub planned : Action → Step
planned a = (a ∷ [], [])

unfoldable pub or_collision : String → DesiredObject → Option CurrentObject → Action → Step
unfolding collision_blocker
or_collision workspace object none action = planned action
or_collision workspace object (some c) action = blocked (collision_blocker object c workspace)

unfoldable pub is_moved : DesiredObject → CurrentObject → Bool
unfolding immutable_resource_change
is_moved object bound =
    not (same_kind bound.kind object.kind)
    || (not (bound.identity == object.identity) || immutable_resource_change object bound)

unfoldable pub is_drifted : Host → DesiredObject → CurrentObject → Bool
unfolding canonical
is_drifted h object bound = not (canonical h bound.state == canonical h object.state)

unfoldable pub update_actions : Host → DesiredObject → CurrentObject → List Action
unfolding machine_key_actions action_for
update_actions h object bound =
    (if same_kind object.kind machine then machine_key_actions h object bound else [])
    ++ (record (action_for object update (some bound)) { drift = true }) ∷ []

-- A desired object whose address is bound in this workspace.
unfoldable pub plan_bound :
    Host → String → List CurrentObject → DesiredObject → CurrentObject → Step
unfolding or_collision find_collision is_moved is_drifted update_actions action_for
plan_bound h workspace current object bound =
    if is_moved object bound
    then or_collision workspace object (find_collision object bound current)
        (action_for object replace (some bound))
    else if bound.tombstone
    then or_collision workspace object (find_collision object bound current)
        (record (action_for object recreate none) { drift = true })
    else if is_drifted h object bound
    then (update_actions h object bound, [])
    else planned (action_for object noop (some bound))
