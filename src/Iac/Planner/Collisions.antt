-- ===== src/Iac/Planner/Collisions.antt =====
-- What the planner decides for one desired object: a blocker or actions, and never an action for an
-- object that exists unbound.
use weldall.Prelude.{
  ◌≡◌, ◌≢◌, refl, ◌⊎◌, inl, inr, String, Bool, true, false, Option, none, some, List, [], ◌∷◌, ◌++◌,
  arith, if◌then◌else◌, Option-cases, Any, Any-map_pred, eq_iff, lookup, insert, lookup-insert,
}
use weldall.Iac.Contracts.{
  Host, same_kind, machine, create, replace, recreate, noop, Action, Blocker, CurrentObject,
  DesiredObject,
}
use weldall.Iac.Decision.{
  Step, planned, action_for, collision_blocker, or_collision, plan_bound, update_actions,
  machine_key_actions, is_moved, is_drifted, find_collision,
}
use weldall.Iac.Planner.{index_naturals, natural_key, plan_object}

abbrev pub IsPresent : String → List (String × CurrentObject) → Type 0
IsPresent k m = lookup k m ≢ none

insert-IsPresent :
    (k j : String) (o : CurrentObject) (m : List (String × CurrentObject))
    → (k ≡ j) ⊎ IsPresent k m
    → IsPresent k (insert j o m)
insert-IsPresent k j o m (inl e) h = ground (arith, lookup-insert j k o m, eq_iff j k)
insert-IsPresent k j o m (inr p) h = p (ground (arith, lookup-insert j k o m))

index_naturals-IsPresent :
    (k : String) (index : List (String × CurrentObject)) (objects : List CurrentObject)
    → IsPresent k index ⊎ Any (λ o. k ≡ natural_key o.kind o.identity) objects
    → IsPresent k (index_naturals index objects)
unfolding index_naturals
index_naturals-IsPresent k index [] (inl p) = p
index_naturals-IsPresent k index [] (inr x) = elim x [ ]
index_naturals-IsPresent k index (o ∷ os) (inl p) =
    index_naturals-IsPresent k (insert (natural_key o.kind o.identity) o index) os
      (inl (insert-IsPresent k (natural_key o.kind o.identity) o index (inr p)))
index_naturals-IsPresent k index (o ∷ os) (inr (inl e)) =
    index_naturals-IsPresent k (insert (natural_key o.kind o.identity) o index) os
      (inl (insert-IsPresent k (natural_key o.kind o.identity) o index (inl e)))
index_naturals-IsPresent k index (o ∷ os) (inr (inr r)) =
    index_naturals-IsPresent k (insert (natural_key o.kind o.identity) o index) os (inr r)

-- One blocker and no action, or actions and no blocker.
abbrev pub IsDecided : DesiredObject → Step → Type 0
IsDecided object (actions, blockers) =
    ((actions ≡ []) × ((b : Blocker) × (blockers ≡ b ∷ []) × (b.address ≡ some object.address)))
    ⊎ ((blockers ≡ []) × (actions ≢ []))

if-IsDecided :
    (object : DesiredObject) (b : Bool) (x y : Step)
    → IsDecided object x
    → IsDecided object y
    → IsDecided object (if b then x else y)
if-IsDecided object true x y hx hy = hx
if-IsDecided object false x y hx hy = hy

address-collision_blocker :
    (object : DesiredObject) (c : CurrentObject) (workspace : String)
    → (collision_blocker object c workspace).address ≡ some object.address
unfolding collision_blocker
address-collision_blocker object c workspace = ground arith

or_collision-IsDecided :
    (workspace : String) (object : DesiredObject) (c : Option CurrentObject) (a : Action)
    → IsDecided object (or_collision workspace object c a)
unfolding or_collision
or_collision-IsDecided workspace object none a = inr (refl, λ e. cc)
or_collision-IsDecided workspace object (some c) a = inl (
  refl,
  (collision_blocker object c workspace, refl, address-collision_blocker object c workspace),
)

append-ne-nil : (xs : List Action) (a : Action) → xs ++ a ∷ [] ≢ []
append-ne-nil [] a e = cc
append-ne-nil (x ∷ xs) a e = cc

plan_bound-IsDecided :
    (h : Host) (workspace : String) (current : List CurrentObject) (object : DesiredObject)
    (bound : CurrentObject)
    → IsDecided object (plan_bound h workspace current object bound)
unfolding plan_bound update_actions
plan_bound-IsDecided h workspace current object bound =
    let collision = find_collision object bound current in
    let again : Action = record (action_for object recreate none) { drift = true } in
    let updated : Step = (update_actions h object bound, []) in
    let kept : Step = planned (action_for object noop (some bound)) in
    let revived : Step = or_collision workspace object collision again in
    let live : Step = if is_drifted h object bound then updated else kept in
    if-IsDecided object (is_moved object bound)
      (or_collision workspace object collision (action_for object replace (some bound)))
      (if bound.tombstone then revived else live)
      (or_collision-IsDecided workspace object collision (action_for object replace (some bound)))
      (if-IsDecided object bound.tombstone revived live
        (or_collision-IsDecided workspace object collision again)
        (if-IsDecided object (is_drifted h object bound) updated kept
          (inr (
            refl,
            append-ne-nil
                (if same_kind object.kind machine then machine_key_actions h object bound else [])
                _,
          ))
          (inr (refl, λ e. cc))))

-- Every desired object gets either one blocker at its address and no action, or at least one action
-- and no blocker.
pub plan_object-IsDecided :
    (h : Host) (workspace : String) (current : List CurrentObject)
    (by_address by_natural : List (String × CurrentObject)) (object : DesiredObject)
    → IsDecided object (plan_object h workspace current by_address by_natural object)
unfolding plan_object
plan_object-IsDecided h workspace current by_address by_natural object =
    elim (Option-cases (lookup object.address by_address)) [
      | inr (bound, e) ↦ rw (e, plan_object) (plan_bound-IsDecided h workspace current object bound)
      | inl e ↦
          rw (e, plan_object)
            (or_collision-IsDecided workspace object
              (lookup (natural_key object.kind object.identity) by_natural)
              (action_for object create none))
    ]

-- An object that exists with the kind and identity of a desired object whose address is not bound
-- is never taken over: no action is planned for the desired object, and one blocker is raised.
pub plan_object-blocks :
    (h : Host) (workspace : String) (current : List CurrentObject)
    (by_address : List (String × CurrentObject)) (object : DesiredObject)
    → lookup object.address by_address ≡ none
    → Any (λ o. (o.kind ≡ object.kind) × (o.identity ≡ object.identity)) current
    → (c : CurrentObject) × (plan_object h workspace current by_address
          (index_naturals [] current)
          object
        ≡ ([], collision_blocker object c workspace ∷ []))
unfolding plan_object or_collision lookup
plan_object-blocks h workspace current by_address object unbound there =
    let key = natural_key object.kind object.identity in
    let present : IsPresent key (index_naturals [] current) =
      index_naturals-IsPresent key [] current (inr (Any-map_pred _ _ current same_key there)) in
    elim (Option-cases (lookup key (index_naturals [] current))) [
      | inl e ↦ absurd (present e)
      | inr (c, e) ↦ (c, rw (unbound, plan_object) (rw (e, or_collision) refl))
    ]
  where
    same_key :
        (o : CurrentObject)
        → (o.kind ≡ object.kind) × (o.identity ≡ object.identity)
        → natural_key object.kind object.identity ≡ natural_key o.kind o.identity
    same_key o (k, i) = rw (k, i) refl
