-- ===== src/Iac/Planner/Convergence.antt =====
-- A manifest that is in force plans nothing: every action of its plan is a noop.
use text.Mathlib.TextPositions.{eq_refl}
use weldall.Prelude.{
  ◌≡◌, refl, ◌⊎◌, inl, inr, String, Bool, true, false, not, ◌&&◌, Option, none, some, List, [], ◌∷◌,
  ◌++◌, Bool-cases, All, All-append, All-map_of, All-sort, eq_iff, lookup, sort,
}
use weldall.Iac.Json.{text_field}
use weldall.Iac.Contracts.{
  Host, same_kind, same_kind_iff, resource, noop, Action, CurrentObject, DesiredObject,
  PlanningState, Manifest, CliConfig, CliSettings,
}
use weldall.Iac.Decision.{
  planned, action_for, plan_bound, is_moved, is_drifted, immutable_resource_change, same_text,
}
use weldall.Iac.Sweep.{
  cli_actions, managed_objects, by_address_descending, deletions, confirm_authority,
  needs_confirmation, wants_address,
}
use weldall.Iac.Planner.{plan_object, plan_objects, draft_actions}

-- The object at the address has the kind, the identity and the state that are asked for.
abbrev pub IsInForce : List (String × CurrentObject) → DesiredObject → Type 0
IsInForce index object =
    (bound : CurrentObject) × (lookup object.address index ≡ some bound)
    × (bound.tombstone ≡ false)
    × (bound.kind ≡ object.kind)
    × (bound.identity ≡ object.identity)
    × (bound.state ≡ object.state)

abbrev pub IsNoop : Action → Type 0
IsNoop a = a.action ≡ noop

and_and_false : (x y : Bool) → (x && (y && false)) ≡ false
and_and_false true true = refl
and_and_false true false = refl
and_and_false false y = refl

same_text_refl : (t : Option String) → same_text t t ≡ true
same_text_refl none = refl
same_text_refl (some s) = eq_refl s

is_moved_of_same :
    (object : DesiredObject) (bound : CurrentObject)
    → bound.kind ≡ object.kind
    → bound.identity ≡ object.identity
    → bound.state ≡ object.state
    → is_moved object bound ≡ false
unfolding is_moved immutable_resource_change
is_moved_of_same object bound k i s =
    let same : same_text (text_field "resourceIdentifier" bound.state)
          (text_field "resourceIdentifier" object.state)
        ≡ true =
      rw s (same_text_refl (text_field "resourceIdentifier" object.state)) in
    simp
      (
        (same_kind_iff bound.kind object.kind).1 k,
        (eq_iff bound.identity object.identity).1 i,
        same,
      )
      (and_and_false (same_kind object.kind resource) (not bound.tombstone))

is_drifted_of_same :
    (h : Host) (object : DesiredObject) (bound : CurrentObject)
    → bound.state ≡ object.state
    → is_drifted h object bound ≡ false
unfolding is_drifted
is_drifted_of_same h object bound s = rw s (rw eq_refl refl)

plan_object_in_force :
    (h : Host) (workspace : String) (current : List CurrentObject)
    (by_address by_natural : List (String × CurrentObject)) (object : DesiredObject)
    → IsInForce by_address object
    → (bound : CurrentObject) × (plan_object h workspace current by_address by_natural object
        ≡ planned (action_for object noop (some bound)))
unfolding plan_object plan_bound
plan_object_in_force h workspace current by_address by_natural object (bound, e, live, k, i, s) = (
  bound,
  rw (e, plan_object)
      (rw (is_moved_of_same object bound k i s)
        (rw live (rw (is_drifted_of_same h object bound s) refl))),
)

plan_objects_in_force :
    (h : Host) (workspace : String) (current : List CurrentObject)
    (by_address by_natural : List (String × CurrentObject)) (desired : List DesiredObject)
    → All (IsInForce by_address) desired
    → All IsNoop (plan_objects (plan_object h workspace current by_address by_natural) desired).0
      × ((plan_objects (plan_object h workspace current by_address by_natural) desired).1 ≡ [])
unfolding plan_objects action_for
plan_objects_in_force h workspace current by_address by_natural [] hs = (tt, refl)
plan_objects_in_force h workspace current by_address by_natural (o ∷ os) (p, hs) =
    let (bound, e) = plan_object_in_force h workspace current by_address by_natural o p in
    let (noops, none_blocked) =
      plan_objects_in_force h workspace current by_address by_natural os hs in
    rw e ((refl, noops), none_blocked)

-- The CLI settings are absent from the manifest, or those that are stored.
abbrev pub IsCliInForce : Option CliConfig → Option CliSettings → Type 0
IsCliInForce none now = Unit
IsCliInForce (some wanted) none = ⊥
IsCliInForce (some wanted) (some now) =
    (now.logo_url ≡ wanted.logo_url)
    × ((wanted.dark_logo_url ≡ none) ⊎ (wanted.dark_logo_url ≡ some now.dark_logo_url))

cli_in_force :
    (wanted : Option CliConfig) (now : Option CliSettings)
    → IsCliInForce wanted now
    → All IsNoop (cli_actions wanted now)
unfolding cli_actions
cli_in_force none now c = tt
cli_in_force (some w) none c = absurd c
cli_in_force (some w) (some n) (logo, inl d) =
    (rw (d, (eq_iff n.logo_url w.logo_url).1 logo, eq_refl) refl, tt)
cli_in_force (some w) (some n) (logo, inr d) =
    (rw (d, (eq_iff n.logo_url w.logo_url).1 logo, eq_refl) refl, tt)

deletions_in_force :
    (desired : List DesiredObject) (managed : List (String × CurrentObject))
    → All (λ p. wants_address desired p.0 ≡ true) managed
    → deletions desired managed ≡ []
unfolding deletions
deletions_in_force desired [] hs = refl
deletions_in_force desired ((a, o) ∷ rest) (p, hs) = rw p (deletions_in_force desired rest hs)

confirm_authority_in_force :
    (desired : List DesiredObject) (index : List (String × CurrentObject)) (a : Action)
    → IsNoop a
    → IsNoop (confirm_authority desired index a)
unfolding confirm_authority
confirm_authority_in_force desired index a n =
    elim (Bool-cases (needs_confirmation desired index a)) [
      | inl e ↦ rw (e, confirm_authority) n
      | inr e ↦ rw (e, confirm_authority) n
    ]

-- If every desired object is bound at its address to a live object of its kind, identity and state,
-- the workspace binds nothing else, and the CLI settings are those wanted, then the plan holds noops
-- only and raises no blocker for an object.
pub draft_actions_in_force :
    (h : Host) (manifest : Manifest) (current : PlanningState) (desired : List DesiredObject)
    (by_address by_natural : List (String × CurrentObject))
    → All (IsInForce by_address) desired
    → All
        (λ p. wants_address desired p.0 ≡ true)
        (managed_objects manifest.workspace_id current.objects)
    → IsCliInForce manifest.cli current.cli_settings
    → All IsNoop (
        draft_actions h manifest current desired by_address
          (plan_objects
            (plan_object h manifest.workspace_id current.objects by_address by_natural)
            desired).0)
      × ((plan_objects
            (plan_object h manifest.workspace_id current.objects by_address by_natural)
            desired).1
          ≡ [])
unfolding draft_actions
draft_actions_in_force h manifest current desired by_address by_natural forced kept c =
    let steps =
      plan_objects (plan_object h manifest.workspace_id current.objects by_address by_natural)
        desired in
    let (noops, unblocked) =
      plan_objects_in_force h manifest.workspace_id current.objects by_address by_natural desired
        forced in
    let managed = managed_objects manifest.workspace_id current.objects in
    let settings = cli_actions manifest.cli current.cli_settings in
    let sorted = sort (by_address_descending h) managed in
    let removed : All IsNoop (deletions desired sorted) =
      rw
        (deletions_in_force desired sorted
          (All-sort (by_address_descending h) (λ p. wants_address desired p.0 ≡ true) managed kept))
        tt in
    (
      All-map_of IsNoop IsNoop (confirm_authority desired by_address)
          (steps.0 ++ (settings ++ deletions desired sorted))
          (confirm_authority_in_force desired by_address)
          (All-append IsNoop steps.0 (settings ++ deletions desired sorted) noops (
            All-append IsNoop settings (deletions desired sorted)
              (cli_in_force manifest.cli current.cli_settings c) removed)),
      unblocked,
    )
