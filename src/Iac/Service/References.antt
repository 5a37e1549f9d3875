-- ===== src/Iac/Service/References.antt =====
-- assertFinalReferencesSafe of apps/weldall/src/server/iac/service.ts: a manifest that names a scope which
-- it deletes is refused.

use weldall.Prelude.{
  ◌≡◌, refl, String, Bool, true, false, not, ◌&&◌, Option, none, some, List, [], ◌∷◌, any, All,
  includes, if◌then◌else◌, ◌==◌, eq_iff, lookup, Result, ok, err, ◌>>=◌, bind-eq-ok, Bool-cases,
  right_false, left_false, inl, inr,
}
use weldall.Iac.Json.{Json, done, text_field, texts_field, ◌+s◌}
use weldall.Iac.Contracts.{Manifest}
use weldall.Iac.Rows.{BindingRow, Tables}
use weldall.Iac.Service.{Failure, iac_error}

-- `address.slice("scope.".length)`.
abbrev pub after_six : String → String
after_six
      (String.◌∷◌ _ (String.◌∷◌ _ (String.◌∷◌ _ (String.◌∷◌ _ (String.◌∷◌ _ (String.◌∷◌ _ s)))))) =
    s
after_six _ = ""

abbrev pub is_key : String → Option String → Bool
is_key key none = false
is_key key (some other) = other == key

-- A bound scope that the manifest drops, or gives another key.
unfoldable pub is_leaving_scope : Manifest → BindingRow → Bool
unfolding text_field
is_leaving_scope manifest b = elim (lookup (after_six b.address) manifest.scopes) [
  | none ↦ true
  | some item ↦ not (is_key b.natural_identity (text_field "key" item))
]

unfoldable pub deleting_scope_keys : Manifest → List BindingRow → List String
unfolding is_leaving_scope
deleting_scope_keys manifest [] = []
deleting_scope_keys manifest (b ∷ bs) =
    let rest = deleting_scope_keys manifest bs in
    if b.workspace_id == manifest.workspace_id && b.kind == "SCOPE" && is_leaving_scope manifest b
    then b.natural_identity ∷ rest
    else rest

-- One of the five loops: the first object that names a deleted scope is refused by its name.
unfoldable pub assert_references :
    List String → String → (Json → String) → List (String × Json) → Result Failure Unit
unfolding texts_field
assert_references deleting scopes name [] = ok tt
assert_references deleting scopes name ((_, item) ∷ rest) =
    let others = assert_references deleting scopes name rest in
    if any (includes deleting) (texts_field scopes item)
    then err (iac_error "PLAN_BLOCKED" (name item +s " still references a deleted scope") 409 done)
    else others

abbrev pub text_or_undefined : String → Json → String
text_or_undefined field item = elim (text_field field item) [ none ↦ "undefined" | some s ↦ s ]

abbrev assert_all_references : List String → Manifest → Result Failure Unit
assert_all_references deleting manifest = do
  resources ←
      assert_references deleting "scopes" (λ o. "Resource " +s text_or_undefined "key" o)
        manifest.resources
  machines ←
      assert_references deleting "scopes" (λ o. "Machine " +s text_or_undefined "clientId" o)
        manifest.machines
  skills ←
      assert_references deleting "requiredScopes" (λ o. "Skill " +s text_or_undefined "slug" o)
        manifest.skills
  emails ←
      assert_references deleting "scopes" (λ o. "Email assignment " +s text_or_undefined "email" o)
        manifest.email_assignments
  assert_references deleting "scopes"
      (λ o.
        "Group assignment "
        +s text_or_undefined "provider" o
        +s ":"
        +s text_or_undefined "groupId" o)
      manifest.group_assignments

abbrev unless_empty : List String → Result Failure Unit → Result Failure Unit
unless_empty [] r = ok tt
unless_empty (_ ∷ _) r = r

unfoldable pub assert_final_references_safe : Manifest → Tables → Result Failure Unit
unfolding deleting_scope_keys assert_references
assert_final_references_safe manifest t =
    let deleting = deleting_scope_keys manifest t.bindings in
    unless_empty deleting (assert_all_references deleting manifest)

not_empty :
    (deleting : List String) (key : String) (r : Result Failure Unit) (u : Unit)
    → includes deleting key ≡ true
    → unless_empty deleting r ≡ ok u
    → r ≡ ok u
not_empty [] key r u h k = cc h
not_empty (d ∷ ds) key r u h k = k

abbrev pub Avoids : String → String → String × Json → Type 0
Avoids scopes key (_, item) = includes (texts_field scopes item) key ≡ false

avoids_key :
    (deleting names : List String) (key : String)
    → includes deleting key ≡ true
    → any (includes deleting) names ≡ false
    → includes names key ≡ false
avoids_key deleting [] key h k = refl
avoids_key deleting (n ∷ names) key h k = elim (Bool-cases (n == key)) [
  | inl own ↦ cc (h, (eq_iff n key).0 own, left_false (includes deleting n) _ k)
  | inr other ↦ cc (other, avoids_key deleting names key h (right_false (includes deleting n) _ k))
]

assert_references-ok :
    (deleting : List String) (key scopes : String) (name : Json → String)
    (entries : List (String × Json)) (u : Unit)
    → includes deleting key ≡ true
    → assert_references deleting scopes name entries ≡ ok u
    → All (Avoids scopes key) entries
unfolding assert_references
assert_references-ok deleting key scopes name [] u h k = tt
assert_references-ok deleting key scopes name ((a, item) ∷ rest) u h k =
    elim (Bool-cases (any (includes deleting) (texts_field scopes item))) [
      | inl named ↦ cc (rw named at k)
      | inr avoids ↦ (
        avoids_key deleting (texts_field scopes item) key h avoids,
        assert_references-ok deleting key scopes name rest u h (rw avoids at k),
      )
    ]

-- Where the check passes, no desired resource, machine, skill or assignment names a key that a bound
-- scope of the workspace is about to lose.
pub assert_final_references_safe-Avoids :
    (manifest : Manifest) (t : Tables) (key : String) (u : Unit)
    → includes (deleting_scope_keys manifest t.bindings) key ≡ true
    → assert_final_references_safe manifest t ≡ ok u
    → All (Avoids "scopes" key) manifest.resources
      × All (Avoids "scopes" key) manifest.machines
      × All (Avoids "requiredScopes" key) manifest.skills
      × All (Avoids "scopes" key) manifest.email_assignments
      × All (Avoids "scopes" key) manifest.group_assignments
unfolding assert_final_references_safe
assert_final_references_safe-Avoids manifest t key u h k =
    let deleting = deleting_scope_keys manifest t.bindings in
    let all_ok = not_empty deleting key _ u h k in
    let (_, resources, k1) =
      bind-eq-ok (assert_references deleting "scopes" _ manifest.resources) _ u all_ok in
    let (_, machines, k2) =
      bind-eq-ok (assert_references deleting "scopes" _ manifest.machines) _ u k1 in
    let (_, skills, k3) =
      bind-eq-ok (assert_references deleting "requiredScopes" _ manifest.skills) _ u k2 in
    let (_, emails, k4) =
      bind-eq-ok (assert_references deleting "scopes" _ manifest.email_assignments) _ u k3 in
    (
      assert_references-ok deleting key "scopes" _ manifest.resources _ h resources,
      assert_references-ok deleting key "scopes" _ manifest.machines _ h machines,
      assert_references-ok deleting key "requiredScopes" _ manifest.skills _ h skills,
      assert_references-ok deleting key "scopes" _ manifest.email_assignments _ h emails,
      assert_references-ok deleting key "scopes" _ manifest.group_assignments u h k4,
    )
