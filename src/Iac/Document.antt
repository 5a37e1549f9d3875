-- ===== src/Iac/Document.antt =====
-- The document that a plan's digest covers: planWithoutDigest of createPlan in
-- apps/weldall/src/server/iac/planner.ts.
use weldall.Prelude.{ℕ, String, Bool, true, false, Option, none, some, List, [], ◌∷◌}
use weldall.Iac.Json.{Json, obj, arr, num, str, bool, Fields, done, field, Items, nil, cons}
use weldall.Iac.Contracts.{kind_text, action_text, Action, Blocker, Plan}

-- The plan without its digest, as JSON. Absent members are left out.
abbrev with_text : String → Option String → Fields → Fields
with_text name none rest = rest
with_text name (some s) rest = field name (str s) rest

abbrev with_number : String → Option ℕ → Fields → Fields
with_number name none rest = rest
with_number name (some n) rest = field name (num n) rest

abbrev with_flag : String → Bool → Fields → Fields
with_flag name false rest = rest
with_flag name true rest = field name (bool true) rest

abbrev action_json : Action → Json
action_json a = obj (
    field "address" (str a.address) (
      field "kind" (str (kind_text a.kind)) (
        field "identity" (str a.identity) (
          field "action" (str (action_text a.action)) (
            with_number "observedVersion" a.observed_version (
              with_flag "drift" a.drift (
                with_flag "irreversible" a.irreversible (
                  with_text "keyId" a.key_id (
                    with_text "keyThumbprint" a.key_thumbprint (
                      with_flag "requiresAuthorityConfirmation" a.requires_authority_confirmation
                        done))))))))))

abbrev blocker_json : Blocker → Json
blocker_json b = obj (
    field "code" (str b.code) (
      with_text "address" b.address
        (field "message" (str b.message) (with_text "ownerWorkspaceId" b.owner_workspace_id done))))

abbrev items_of {ℓ} : {A : Type ℓ} → (A → Json) → List A → Items
items_of f [] = nil
items_of f (x ∷ xs) = cons (f x) (items_of f xs)

unfoldable pub plan_json : Plan → Json
plan_json p = obj (
    field "version" (num p.version) (
      field "workspaceId" (str p.workspace_id) (
        field "revision" (num p.revision) (
          field "configDigest" (str p.config_digest) (
            field "actions" (arr (items_of action_json p.actions))
              (field "blockers" (arr (items_of blocker_json p.blockers)) done))))))
