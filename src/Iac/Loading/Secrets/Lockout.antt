-- ===== src/Iac/Loading/Secrets/Lockout.antt =====
-- A manifest without blockers locks nobody out, and leaves no assignment to a missing group provider.
use weldall.Prelude.{
  ◌≡◌, refl, sym, ap, ◌∙◌, ◌⊎◌, inl, inr, Bool, true, false, none, List, [], ◌∷◌, ◌++◌, map, any,
  arith, Bool-cases, Option-cases, All, Any,
}
use weldall.Iac.Json.{text_field}
use weldall.Iac.Contracts.{
  shared_connection, group_provider, login_provider, group_assignment, same_kind, Blocker,
  CurrentObject, DesiredObject, Manifest,
}
use weldall.Iac.Desired.{entries_or_none}
use weldall.Iac.Graph.{retained}
use weldall.Iac.Order.{Subject, of_desired, of_current}
use weldall.Iac.Rows.{LoginProviderRow, Tables}
use weldall.Iac.Loading.{Schemas}
use weldall.Iac.Loading.Connectors.{block_if}
use weldall.Iac.Loading.References.Guarded.{append-nil}
use weldall.Iac.Loading.Secrets.{
  owned_objects, setup_blockers, section_blockers, shared_blockers, group_blockers, login_blockers,
  each, is_enabled_login, find_login_object, last_login_blockers, lockout_blockers, has_identity,
  assignment_blockers, cascade_blockers, secret_primitive_blockers,
}

-- What stays beside the manifest's objects, and those.
abbrev pub final_subjects : Manifest → List DesiredObject → List CurrentObject → List Subject
final_subjects manifest desired objects =
    map of_current (retained manifest.workspace_id objects) ++ map of_desired desired

block_if-nil : (test : Bool) (b : Blocker) → block_if test b ≡ [] → test ≡ false
block_if-nil true b h = cc
block_if-nil false b h = refl

abbrev QuietParts : Manifest → List DesiredObject → Tables → List CurrentObject → Type 0
QuietParts manifest desired t objects =
    (lockout_blockers (owned_objects manifest.workspace_id objects)
        (final_subjects manifest desired objects) t.login_providers
      ≡ [])
    × (assignment_blockers (final_subjects manifest desired objects)
          (final_subjects manifest desired objects)
        ≡ [])

secret_primitive_blockers-nil :
    (c : Schemas) (manifest : Manifest) (desired : List DesiredObject) (t : Tables)
    (objects : List CurrentObject)
    → secret_primitive_blockers c manifest desired t objects ≡ []
    → QuietParts manifest desired t objects
unfolding secret_primitive_blockers
secret_primitive_blockers-nil c manifest desired t objects h =
    let owned = owned_objects manifest.workspace_id objects in
    let final = final_subjects manifest desired objects in
    let h1 = (append-nil (setup_blockers manifest t.login_installation) _ h).1 in
    let h2 =
      (append-nil
        (section_blockers shared_connection "sharedConnections" manifest.shared_connections owned) _
        h1).1 in
    let h3 =
      (append-nil (section_blockers group_provider "groupProviders" manifest.group_providers owned)
        _ h2).1 in
    let h4 =
      (append-nil (section_blockers login_provider "loginProviders" manifest.login_providers owned)
        _ h3).1 in
    let h5 =
      (append-nil
        (each (shared_blockers c t owned final) (entries_or_none manifest.shared_connections)) _
        h4).1 in
    let h6 =
      (append-nil (each (group_blockers t owned) (entries_or_none manifest.group_providers)) _
        h5).1 in
    let h7 =
      (append-nil (each (login_blockers t owned) (entries_or_none manifest.login_providers)) _
        h6).1 in
    let (lockout, h8) = append-nil (lockout_blockers owned final t.login_providers) _ h7 in
    let (assignments, _) =
      append-nil (assignment_blockers final final) (cascade_blockers desired owned t owned) h8 in
    (lockout, assignments)

last_login_blockers_tail :
    (owned : List CurrentObject) (p : LoginProviderRow) (ps : List LoginProviderRow)
    → last_login_blockers owned (p ∷ ps) ≡ []
    → last_login_blockers owned ps ≡ []
unfolding last_login_blockers
last_login_blockers_tail owned p ps h = elim (Bool-cases p.enabled) [
  | inr off ↦ rw (off, last_login_blockers) at h
  | inl enabled ↦ elim (Option-cases (find_login_object p.id owned)) [
    | inl e ↦ rw (e, last_login_blockers) at (rw (enabled, last_login_blockers) at h)
    | inr (o, e) ↦ cc (rw (e, last_login_blockers) at (rw (enabled, last_login_blockers) at h))
  ]
]

last_login_blockers-nil :
    (owned : List CurrentObject) (rows : List LoginProviderRow) (row : LoginProviderRow)
    → last_login_blockers owned rows ≡ []
    → Any (λ x. x ≡ row) rows
    → row.enabled ≡ true
    → find_login_object row.id owned ≡ none
unfolding last_login_blockers
last_login_blockers-nil owned [] row h there on = elim there [ ]
last_login_blockers-nil owned (p ∷ ps) row h (inl same) on =
    let enabled : p.enabled ≡ true = ap (λ (r : LoginProviderRow). r.enabled) same ∙ on in
    elim (Option-cases (find_login_object p.id owned)) [
      | inl e ↦ ap (λ (r : LoginProviderRow). find_login_object r.id owned) (sym same) ∙ e
      | inr (o, e) ↦ cc (rw (e, last_login_blockers) at (rw (enabled, last_login_blockers) at h))
    ]
last_login_blockers-nil owned (p ∷ ps) row h (inr there) on =
    last_login_blockers-nil owned ps row (last_login_blockers_tail owned p ps h) there on

-- Where no blocker is raised for a manifest, an enabled login provider stays, or no login provider
-- that is enabled now belongs to the manifest's workspace.
pub secret_primitive_blockers-no_lockout :
    (c : Schemas) (manifest : Manifest) (desired : List DesiredObject) (t : Tables)
    (objects : List CurrentObject) (row : LoginProviderRow)
    → secret_primitive_blockers c manifest desired t objects ≡ []
    → Any (λ x. x ≡ row) t.login_providers
    → row.enabled ≡ true
    → (any is_enabled_login (final_subjects manifest desired objects) ≡ true)
      ⊎ (find_login_object row.id (owned_objects manifest.workspace_id objects) ≡ none)
unfolding lockout_blockers
secret_primitive_blockers-no_lockout c manifest desired t objects row h there on =
    let (lockout, _) = secret_primitive_blockers-nil c manifest desired t objects h in
    elim (Bool-cases (any is_enabled_login (final_subjects manifest desired objects))) [
      | inl stays ↦ inl stays
      | inr gone ↦ inr (
          last_login_blockers-nil (owned_objects manifest.workspace_id objects) t.login_providers
            row (rw (gone, lockout_blockers) at lockout) there on)
    ]

assignment_blockers-nil :
    (final os : List Subject)
    → assignment_blockers final os ≡ []
    → All
        (λ o.
          (same_kind o.kind group_assignment ≡ false)
          ⊎ (any (has_identity group_provider (text_field "provider" o.state)) final ≡ true))
        os
unfolding assignment_blockers
assignment_blockers-nil final [] h = tt
assignment_blockers-nil final (o ∷ os) h =
    let (first, rest) = append-nil (block_if _ _) (assignment_blockers final os) h in
    let fine = block_if-nil _ _ first in
    (
      elim (Bool-cases (same_kind o.kind group_assignment)) [
        | inr other ↦ inl other
        | inl is_assignment ↦ inr (ground arith)
      ],
      assignment_blockers-nil final os rest,
    )

-- Where no blocker is raised for a manifest, every group assignment that stays or that it asks for
-- belongs to a group provider that stays or that it asks for.
pub secret_primitive_blockers-assigned :
    (c : Schemas) (manifest : Manifest) (desired : List DesiredObject) (t : Tables)
    (objects : List CurrentObject)
    → secret_primitive_blockers c manifest desired t objects ≡ []
    → All
        (λ o.
          (same_kind o.kind group_assignment ≡ false)
          ⊎ (any
                (has_identity group_provider (text_field "provider" o.state))
                (final_subjects manifest desired objects)
              ≡ true))
        (final_subjects manifest desired objects)
secret_primitive_blockers-assigned c manifest desired t objects h =
    assignment_blockers-nil (final_subjects manifest desired objects)
      (final_subjects manifest desired objects)
      (secret_primitive_blockers-nil c manifest desired t objects h).1
