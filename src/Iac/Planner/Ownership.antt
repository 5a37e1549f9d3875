-- ===== src/Iac/Planner/Ownership.antt =====
-- Which objects a plan touches: beside new objects and the CLI settings, only those that are bound
-- in the manifest's own workspace, at the version that was read.
use weldall.Prelude.{
  ◌≡◌, refl, ◌⊎◌, inl, inr, String, Bool, true, false, not, ◌&&◌, Option, none, some, List, [], ◌∷◌,
  ◌++◌, map, arith, if◌then◌else◌, Bool-cases, Option-cases, All, All-append, All-map, All-map_of,
  Any, Any-map_pred, All-map_pred, ◌==◌, eq_iff, lookup, insert, lookup-insert, sort, All-sort,
}
use weldall.Iac.Json.{Json}
use weldall.Iac.Contracts.{
  Host, machine, cli, same_kind, ActionType, create, replace, recreate, update, register_key,
  revoke_key, noop, Action, CurrentObject, DesiredObject, PlanningState, Manifest, CliConfig,
  CliSettings,
}
use weldall.Iac.Graph.{owned_by}
use weldall.Iac.Decision.{
  Step, planned, observe, action_for, or_collision, plan_bound, key_action, machine_key_actions,
  update_actions, is_moved, is_drifted, find_collision, keys_without, by_key, public_keys,
}
use weldall.Iac.Sweep.{
  cli_actions, managed_objects, managed_address, by_address_descending, deletions, delete_action,
  confirm_authority, needs_confirmation, wants_address,
}
use weldall.Iac.Planner.{index_addresses, natural_key, plan_object, plan_objects, draft_actions}

-- An action that is made for a bound object has its address, and no version but the one read.
abbrev Carries : String → CurrentObject → Action → Type 0
Carries address bound a =
    (a.address ≡ address)
    × ((a.observed_version ≡ none)
        ⊎ ((a.observed_version ≡ some bound.version) × (bound.tombstone ≡ false)))

observe_lem :
    (bound : CurrentObject)
    → (observe (some bound) ≡ none)
      ⊎ ((observe (some bound) ≡ some bound.version) × (bound.tombstone ≡ false))
observe_lem bound = elim (Bool-cases bound.tombstone) [
  | inl e ↦ inl (rw e refl)
  | inr e ↦ inr (rw e refl, e)
]

action_for-Carries :
    (object : DesiredObject) (t : ActionType) (bound : CurrentObject)
    → Carries object.address bound (action_for object t (some bound))
unfolding action_for
action_for-Carries object t bound = (refl, observe_lem bound)

or_collision-Carries :
    (workspace : String) (object : DesiredObject) (bound : CurrentObject) (c : Option CurrentObject)
    (a : Action)
    → Carries object.address bound a
    → All (Carries object.address bound) (or_collision workspace object c a).0
unfolding or_collision
or_collision-Carries workspace object bound none a h = (h, tt)
or_collision-Carries workspace object bound (some c) a h = tt

key_action-Carries :
    (h : Host) (object : DesiredObject) (bound : CurrentObject) (t : ActionType) (i : Bool)
    → bound.tombstone ≡ false
    → (k : String × Json) → Carries object.address bound (key_action h object bound t i k)
unfolding key_action
key_action-Carries h object bound t i live k = (refl, inr (refl, live))

key_actions-Carries :
    (h : Host) (object : DesiredObject) (bound : CurrentObject) (t : ActionType) (i : Bool)
    → bound.tombstone ≡ false
    → (keys : List (String × Json))
    → All (Carries object.address bound) (map (key_action h object bound t i) keys)
key_actions-Carries h object bound t i live keys =
    All-map (Carries object.address bound) (key_action h object bound t i) keys
      (key_action-Carries h object bound t i live)

machine_key_actions-Carries :
    (h : Host) (object : DesiredObject) (bound : CurrentObject)
    → bound.tombstone ≡ false
    → All (Carries object.address bound) (machine_key_actions h object bound)
unfolding machine_key_actions
machine_key_actions-Carries h object bound live =
    let before = public_keys bound.state in
    let after = public_keys object.state in
    let added = sort by_key (keys_without before after) in
    let dropped = sort by_key (keys_without after before) in
    All-append (Carries object.address bound)
      (map (key_action h object bound register_key false) added)
      (map (key_action h object bound revoke_key true) dropped)
      (key_actions-Carries h object bound register_key false live added)
      (key_actions-Carries h object bound revoke_key true live dropped)

update_actions-Carries :
    (h : Host) (object : DesiredObject) (bound : CurrentObject)
    → bound.tombstone ≡ false
    → All (Carries object.address bound) (update_actions h object bound)
unfolding update_actions
update_actions-Carries h object bound live =
    let updating : Action = record (action_for object update (some bound)) { drift = true } in
    let updated : All (Carries object.address bound) (updating ∷ []) =
      (unfold action_for in (refl, observe_lem bound), tt) in
    elim (Bool-cases (same_kind object.kind machine)) [
      | inl e ↦ rw e (
          All-append (Carries object.address bound) (machine_key_actions h object bound)
            (updating ∷ []) (machine_key_actions-Carries h object bound live) updated)
      | inr e ↦ rw e updated
    ]

pub if-All :
    (P : Action → Type 0) (b : Bool) (x y : Step)
    → (b ≡ true → All P x.0)
    → (b ≡ false → All P y.0)
    → All P (if b then x else y).0
if-All P true x y hx hy = hx refl
if-All P false x y hx hy = hy refl

plan_bound-Carries :
    (h : Host) (workspace : String) (current : List CurrentObject) (object : DesiredObject)
    (bound : CurrentObject)
    → All (Carries object.address bound) (plan_bound h workspace current object bound).0
unfolding plan_bound
plan_bound-Carries h workspace current object bound =
    let P : Action → Type 0 = Carries object.address bound in
    let collision = find_collision object bound current in
    let again : Action = record (action_for object recreate none) { drift = true } in
    let updated : Step = (update_actions h object bound, []) in
    let kept : Step = planned (action_for object noop (some bound)) in
    let live : Step = if is_drifted h object bound then updated else kept in
    let revived : Step = or_collision workspace object collision again in
    if-All P (is_moved object bound)
      (or_collision workspace object collision (action_for object replace (some bound)))
      (if bound.tombstone then revived else live)
      (λ _.
        or_collision-Carries workspace object bound collision _
          (action_for-Carries object replace bound))
      (λ _.
        if-All P bound.tombstone revived live
          (λ _. or_collision-Carries workspace object bound collision again (refl, inl refl))
          (λ alive.
            if-All P (is_drifted h object bound) updated kept
              (λ _. update_actions-Carries h object bound alive)
              (λ _. (action_for-Carries object noop bound, tt))))

abbrev pub IsOwned : String → String → CurrentObject → Type 0
IsOwned workspace address o =
    (owned_by workspace o.owner_workspace_id ≡ true) × (o.address ≡ some address)

pub lookup-index_addresses :
    (workspace a : String) (index : List (String × CurrentObject)) (objects : List CurrentObject)
    (o : CurrentObject)
    → lookup a (index_addresses workspace index objects) ≡ some o
    → (lookup a index ≡ some o) ⊎ Any (λ x. (x ≡ o) × IsOwned workspace a x) objects
unfolding index_addresses
lookup-index_addresses workspace a index [] o h = inl h
lookup-index_addresses workspace a index (x ∷ xs) o h = elim (Option-cases x.address) [
  | inl e ↦ elim (lookup-index_addresses workspace a index xs o (rw e at h)) [
    | inl old ↦ inl old
    | inr new ↦ inr (inr new)
  ]
  | inr (b, e) ↦ elim (Bool-cases (owned_by workspace x.owner_workspace_id && not (b == ""))) [
    | inr skip ↦ elim (lookup-index_addresses workspace a index xs o (rw skip at (rw e at h))) [
      | inl old ↦ inl old
      | inr new ↦ inr (inr new)
    ]
    | inl keep ↦
        elim (lookup-index_addresses workspace a (insert b x index) xs o (rw keep at (rw e at h))) [
          | inr new ↦ inr (inr new)
          | inl old ↦ elim (Bool-cases (b == a)) [
            | inl this ↦ inr (
                inl (
                  ground (arith, lookup-insert b a x index),
                  (ground arith, ground (arith, eq_iff b a)),
                ))
            | inr other ↦ inl (ground (arith, lookup-insert b a x index))
          ]
        ]
  ]
]

pub or_collision-All :
    (P : Action → Type 0) (workspace : String) (object : DesiredObject) (c : Option CurrentObject)
    (a : Action)
    → P a
    → All P (or_collision workspace object c a).0
unfolding or_collision
or_collision-All P workspace object none a h = (h, tt)
or_collision-All P workspace object (some c) a h = tt

plan_objects-All :
    (P : Action → Type 0) (decide : DesiredObject → Step) (objects : List DesiredObject)
    → ((o : DesiredObject) → All P (decide o).0)
    → All P (plan_objects decide objects).0
unfolding plan_objects
plan_objects-All P decide [] h = tt
plan_objects-All P decide (o ∷ os) h =
    All-append P (decide o).0 (plan_objects decide os).0 (h o) (plan_objects-All P decide os h)

module _ (workspace : String) (objects : List CurrentObject) where
  -- A new object, the CLI settings, or a bound object of the workspace at the version read.
  abbrev pub IsAllowed : Action → Type 0
  IsAllowed a =
      (a.action ≡ create)
      ⊎ (a.kind ≡ cli)
      ⊎ Any
          (λ o.
            IsOwned workspace a.address o
            × ((a.observed_version ≡ none)
                ⊎ ((a.observed_version ≡ some o.version) × (o.tombstone ≡ false))))
          objects

  IsAllowed-Carries :
      (address : String) (bound : CurrentObject) (a : Action)
      → Any (λ x. (x ≡ bound) × IsOwned workspace address x) objects
      → Carries address bound a
      → IsAllowed a
  IsAllowed-Carries address bound a owned (same, version) =
      inr (inr (Any-map_pred _ _ objects (λ x p. ((p.1.0, rw same p.1.1), rw p.0 version)) owned))

  plan_object-IsAllowed :
      (h : Host) (by_natural : List (String × CurrentObject)) (object : DesiredObject)
      → All IsAllowed
          (plan_object h workspace objects
            (index_addresses workspace [] objects)
            by_natural
            object).0
  unfolding plan_object lookup
  plan_object-IsAllowed h by_natural object =
      elim (Option-cases (lookup object.address (index_addresses workspace [] objects))) [
        | inr (bound, e) ↦
            let owned : Any (λ x. (x ≡ bound) × IsOwned workspace object.address x) objects =
              elim (lookup-index_addresses workspace object.address [] objects bound e) [
                | inl p ↦ cc
                | inr q ↦ q
              ] in
            rw (e, plan_object)
              (All-map_pred (Carries object.address bound) IsAllowed
                (plan_bound h workspace objects object bound).0
                (λ a. IsAllowed-Carries object.address bound a owned)
                (plan_bound-Carries h workspace objects object bound))
        | inl e ↦
            rw (e, plan_object)
              (or_collision-All IsAllowed workspace object
                (lookup (natural_key object.kind object.identity) by_natural)
                (action_for object create none) (inl (unfold action_for in refl)))
      ]

  abbrev IsManaged : String × CurrentObject → Type 0
  IsManaged (a, o) = Any (λ x. (x ≡ o) × IsOwned workspace a x) objects

  delete_action-Carries : (a : String) (o : CurrentObject) → Carries a o (delete_action a o)
  unfolding delete_action
  delete_action-Carries a o = (refl, observe_lem o)

  deletions-IsAllowed :
      (desired : List DesiredObject) (managed : List (String × CurrentObject))
      → All IsManaged managed
      → All IsAllowed (deletions desired managed)
  unfolding deletions
  deletions-IsAllowed desired [] h = tt
  deletions-IsAllowed desired ((a, o) ∷ rest) (m, h) = elim (Bool-cases (wants_address desired a)) [
    | inl e ↦ rw e (deletions-IsAllowed desired rest h)
    | inr e ↦ rw e (
      IsAllowed-Carries a o (delete_action a o) m (delete_action-Carries a o),
      deletions-IsAllowed desired rest h,
    )
  ]

  confirm_authority-IsAllowed :
      (desired : List DesiredObject) (index : List (String × CurrentObject)) (a : Action)
      → IsAllowed a
      → IsAllowed (confirm_authority desired index a)
  unfolding confirm_authority
  confirm_authority-IsAllowed desired index a h =
      elim (Bool-cases (needs_confirmation desired index a)) [
        | inl e ↦ rw (e, confirm_authority) h
        | inr e ↦ rw (e, confirm_authority) h
      ]

  cli_actions-IsAllowed :
      (wanted : Option CliConfig) (now : Option CliSettings)
      → All IsAllowed (cli_actions wanted now)
  unfolding cli_actions
  cli_actions-IsAllowed none now = tt
  cli_actions-IsAllowed (some w) now = (inr (inl refl), tt)

pub IsOwned-managed_address :
    (workspace : String) (o : CurrentObject) (a : String)
    → managed_address workspace o ≡ some a
    → IsOwned workspace a o
IsOwned-managed_address workspace o a h = (ground arith, ground arith)

managed_objects-IsManaged :
    (workspace : String) (objects : List CurrentObject)
    → All (IsManaged workspace objects) (managed_objects workspace objects)
unfolding managed_objects
managed_objects-IsManaged workspace [] = tt
managed_objects-IsManaged workspace (o ∷ os) =
    let rest : All (IsManaged workspace (o ∷ os)) (managed_objects workspace os) =
      All-map_pred (IsManaged workspace os) (IsManaged workspace (o ∷ os))
        (managed_objects workspace os) (λ p h. inr h) (managed_objects-IsManaged workspace os) in
    elim (Option-cases (managed_address workspace o)) [
      | inl e ↦ rw (e, managed_objects) rest
      | inr (a, e) ↦
          rw (e, managed_objects) (inl (refl, IsOwned-managed_address workspace o a e), rest)
    ]

-- Every action of a plan makes a new object, sets the CLI settings, or goes to an object that is
-- bound at its address in the manifest's own workspace; if it carries a version, that object is
-- alive and the version is the one that was read.
pub draft_actions-IsAllowed :
    (h : Host) (manifest : Manifest) (current : PlanningState) (desired : List DesiredObject)
    (by_natural : List (String × CurrentObject))
    → All (IsAllowed manifest.workspace_id current.objects) (
        draft_actions h manifest current desired
          (index_addresses manifest.workspace_id [] current.objects)
          (plan_objects
            (plan_object h manifest.workspace_id current.objects
              (index_addresses manifest.workspace_id [] current.objects)
              by_natural)
            desired).0)
unfolding draft_actions
draft_actions-IsAllowed h manifest current desired by_natural =
    let w = manifest.workspace_id in
    let objects = current.objects in
    let index = index_addresses w [] objects in
    let decide = plan_object h w objects index by_natural in
    let managed = sort (by_address_descending h) (managed_objects w objects) in
    let removed = deletions desired managed in
    let settings = cli_actions manifest.cli current.cli_settings in
    All-map_of (IsAllowed w objects) (IsAllowed w objects) (confirm_authority desired index)
      ((plan_objects decide desired).0 ++ (settings ++ removed))
      (confirm_authority-IsAllowed w objects desired index)
      (All-append (IsAllowed w objects) (plan_objects decide desired).0 (settings ++ removed)
        (plan_objects-All (IsAllowed w objects) decide desired
          (plan_object-IsAllowed w objects h by_natural))
        (All-append (IsAllowed w objects) settings removed
          (cli_actions-IsAllowed w objects manifest.cli current.cli_settings)
          (deletions-IsAllowed w objects desired managed (
            All-sort (by_address_descending h) (IsManaged w objects) (managed_objects w objects)
              (managed_objects-IsManaged w objects)))))
