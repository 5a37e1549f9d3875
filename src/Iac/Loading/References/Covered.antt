-- ===== src/Iac/Loading/References/Covered.antt =====
-- Every address at which a plan deletes or replaces an object is one that loading took into account.
use text.Mathlib.TextPositions.{eq_refl}
use weldall.Prelude.{
  ◌≡◌, refl, sym, ap, ◌∙◌, ◌⊎◌, subst, inl, inr, String, Bool, true, false, not, ◌&&◌, Option, none,
  some, List, [], ◌∷◌, ◌++◌, map, arith, if◌then◌else◌, ◌==◌, eq_iff, Bool-cases, Option-cases, All,
  All-append, All-map, All-map_of, All-map_pred, All-sort, Any, Any-map_pred, any, lookup, insert,
  lookup-insert, includes, IsDistinct, sort,
}
use weldall.Iac.Contracts.{
  Host, Kind, ActionType, create, replace, recreate, update, register_key, revoke_key, noop, delete,
  Action, CurrentObject, DesiredObject, PlanningState, Manifest, CliConfig, CliSettings, same_kind,
  same_kind_iff, machine,
}
use weldall.Iac.Graph.{owned_by}
use weldall.Iac.Decision.{
  Step, planned, action_for, or_collision, plan_bound, key_action, machine_key_actions,
  update_actions, is_moved, is_drifted, find_collision, keys_without, by_key, public_keys,
  immutable_resource_change,
}
use weldall.Iac.Sweep.{
  cli_actions, is_same_cli, managed_objects, managed_address, by_address_descending, deletions,
  delete_action, confirm_authority, needs_confirmation, wants_address,
}
use weldall.Iac.Planner.{index_addresses, natural_key, plan_object, plan_objects, draft_actions}
use weldall.Iac.Planner.Ownership.{
  lookup-index_addresses, IsOwned, if-All, or_collision-All, IsOwned-managed_address,
}
use weldall.Iac.Loading.References.{
  index_desired, is_left, resource_changed, leaving_address, deleting_addresses,
}

abbrev pub is_removal : ActionType → Bool
is_removal replace = true
is_removal delete = true
is_removal _ = false

-- Where no two desired objects share an address, the index finds each.
abbrev pub addressed : DesiredObject → String × DesiredObject
addressed o = (o.address, o)

lookup-index_desired :
    (a : String) (o : DesiredObject) (index : List (String × DesiredObject))
    (os : List DesiredObject)
    → (lookup a (map addressed os) ≡ none) × (lookup a index ≡ some o)
    → lookup a (index_desired index os) ≡ some o
unfolding index_desired lookup
lookup-index_desired a o index [] (gone, h) = h
lookup-index_desired a o index (x ∷ xs) (gone, h) =
    lookup-index_desired a o (insert x.address x index) xs
      (ground (arith, gone), ground (arith, gone, lookup-insert x.address a x index))

index_desired-All :
    (index : List (String × DesiredObject)) (os : List DesiredObject)
    → IsDistinct (map addressed os)
    → All (λ o. lookup o.address (index_desired index os) ≡ some o) os
unfolding index_desired
index_desired-All index [] d = tt
index_desired-All index (x ∷ xs) (fresh, d) = (
  lookup-index_desired x.address x (insert x.address x index) xs
      (fresh, ground (arith, lookup-insert x.address x.address x index, eq_refl x.address)),
  index_desired-All (insert x.address x index) xs d,
)

lookup-index_desired-none :
    (a : String) (index : List (String × DesiredObject)) (os : List DesiredObject)
    → lookup a index ≡ none
    → any (λ (o : DesiredObject). o.address == a) os ≡ false
    → lookup a (index_desired index os) ≡ none
unfolding index_desired
lookup-index_desired-none a index [] h n = h
lookup-index_desired-none a index (x ∷ xs) h n =
    lookup-index_desired-none a (insert x.address x index) xs
      (ground (arith, lookup-insert x.address a x index)) (ground arith)

module _ (workspace : String) (index : List (String × DesiredObject)) where
  leaving-includes :
      (objects : List CurrentObject) (o : CurrentObject) (a : String)
      → Any (λ x. x ≡ o) objects
      → leaving_address workspace index o ≡ some a
      → includes (deleting_addresses workspace index objects) a ≡ true
  unfolding deleting_addresses
  leaving-includes [] o a there h = elim there [ ]
  leaving-includes (x ∷ xs) o a (inl same) h =
      let here : leaving_address workspace index x ≡ some a =
        ap (leaving_address workspace index) same ∙ h in
      rw (here, deleting_addresses) (rw (eq_refl a) refl)
  leaving-includes (x ∷ xs) o a (inr there) h =
      elim (Option-cases (leaving_address workspace index x)) [
        | inl e ↦ rw (e, deleting_addresses) (leaving-includes xs o a there h)
        | inr (b, e) ↦ rw (e, deleting_addresses) (ground (arith, leaving-includes xs o a there h))
      ]

  -- An object of the workspace that is left leaves its address.
  leaving_owned :
      (o : CurrentObject) (a : String)
      → IsOwned workspace a o
      → (a == "") ≡ false
      → is_left o (lookup a index) ≡ true
      → leaving_address workspace index o ≡ some a
  unfolding leaving_address
  leaving_owned o a (owned, at) named left =
      rw (at, leaving_address) (rw owned (rw named (rw left refl)))

same_kind_sym : (j k : Kind) → same_kind j k ≡ same_kind k j
same_kind_sym j k = elim (Bool-cases (same_kind j k)) [
  | inl e ↦ e ∙ sym ((same_kind_iff k j).1 (sym ((same_kind_iff j k).0 e)))
  | inr e ↦ elim (Bool-cases (same_kind k j)) [
    | inr e' ↦ e ∙ sym e'
    | inl e' ↦ cc (e, (same_kind_iff j k).1 (sym ((same_kind_iff k j).0 e')))
  ]
]

changed_same :
    (object : DesiredObject) (bound : CurrentObject)
    → bound.kind ≡ object.kind
    → immutable_resource_change object bound ≡ resource_changed bound object
unfolding immutable_resource_change
changed_same object bound k = rw k refl

moved-left :
    (object : DesiredObject) (bound : CurrentObject)
    → is_moved object bound ≡ true
    → is_left bound (some object) ≡ true
unfolding is_moved
moved-left object bound h = elim (Bool-cases (same_kind bound.kind object.kind)) [
  | inr diff ↦ ground (arith, diff, same_kind_sym bound.kind object.kind)
  | inl same ↦ ground (
    arith,
    h,
    same,
    same_kind_sym bound.kind object.kind,
    eq_iff bound.identity object.identity,
    eq_iff object.identity bound.identity,
    changed_same object bound ((same_kind_iff bound.kind object.kind).0 same),
  )
]

-- Not a removal.
abbrev IsKept : Action → Type 0
IsKept a = is_removal a.action ≡ false

update_actions-IsKept :
    (h : Host) (object : DesiredObject) (bound : CurrentObject)
    → All IsKept (update_actions h object bound)
unfolding update_actions machine_key_actions key_action action_for
update_actions-IsKept h object bound =
    let before = public_keys bound.state in
    let after = public_keys object.state in
    let updating : Action = record (action_for object update (some bound)) { drift = true } in
    let registered =
      map (key_action h object bound register_key false)
        (sort by_key (keys_without before after)) in
    let revoked =
      map (key_action h object bound revoke_key true) (sort by_key (keys_without after before)) in
    let keys : All IsKept (machine_key_actions h object bound) =
      All-append IsKept registered revoked
        (All-map IsKept (key_action h object bound register_key false)
          (sort by_key (keys_without before after)) (λ k. refl))
        (All-map IsKept (key_action h object bound revoke_key true)
          (sort by_key (keys_without after before)) (λ k. refl)) in
    elim (Bool-cases (same_kind object.kind machine)) [
      | inl e ↦
          rw e
            (All-append IsKept (machine_key_actions h object bound) (updating ∷ []) keys (refl, tt))
      | inr e ↦ rw e (refl, tt)
    ]

lookup-index_addresses_named :
    (workspace a : String) (index : List (String × CurrentObject)) (objects : List CurrentObject)
    (o : CurrentObject)
    → ((x : CurrentObject) → lookup a index ≡ some x → (a == "") ≡ false)
    → lookup a (index_addresses workspace index objects) ≡ some o
    → (a == "") ≡ false
unfolding index_addresses
lookup-index_addresses_named workspace a index [] o p h = p o h
lookup-index_addresses_named workspace a index (x ∷ xs) o p h = elim (Option-cases x.address) [
  | inl e ↦ lookup-index_addresses_named workspace a index xs o p (rw e at h)
  | inr (b, e) ↦ elim (Bool-cases (owned_by workspace x.owner_workspace_id && not (b == ""))) [
    | inr skip ↦ lookup-index_addresses_named workspace a index xs o p (rw skip at (rw e at h))
    | inl keep ↦
        lookup-index_addresses_named workspace a (insert b x index) xs o
          (λ y q. elim (Bool-cases (b == a)) [
            | inl this ↦ ground (arith, keep, eq_iff b a)
            | inr other ↦ p y (ground (arith, q, other, lookup-insert b a x index))
          ])
          (rw keep at (rw e at h))
  ]
]

IsOwned-of_Any :
    (workspace : String) (objects : List CurrentObject) (o : CurrentObject) (a : String)
    → Any (λ x. (x ≡ o) × IsOwned workspace a x) objects
    → IsOwned workspace a o
IsOwned-of_Any workspace [] o a there = elim there [ ]
IsOwned-of_Any workspace (x ∷ xs) o a (inl (same, owned)) = subst (IsOwned workspace a) same owned
IsOwned-of_Any workspace (x ∷ xs) o a (inr there) = IsOwned-of_Any workspace xs o a there

module _ (h : Host) (workspace : String) (desired : List DesiredObject)
    (objects : List CurrentObject) where
  abbrev pub deleting : List String
  deleting = deleting_addresses workspace (index_desired [] desired) objects

  -- Not a removal, or one at an address that loading counts as left.
  abbrev pub IsCovered : Action → Type 0
  IsCovered a = (is_removal a.action ≡ false) ⊎ (includes deleting a.address ≡ true)

  owned-includes :
      (o : CurrentObject) (a : String)
      → Any (λ x. (x ≡ o) × IsOwned workspace a x) objects
      → (a == "") ≡ false
      → is_left o (lookup a (index_desired [] desired)) ≡ true
      → includes deleting a ≡ true
  owned-includes o a there named left =
      leaving-includes workspace (index_desired [] desired) objects o a
        (Any-map_pred _ _ objects (λ x p. p.0) there)
        (leaving_owned workspace (index_desired [] desired) o a
          (IsOwned-of_Any workspace objects o a there) named left)

  plan_bound-IsCovered :
      (object : DesiredObject) (bound : CurrentObject)
      → (is_moved object bound ≡ true → includes deleting object.address ≡ true)
      → All IsCovered (plan_bound h workspace objects object bound).0
  unfolding plan_bound action_for
  plan_bound-IsCovered object bound covers =
      let collision = find_collision object bound objects in
      let again : Action = record (action_for object recreate none) { drift = true } in
      let updated : Step = (update_actions h object bound, []) in
      let kept : Step = planned (action_for object noop (some bound)) in
      let live : Step = if is_drifted h object bound then updated else kept in
      let revived : Step = or_collision workspace object collision again in
      if-All IsCovered (is_moved object bound)
        (or_collision workspace object collision (action_for object replace (some bound)))
        (if bound.tombstone then revived else live)
        (λ moved.
          or_collision-All IsCovered workspace object collision
            (action_for object replace (some bound)) (inr (covers moved)))
        (λ _.
          if-All IsCovered bound.tombstone revived live
            (λ _. or_collision-All IsCovered workspace object collision again (inl refl))
            (λ _.
              if-All IsCovered (is_drifted h object bound) updated kept
                (λ _.
                  All-map_pred IsKept IsCovered (update_actions h object bound) (λ a e. inl e)
                    (update_actions-IsKept h object bound))
                (λ _. (inl refl, tt))))

  plan_object-IsCovered :
      (by_natural : List (String × CurrentObject)) (object : DesiredObject)
      → lookup object.address (index_desired [] desired) ≡ some object
      → All IsCovered
          (plan_object h workspace objects
            (index_addresses workspace [] objects)
            by_natural
            object).0
  unfolding plan_object action_for lookup
  plan_object-IsCovered by_natural object found =
      elim (Option-cases (lookup object.address (index_addresses workspace [] objects))) [
        | inl e ↦
            rw (e, plan_object)
              (or_collision-All IsCovered workspace object
                (lookup (natural_key object.kind object.identity) by_natural)
                (action_for object create none) (inl refl))
        | inr (bound, e) ↦
            let there : Any (λ x. (x ≡ bound) × IsOwned workspace object.address x) objects =
              elim (lookup-index_addresses workspace object.address [] objects bound e) [
                | inl p ↦ cc
                | inr q ↦ q
              ] in
            let named =
              lookup-index_addresses_named workspace object.address [] objects bound (λ x p. cc)
                e in
            rw (e, plan_object)
              (plan_bound-IsCovered object bound (λ moved.
                owned-includes bound object.address there named
                  (rw found (moved-left object bound moved))))
      ]

  plan_objects-IsCovered :
      (by_natural : List (String × CurrentObject)) (os : List DesiredObject)
      → All (λ o. lookup o.address (index_desired [] desired) ≡ some o) os
      → All IsCovered
          (plan_objects
            (plan_object h workspace objects (index_addresses workspace [] objects) by_natural)
            os).0
  unfolding plan_objects
  plan_objects-IsCovered by_natural [] hs = tt
  plan_objects-IsCovered by_natural (o ∷ os) (found, hs) =
      let decide =
        plan_object h workspace objects (index_addresses workspace [] objects) by_natural in
      All-append IsCovered (decide o).0 (plan_objects decide os).0
        (plan_object-IsCovered by_natural o found) (plan_objects-IsCovered by_natural os hs)

  abbrev IsManagedHere : String × CurrentObject → Type 0
  IsManagedHere (a, o) = Any (λ x. (x ≡ o) × IsOwned workspace a x) objects × ((a == "") ≡ false)

  deletions-IsCovered :
      (managed : List (String × CurrentObject))
      → All IsManagedHere managed
      → All IsCovered (deletions desired managed)
  unfolding deletions delete_action
  deletions-IsCovered [] hs = tt
  deletions-IsCovered ((a, o) ∷ rest) ((there, named), hs) =
      elim (Bool-cases (wants_address desired a)) [
        | inl e ↦ rw e (deletions-IsCovered rest hs)
        | inr e ↦
            let gone : lookup a (index_desired [] desired) ≡ none =
              lookup-index_desired-none a [] desired (unfold lookup in refl) e in
            rw e (inr (owned-includes o a there named (rw gone refl)), deletions-IsCovered rest hs)
      ]

managed_objects-named :
    (workspace : String) (objects : List CurrentObject)
    → All
        (λ p. Any (λ x. (x ≡ p.1) × IsOwned workspace p.0 x) objects × ((p.0 == "") ≡ false))
        (managed_objects workspace objects)
unfolding managed_objects
managed_objects-named workspace [] = tt
managed_objects-named workspace (o ∷ os) =
    let rest =
      All-map_pred (λ p. Any (λ x. (x ≡ p.1) × IsOwned workspace p.0 x) os × ((p.0 == "") ≡ false))
        (λ p. Any (λ x. (x ≡ p.1) × IsOwned workspace p.0 x) (o ∷ os) × ((p.0 == "") ≡ false))
        (managed_objects workspace os) (λ p q. (inr q.0, q.1))
        (managed_objects-named workspace os) in
    elim (Option-cases (managed_address workspace o)) [
      | inl e ↦ rw (e, managed_objects) rest
      | inr (a, e) ↦
          rw (e, managed_objects)
            ((inl (refl, IsOwned-managed_address workspace o a e), ground arith), rest)
    ]

confirm_authority-IsCovered :
    (workspace : String) (desired : List DesiredObject) (objects : List CurrentObject) (h : Host)
    (index : List (String × CurrentObject)) (a : Action)
    → IsCovered h workspace desired objects a
    → IsCovered h workspace desired objects (confirm_authority desired index a)
unfolding confirm_authority
confirm_authority-IsCovered workspace desired objects h index a p =
    elim (Bool-cases (needs_confirmation desired index a)) [
      | inl e ↦ rw (e, confirm_authority) p
      | inr e ↦ rw (e, confirm_authority) p
    ]

cli_actions-IsCovered :
    (workspace : String) (desired : List DesiredObject) (objects : List CurrentObject) (h : Host)
    (wanted : Option CliConfig) (now : Option CliSettings)
    → All (IsCovered h workspace desired objects) (cli_actions wanted now)
unfolding cli_actions
cli_actions-IsCovered workspace desired objects h none now = tt
cli_actions-IsCovered workspace desired objects h (some w) now =
    elim (Bool-cases (is_same_cli w now)) [
      | inl e ↦ (rw e (inl refl), tt)
      | inr e ↦ (rw e (inl refl), tt)
    ]

-- If no two desired objects share an address, then a plan deletes and replaces objects only at
-- addresses that the loading of the state has counted as left, and so has checked for references.
pub draft_actions-IsCovered :
    (h : Host) (manifest : Manifest) (current : PlanningState) (desired : List DesiredObject)
    (by_natural : List (String × CurrentObject))
    → IsDistinct (map addressed desired)
    → All (IsCovered h manifest.workspace_id desired current.objects) (
        draft_actions h manifest current desired
          (index_addresses manifest.workspace_id [] current.objects)
          (plan_objects
            (plan_object h manifest.workspace_id current.objects
              (index_addresses manifest.workspace_id [] current.objects)
              by_natural)
            desired).0)
unfolding draft_actions
draft_actions-IsCovered h manifest current desired by_natural distinct =
    let w = manifest.workspace_id in
    let objects = current.objects in
    let index = index_addresses w [] objects in
    let steps = plan_objects (plan_object h w objects index by_natural) desired in
    let managed = sort (by_address_descending h) (managed_objects w objects) in
    let removed = deletions desired managed in
    let settings = cli_actions manifest.cli current.cli_settings in
    let P = IsCovered h w desired objects in
    All-map_of P P (confirm_authority desired index) (steps.0 ++ (settings ++ removed))
      (confirm_authority-IsCovered w desired objects h index)
      (All-append P steps.0 (settings ++ removed)
        (plan_objects-IsCovered h w desired objects by_natural desired
          (index_desired-All [] desired distinct))
        (All-append P settings removed
          (cli_actions-IsCovered w desired objects h manifest.cli current.cli_settings)
          (deletions-IsCovered h w desired objects managed (
            All-sort (by_address_descending h)
              (λ p. Any (λ x. (x ≡ p.1) × IsOwned w p.0 x) objects × ((p.0 == "") ≡ false))
              (managed_objects w objects) (managed_objects-named w objects)))))
