-- ===== src/Iac/Loading/References/Guarded.antt =====
-- A use that raises no blocker lets its target go: its source gives the target up.
use weldall.Prelude.{
  ◌≡◌, refl, sym, ap, ◌∙◌, inl, inr, String, true, false, some, List, [], ◌∷◌, ◌++◌, arith,
  Bool-cases, Option-cases, Any, lookup,
}
use weldall.Iac.Contracts.{CurrentObject}
use weldall.Iac.Graph.{owned_by}
use weldall.Iac.Loading.References.{
  Scene, Use, find_target, is_deleted, is_holding, is_holding_source, names_target, use_blockers,
  reference_blockers,
}

-- The source is bound in the workspace too, and the manifest drops it or no longer has it name the
-- target.
abbrev pub Releases : Scene → Use → CurrentObject → Type 0
Releases s u target =
    (source : CurrentObject) × (lookup u.source_id s.by_id ≡ some source)
    × (owned_by s.workspace source.owner_workspace_id ≡ true)
    × ((a : String) × (source.address ≡ some a)
        × (names_target u.field target.identity (lookup a s.desired) ≡ false))

pub append-nil : {A : Type 0} (xs ys : List A) → xs ++ ys ≡ [] → (xs ≡ []) × (ys ≡ [])
append-nil [] ys h = (refl, h)
append-nil (x ∷ xs) ys h = cc

is_holding-Releases :
    (s : Scene) (u : Use) (target : CurrentObject)
    → is_holding s u target (lookup u.source_id s.by_id) ≡ false
    → Releases s u target
is_holding-Releases s u target h = elim (Option-cases (lookup u.source_id s.by_id)) [
  | inl e ↦ cc (rw e at h)
  | inr (source, e) ↦
      let held : is_holding_source s u target source ≡ false = rw e at h in
      elim (Option-cases source.address) [
        | inl e' ↦ ground (arith, held, e')
        | inr (a, e') ↦ (source, e, ground (arith, held, e'), (a, e', ground (arith, held, e')))
      ]
]

use_blockers-nil :
    (s : Scene) (u : Use) (target : CurrentObject)
    → use_blockers s u ≡ []
    → find_target u.target s.objects ≡ some target
    → is_deleted s target ≡ true
    → Releases s u target
unfolding use_blockers
use_blockers-nil s u target h found gone =
    elim (Bool-cases (is_holding s u target (lookup u.source_id s.by_id))) [
      | inl held ↦ cc (rw held at (rw gone at (rw (found, use_blockers) at h)))
      | inr free ↦ is_holding-Releases s u target free
    ]

-- If the references raise no blocker, then whatever refers to an object that the plan deletes is
-- bound in the workspace too, and is dropped by the manifest or no longer names the object there.
pub reference_blockers-nil :
    (s : Scene) (us : List Use) (u : Use) (target : CurrentObject)
    → reference_blockers s us ≡ []
    → Any (λ x. x ≡ u) us
    → find_target u.target s.objects ≡ some target
    → is_deleted s target ≡ true
    → Releases s u target
unfolding reference_blockers
reference_blockers-nil s [] u target h there found gone = elim there [ ]
reference_blockers-nil s (x ∷ xs) u target h (inl same) found gone =
    use_blockers-nil s u target
      (ap (use_blockers s) (sym same)
        ∙ (append-nil (use_blockers s x) (reference_blockers s xs) h).0)
      found gone
reference_blockers-nil s (x ∷ xs) u target h (inr there) found gone =
    reference_blockers-nil s xs u target
      (append-nil (use_blockers s x) (reference_blockers s xs) h).1 there found gone
