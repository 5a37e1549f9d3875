-- ===== src/Iac/Service/Administrators/Kept.antt =====
-- Who is an administrator when assertFinalAdministratorSafe of
-- apps/weldall/src/server/iac/service.ts lets an apply pass.
use weldall.Prelude.{
  some-inj, ◌≡◌, ◌≢◌, ◌⊎◌, inl, inr, refl, subst, sym, ap, String, Bool, true, false, not, ◌&&◌,
  ◌||◌, Option, none, some, List, [], ◌∷◌, map, any, All, Any, includes, ◌==◌, eq_iff, lookup, ok,
  Bool-cases, Option-cases, arith,
}
use weldall.Iac.Json.{Json}
use weldall.Iac.Contracts.{Manifest}
use weldall.Iac.Rows.{BindingRow, EmailRow, Tables}
use weldall.Iac.Service.Administrators.{
  admin_rows, email_bindings, desired_emails, is_desired_admin, email_of, without, with_admin,
  bound_admin, without_bound, rebind_admins, add_unbound, final_admins, is_address,
  assert_final_administrator_safe,
}
use weldall.Iac.Service.Steps.Operations.{ensure-eq-ok}

-- A desired assignment gives the email the administrators' scope.
abbrev pub MakesAdmin : String → String × Json → Type 0
MakesAdmin email (address, item) = (is_desired_admin item ≡ true) × (email_of item ≡ email)

abbrev pub IsDesiredAdmin : List (String × Json) → String → Type 0
IsDesiredAdmin desired email = Any (MakesAdmin email) desired

-- The email is an administrator now, by an assignment that no binding of the workspace refers to.
abbrev pub IsUnboundAdmin : List EmailRow → List BindingRow → String → Type 0
IsUnboundAdmin rows bindings email =
    (includes (map (λ (r : EmailRow). r.normalized_email) rows) email ≡ true)
    × All (λ (b : BindingRow). bound_admin rows b.email_assignment_id ≢ some email) bindings

and-right : (a b : Bool) → (a && b) ≡ true → b ≡ true
and-right true b h = h
and-right false b h = cc

or-right : (a b : Bool) → b ≡ true → (a || b) ≡ true
or-right true b h = refl
or-right false b h = h

includes-without :
    (gone email : String) (es : List String)
    → includes (without gone es) email ≡ true
    → (includes es email ≡ true) × (gone ≢ email)
unfolding without
includes-without gone email [] h = cc
includes-without gone email (e ∷ es) h =
    ground (arith, includes-without gone email es, eq_iff e gone, eq_iff e email)

includes-without_bound :
    (o : Option String) (email : String) (es : List String)
    → includes (without_bound o es) email ≡ true
    → (includes es email ≡ true) × (o ≢ some email)
includes-without_bound none email es h = (h, λ e. cc e)
includes-without_bound (some gone) email es h =
    let (there, other) = includes-without gone email es h in
    (there, λ e. other (some-inj gone email (some gone) refl e))

Any-lookup :
    (P : String × Json → Type 0) (a : String) (item : Json) (m : List (String × Json))
    → lookup a m ≡ some item
    → ((b : String) → P (b, item))
    → Any P m
unfolding lookup
Any-lookup P a item [] h p = cc h
Any-lookup P a item ((b, v) ∷ m) h p = elim (Bool-cases (b == a)) [
  | inl own ↦
      let same : v ≡ item = some-inj v item (some v) refl (rw own at h) in
      inl (subst (λ w. P (b, w)) (sym same) (p b))
  | inr other ↦ inr (Any-lookup P a item m (rw other at h) p)
]

includes-with_admin :
    (desired : List (String × Json)) (a email : String) (es : List String)
    → includes (with_admin (lookup a desired) es) email ≡ true
    → IsDesiredAdmin desired email ⊎ (includes es email ≡ true)
includes-with_admin desired a email es h = elim (Option-cases (lookup a desired)) [
  | inl gone ↦ inr (rw gone at h)
  | inr (item, found) ↦
      let h' : includes (with_admin (some item) es) email ≡ true = rw found at h in
      elim (Bool-cases (is_desired_admin item)) [
        | inr plain ↦ inr (rw plain at h')
        | inl admin ↦ elim (Bool-cases (email_of item == email)) [
          | inl own ↦ inl (
              Any-lookup (MakesAdmin email) a item desired found
                (λ b. (admin, (eq_iff (email_of item) email).0 own)))
          | inr other ↦ inr (rw (admin, other) at h')
        ]
      ]
]

includes-rebind_admins :
    (rows : List EmailRow) (desired : List (String × Json)) (bs : List BindingRow)
    (es : List String) (email : String)
    → includes (rebind_admins rows desired bs es) email ≡ true
    → IsDesiredAdmin desired email
      ⊎ ((includes es email ≡ true)
          × All (λ (b : BindingRow). bound_admin rows b.email_assignment_id ≢ some email) bs)
unfolding rebind_admins
includes-rebind_admins rows desired [] es email h = inr (h, tt)
includes-rebind_admins rows desired (b ∷ bs) es email h =
    elim (includes-rebind_admins rows desired bs _ email h) [
      | inl wanted ↦ inl wanted
      | inr (there, unbound) ↦ elim (includes-with_admin desired b.address email _ there) [
        | inl wanted ↦ inl wanted
        | inr kept ↦
            let (first, other) =
              includes-without_bound (bound_admin rows b.email_assignment_id) email es kept in
            inr (first, (other, unbound))
      ]
    ]

includes-add_unbound :
    (bindings : List BindingRow) (desired : List (String × Json)) (es : List String)
    (email : String)
    → includes (add_unbound bindings desired es) email ≡ true
    → IsDesiredAdmin desired email ⊎ (includes es email ≡ true)
unfolding add_unbound
includes-add_unbound bindings [] es email h = inr h
includes-add_unbound bindings ((a, item) ∷ rest) es email h =
    elim (includes-add_unbound bindings rest _ email h) [
      | inl wanted ↦ inl (inr wanted)
      | inr there ↦ elim (Bool-cases (not (any (is_address a) bindings) && is_desired_admin item)) [
        | inr plain ↦ inr (rw plain at there)
        | inl admin ↦ elim (Bool-cases (email_of item == email)) [
          | inl own ↦ inl (
              inl (
                and-right (not (any (is_address a) bindings)) (is_desired_admin item) admin,
                (eq_iff (email_of item) email).0 own,
              ))
          | inr other ↦ inr (rw (admin, other) at there)
        ]
      ]
    ]

any-includes :
    (verified es : List String)
    → any (includes verified) es ≡ true
    → (e : String) × (includes verified e ≡ true) × (includes es e ≡ true)
any-includes verified [] h = cc h
any-includes verified (e ∷ es) h = elim (Bool-cases (includes verified e)) [
  | inl own ↦ (e, own, ap (λ b. b || includes es e) ((eq_iff e e).1 refl))
  | inr other ↦
      let (f, is_verified, there) = any-includes verified es (rw other at h) in
      (f, is_verified, or-right (e == f) (includes es f) there)
]

-- Where the check passes, some verified email is an administrator afterwards: a desired assignment makes
-- it one, or it has an assignment that no binding of the workspace refers to.
pub assert_final_administrator_safe-ok :
    (normalize : String → String) (verified_users : List String) (manifest : Manifest) (t : Tables)
    (u : Unit)
    → assert_final_administrator_safe normalize verified_users manifest t ≡ ok u
    → (email : String) × (includes (map normalize verified_users) email ≡ true)
      × (IsDesiredAdmin (desired_emails [] manifest.email_assignments) email
          ⊎ IsUnboundAdmin
              (admin_rows t.emails)
              (email_bindings manifest.workspace_id t.bindings)
              email)
unfolding assert_final_administrator_safe final_admins
assert_final_administrator_safe-ok normalize verified_users manifest t u h =
    let rows = admin_rows t.emails in
    let bindings = email_bindings manifest.workspace_id t.bindings in
    let desired = desired_emails [] manifest.email_assignments in
    let (email, is_verified, there) =
      any-includes (map normalize verified_users) (final_admins manifest t)
        (ensure-eq-ok _ _ u h) in
    (
      email,
      is_verified,
      elim (includes-add_unbound bindings desired _ email there) [
        | inl wanted ↦ inl wanted
        | inr kept ↦ includes-rebind_admins rows desired bindings _ email kept
      ],
    )
