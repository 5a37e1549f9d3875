-- ===== src/Iac/Service/Administrators.antt =====
-- assertFinalAdministratorSafe of apps/weldall/src/server/iac/service.ts: an apply that would leave no
-- verified administrator is refused.
pub mod Kept
use weldall.Prelude.{
  String, Bool, true, false, not, ◌&&◌, ◌||◌, Option, none, some, List, [], ◌∷◌, map, any, includes,
  if◌then◌else◌, ◌==◌, lookup, insert, Result,
}
use weldall.Iac.Json.{Json, done, text_field, texts_field, ◌+s◌}
use weldall.Iac.Contracts.{Manifest}
use weldall.Iac.Rows.{Reference, BindingRow, EmailRow, Tables}
use weldall.Iac.Service.{Failure, iac_error, ensure}

abbrev pub admin_scope : String
admin_scope = "weldall:administer"

abbrev pub is_admin_grant : Reference → Bool
is_admin_grant grant = grant.key == admin_scope

unfoldable pub admin_rows : List EmailRow → List EmailRow
admin_rows [] = []
admin_rows (row ∷ rows) =
    let rest = admin_rows rows in if any is_admin_grant row.grants then row ∷ rest else rest

-- The bindings of email assignments in the workspace.
unfoldable pub email_bindings : String → List BindingRow → List BindingRow
email_bindings workspace [] = []
email_bindings workspace (b ∷ bs) =
    let rest = email_bindings workspace bs in
    if b.workspace_id == workspace && b.kind == "EMAIL_ASSIGNMENT" then b ∷ rest else rest

-- `desiredByAddress`.
unfoldable pub desired_emails : List (String × Json) → List (String × Json) → List (String × Json)
desired_emails index [] = index
desired_emails index ((name, item) ∷ rest) =
    desired_emails (insert ("emailAssignment." +s name) item index) rest

unfoldable pub is_desired_admin : Json → Bool
unfolding texts_field
is_desired_admin item = includes (texts_field "scopes" item) admin_scope

abbrev pub email_of : Json → String
email_of item = elim (text_field "email" item) [ none ↦ "" | some e ↦ e ]

-- `finalAdmins.delete(…)` and `add`.
unfoldable pub without : String → List String → List String
without email [] = []
without email (e ∷ es) = let rest = without email es in if e == email then rest else e ∷ rest

abbrev pub with_admin : Option Json → List String → List String
with_admin none admins = admins
with_admin (some item) admins = if is_desired_admin item then email_of item ∷ admins else admins

abbrev pub has_id : String → EmailRow → Bool
has_id id row = row.id == id

-- The email of the administrator's assignment that a binding refers to, if it does.
unfoldable pub bound_admin : List EmailRow → Option String → Option String
bound_admin rows none = none
bound_admin [] (some id) = none
bound_admin (row ∷ rows) (some id) =
    let rest = bound_admin rows (some id) in
    if row.id == id then some row.normalized_email else rest

abbrev pub without_bound : Option String → List String → List String
without_bound none admins = admins
without_bound (some email) admins = without email admins

unfoldable pub rebind_admins :
    List EmailRow → List (String × Json) → List BindingRow → List String → List String
unfolding bound_admin is_desired_admin without
rebind_admins rows desired [] admins = admins
rebind_admins rows desired (b ∷ bs) admins = rebind_admins rows desired bs (
    with_admin (lookup b.address desired)
      (without_bound (bound_admin rows b.email_assignment_id) admins))

abbrev pub is_address : String → BindingRow → Bool
is_address address b = b.address == address

unfoldable pub add_unbound : List BindingRow → List (String × Json) → List String → List String
unfolding is_desired_admin
add_unbound bindings [] admins = admins
add_unbound bindings ((address, item) ∷ rest) admins = add_unbound bindings rest (
    if not (any (is_address address) bindings) && is_desired_admin item
    then email_of item ∷ admins
    else admins)

unfoldable pub final_admins : Manifest → Tables → List String
unfolding admin_rows email_bindings desired_emails rebind_admins add_unbound
final_admins manifest t =
    let rows = admin_rows t.emails in
    let bindings = email_bindings manifest.workspace_id t.bindings in
    let desired = desired_emails [] manifest.email_assignments in
    add_unbound bindings desired
      (rebind_admins rows desired bindings (map (λ (r : EmailRow). r.normalized_email) rows))

-- `normalize` is `trim().toLowerCase()`, and `verified_users` are the emails of the users who have
-- verified theirs.
unfoldable pub assert_final_administrator_safe :
    (String → String) → List String → Manifest → Tables → Result Failure Unit
unfolding final_admins
assert_final_administrator_safe normalize verified_users manifest t =
    ensure (any (includes (map normalize verified_users)) (final_admins manifest t))
      (iac_error "LAST_ADMIN" "The last verified administrator cannot be removed" 409 done)
