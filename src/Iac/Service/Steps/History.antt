-- ===== src/Iac/Service/Steps/History.antt =====
-- The log of operations that apps/weldall/src/server/iac/service.ts keeps, and the revisions of the
-- workspaces.
use mathlib.Core.List.{append-nil}
use weldall.Prelude.{
  result-cases, some-inj, ◌≡◌, subst, inl, inr, refl, sym, ap, ◌∙◌, ℕ, zero, suc, String, Bool,
  true, false, ◌&&◌, Option, none, some, List, [], ◌∷◌, ◌++◌, lookup, insert, Result, ok, arith,
  ◌==◌, eq_iff, lookup-insert, insert_absent, if◌then◌else◌, Bool-cases, includes,
}
use weldall.Iac.Json.{Json}
use weldall.Iac.Contracts.{Manifest, scope, same_kind}
use weldall.Iac.Loading.State.{or_zero}
use weldall.Iac.Service.{
  Failure, IacActor, WorkspaceRow, OperationRow, Database, Services, transact, started,
}
use weldall.Iac.Service.Lifecycle.{
  import_transaction, unmanage_transaction, move_transaction, unmanage_checks, system_scope_keys,
  import_iac, unmanage_iac,
}
use weldall.Iac.Service.Steps.{Request, imports, unmanages, moves, handle, run}
use weldall.Iac.Service.Steps.Commits.{finished, raised}
use weldall.Iac.Service.Steps.Effects.{Ticket, Commit, Effect}
use weldall.Iac.Service.Steps.Operations.{
  Opens, move_transaction-Effect, unmanage_transaction-Effect, import_transaction-Effect,
}

-- The revisions that the operations of a workspace led to, in the order of the operations.
abbrev pub revisions : String → List (String × OperationRow) → List ℕ
revisions w [] = []
revisions w ((id, row) ∷ rows) =
    if row.workspace_id == w && row.succeeded
    then or_zero row.resulting_revision ∷ revisions w rows
    else revisions w rows

abbrev revision_in : Option WorkspaceRow → ℕ
revision_in none = 0
revision_in (some w) = w.revision

-- The revision of a workspace, which is 0 before it is made.
abbrev pub revision_of : String → Database → ℕ
revision_of w db = revision_in (lookup w db.workspaces)

-- 1, 2, …, n.
abbrev pub up_to : ℕ → List ℕ
up_to zero = []
up_to (suc n) = up_to n ++ suc n ∷ []

abbrev pub IsKeyed : Database → Type 0
IsKeyed db = (k : String) (w : WorkspaceRow) → lookup k db.workspaces ≡ some w → w.id ≡ k

abbrev pub IsLogged : Database → Type 0
IsLogged db = (w : String) → revisions w db.operations ≡ up_to (revision_of w db)

revisions-append :
    (w : String) (rows more : List (String × OperationRow))
    → revisions w (rows ++ more) ≡ revisions w rows ++ revisions w more
revisions-append w [] more = refl
revisions-append w ((id, row) ∷ rows) more = ground (arith, revisions-append w rows more)

IsKeyed-insert :
    (k : String) (w : WorkspaceRow) (db after : Database)
    → w.id ≡ k
    → after.workspaces ≡ insert k w db.workspaces
    → IsKeyed db
    → IsKeyed after
IsKeyed-insert k w db after same e keyed j v found =
    let there = ap (λ m. lookup j m) (sym e) ∙ found in
    elim (Bool-cases (k == j)) [
      | inl is_k ↦
          let it =
            some-inj w v _
              (lookup-insert k j w db.workspaces
                ∙ ap (λ b. if b then some w else lookup j db.workspaces) is_k)
              there in
          ap (λ (u : WorkspaceRow). u.id) (sym it) ∙ same ∙ (eq_iff k j).0 is_k
      | inr other ↦ keyed j v (
          ap (λ b. if b then some w else lookup j db.workspaces) (sym other)
          ∙ sym (lookup-insert k j w db.workspaces)
          ∙ there)
    ]

revision_in-if :
    (b : Bool) (w : WorkspaceRow) (o : Option WorkspaceRow)
    → revision_in (if b then some w else o) ≡ (if b then w.revision else revision_in o)
revision_in-if true w o = refl
revision_in-if false w o = refl

revision_of-insert :
    (k : String) (w : WorkspaceRow) (db after : Database) (j : String)
    → after.workspaces ≡ insert k w db.workspaces
    → revision_of j after ≡ (if k == j then w.revision else revision_of j db)
revision_of-insert k w db after j e =
    ap (λ m. revision_in (lookup j m)) e
    ∙ ap revision_in (lookup-insert k j w db.workspaces)
    ∙ revision_in-if (k == j) w (lookup j db.workspaces)

revision_of-absent :
    (k j : String) (db : Database)
    → lookup k db.workspaces ≡ none
    → (if k == j then 0 else revision_of j db) ≡ revision_of j db
revision_of-absent k j db gone = elim (Bool-cases (k == j)) [
  | inl own ↦
      ap (λ b. if b then 0 else revision_of j db) own
      ∙ sym (ap (λ i. revision_of i db) (sym ((eq_iff k j).0 own)) ∙ ap revision_in gone)
  | inr other ↦ ap (λ b. if b then 0 else revision_of j db) other
]

-- A row that is added counts for its own workspace alone.
revisions-insert :
    (id : String) (row : OperationRow) (db after : Database) (j : String)
    → lookup id db.operations ≡ none
    → after.operations ≡ insert id row db.operations
    → revisions j after.operations ≡ revisions j db.operations ++ revisions j ((id, row) ∷ [])
revisions-insert id row db after j fresh e =
    ap (revisions j) (e ∙ insert_absent id row db.operations fresh)
    ∙ revisions-append j db.operations ((id, row) ∷ [])

module _ (t : Ticket) (result : Json) (db after : Database) where
  Commit-IsLogged : IsKeyed db → IsLogged db → Commit t result db after → IsLogged after
  Commit-IsLogged keyed logged c j =
      let w = c.workspace in
      let row = finished (started w t.type t.request_digest) (suc w.revision) result in
      let same : w.id ≡ t.workspace_id = keyed t.workspace_id w c.found in
      let log = revisions-insert t.id row db after j c.fresh c.operations in
      let new = revision_of-insert t.workspace_id (raised w c.actor_id) db after j c.workspaces in
      elim (Bool-cases (t.workspace_id == j)) [
        | inl own ↦
            let own_row : (w.id == j) ≡ true = ap (λ k. k == j) same ∙ own in
            let at : revision_of j db ≡ w.revision =
              ap (λ k. revision_of k db) (sym ((eq_iff t.workspace_id j).0 own))
              ∙ ap revision_in c.found in
            log
            ∙ ap (λ b. revisions j db.operations ++ (if b && true then suc w.revision ∷ [] else []))
                own_row
            ∙ ap (λ rs. rs ++ suc w.revision ∷ []) (logged j ∙ ap up_to at)
            ∙ sym (ap up_to (new ∙ ap (λ b. if b then suc w.revision else revision_of j db) own))
        | inr other ↦
            let other_row : (w.id == j) ≡ false = ap (λ k. k == j) same ∙ other in
            log
            ∙ ap (λ b. revisions j db.operations ++ (if b && true then suc w.revision ∷ [] else []))
                other_row
            ∙ append-nil (revisions j db.operations)
            ∙ logged j
            ∙ sym (ap up_to (new ∙ ap (λ b. if b then suc w.revision else revision_of j db) other))
      ]

  pub Effect-IsSound :
      IsKeyed db × IsLogged db → Effect t result db after → IsKeyed after × IsLogged after
  Effect-IsSound h (machines, inl (stands, e)) = subst (λ d. IsKeyed d × IsLogged d) (sym e) h
  Effect-IsSound (keyed, logged) (machines, inr c) = (
    IsKeyed-insert t.workspace_id (raised c.workspace c.actor_id) db after
        (keyed t.workspace_id c.workspace c.found) c.workspaces keyed,
    Commit-IsLogged keyed logged c,
  )

Opens-IsSound :
    (manifest : Manifest) (w : WorkspaceRow) (db opened : Database)
    → Opens manifest w db opened
    → IsKeyed db × IsLogged db
    → IsKeyed opened × IsLogged opened
Opens-IsSound manifest w db opened (inl (found, same, e)) h =
    subst (λ d. IsKeyed d × IsLogged d) (sym e) h
Opens-IsSound manifest w db opened (inr (gone, (actor_id, is_new), e)) (keyed, logged) =
    let id = manifest.workspace_id in
    (
      IsKeyed-insert id w db opened (ap (λ (v : WorkspaceRow). v.id) is_new)
          (ap (λ (d : Database). d.workspaces) e) keyed,
      λ j.
          ap (λ (d : Database). revisions j d.operations) e
          ∙ logged j
          ∙ ap up_to (
              sym (
                revision_of-insert id w db opened j (ap (λ (d : Database). d.workspaces) e)
                ∙ ap (λ (v : WorkspaceRow). if id == j then v.revision else revision_of j db) is_new
                ∙ revision_of-absent id j db gone)),
    )

-- A transaction keeps what its body keeps when it returns.
pub transact-keeps :
    (P : Database → Type 0) (body : Database → Result Failure (Json × Database)) (db : Database)
    → P db
    → ((result : Json) (after : Database) → body db ≡ ok (result, after) → P after)
    → P (transact body db).1
unfolding transact
transact-keeps P body db p keeps = elim (result-cases (body db)) [
  | inr (f, e) ↦ rw (e, transact) (p)
  | inl (x, e) ↦ rw (e, transact) (keeps x.0 x.1 e)
]

-- A sound state: what requests keep of the workspaces and of the log.
abbrev pub IsSound : Database → Type 0
IsSound db = IsKeyed db × IsLogged db

pub handle-IsSound :
    (env : Services) (request : Request) (actor : IacActor) (db : Database)
    → IsSound db
    → IsSound (handle env request actor db).1
unfolding handle
handle-IsSound env (moves input) actor db h =
    transact-keeps IsSound (move_transaction env input actor) db h (λ result after e.
      Effect-IsSound _ result db after h
        (move_transaction-Effect env actor db result after input e).1)
handle-IsSound env (unmanages input) actor db h = elim (result-cases (unmanage_checks env input)) [
  | inr (f, e) ↦ rw (e, unmanage_iac) (h)
  | inl (manifest, e) ↦
      rw (e, unmanage_iac)
        (transact-keeps IsSound (unmanage_transaction env manifest input actor) db h
          (λ result after k.
            Effect-IsSound _ result db after h
              (unmanage_transaction-Effect env actor db result after manifest input k).3))
]
handle-IsSound env (imports new_id input) actor db h =
    elim (Bool-cases (same_kind input.kind scope && includes system_scope_keys input.identity)) [
      | inl system ↦ rw (system, import_iac) (h)
      | inr other ↦
          rw (other, import_iac)
            (transact-keeps IsSound (import_transaction env new_id input actor) db h
              (λ result after k.
                let (_, manifest, _, w, opened, opens, effect) =
                  import_transaction-Effect env actor db result after new_id input h.0 k in
                Effect-IsSound _ result opened after (Opens-IsSound manifest w db opened opens h)
                  effect))
    ]

-- In every state that requests lead to, every workspace stands under its identifier, and the recorded
-- operations of a workspace that have succeeded led to the revisions 1, 2, … up to its own, each of them
-- once and in that order, if this held at first.
pub run-IsSound :
    (env : Services) (requests : List (Request × IacActor)) (db : Database)
    → IsSound db
    → IsSound (run env requests db)
unfolding run
run-IsSound env [] db h = h
run-IsSound env ((request, actor) ∷ rest) db h =
    run-IsSound env rest (handle env request actor db).1 (handle-IsSound env request actor db h)
