-- ===== src/Iac/Service/Steps/Effects.antt =====
-- The whole effect of a request to apps/weldall/src/server/iac/service.ts that returns: its operation had
-- succeeded before, or is recorded now.
use weldall.Prelude.{
  some-inj, ok-inj, ◌≡◌, subst, ◌⊎◌, inl, inr, refl, sym, ap, ◌∙◌, suc, String, Bool, true, ◌&&◌,
  Option, none, some, List, lookup, insert, Result, ok, Option-cases, Bool-cases, eq_iff,
  lookup-insert, insert-insert, if◌then◌else◌, ◌==◌,
}
use weldall.Iac.Json.{Json}
use weldall.Iac.Service.{
  Failure, WorkspaceRow, OperationType, OperationRow, Database, begin_operation, started,
  put_operation, same_type,
}
use weldall.Iac.Service.Lifecycle.{unless_replayed}
use weldall.Iac.Service.Steps.Commits.{Finish, finished, raised}

-- The identity of a request: its operation, its workspace, its type and the digest of its input.
pub record Ticket : Type 0 where
  pub id : String
  pub workspace_id : String
  pub type : OperationType
  pub request_digest : String

abbrev pub is_recorded : Ticket → WorkspaceRow → OperationRow → Bool
is_recorded t w row =
    row.workspace_id == w.id
    && (same_type row.type t.type && row.request_digest == t.request_digest)

-- The operation has succeeded with a result.
pub record Stands (t : Ticket) (result : Json) (db : Database) : Type 0 where
  pub workspace : WorkspaceRow
  pub row : OperationRow
  pub found : lookup t.workspace_id db.workspaces ≡ some workspace
  pub stored : lookup t.id db.operations ≡ some row
  pub recorded : is_recorded t workspace row ≡ true
  pub succeeded : row.succeeded ≡ true
  pub result_is : row.result_summary ≡ result

-- The operation was not there, and is there now.
pub record Commit (t : Ticket) (result : Json) (db after : Database) : Type 0 where
  pub workspace : WorkspaceRow
  pub actor_id : String
  pub found : lookup t.workspace_id db.workspaces ≡ some workspace
  pub fresh : lookup t.id db.operations ≡ none
  pub workspaces :
      after.workspaces ≡ insert t.workspace_id (raised workspace actor_id) db.workspaces
  pub operations :
      after.operations
      ≡ insert t.id
          (finished (started workspace t.type t.request_digest) (suc workspace.revision) result)
          db.operations

pub begin_operation-eq-ok :
    (db : Database) (w : WorkspaceRow) (t : Ticket) (begun : Option Json × Database)
    → begin_operation db w t.type t.id t.request_digest ≡ ok begun
    → ((row : OperationRow) × (lookup t.id db.operations ≡ some row)
        × (is_recorded t w row ≡ true)
        × (row.succeeded ≡ true)
        × (begun ≡ (some row.result_summary, db)))
      ⊎ ((lookup t.id db.operations ≡ none)
          × (begun ≡ (none, put_operation t.id (started w t.type t.request_digest) db)))
unfolding begin_operation
begin_operation-eq-ok db w t begun h = elim (Option-cases (lookup t.id db.operations)) [
  | inl fresh ↦ inr (fresh, ok-inj _ _ _ h (rw (fresh, begin_operation) (refl)))
  | inr (row, stored) ↦ elim (Bool-cases (is_recorded t w row)) [
    | inr other ↦ cc (rw (stored, begin_operation, other) at h)
    | inl recorded ↦ elim (Bool-cases row.succeeded) [
      | inr running ↦ cc (rw (stored, begin_operation, recorded, running) at h)
      | inl succeeded ↦ inl (
        row,
        stored,
        recorded,
        succeeded,
        ok-inj _ _ _ h (rw (stored, begin_operation, recorded, succeeded) (refl)),
      )
    ]
  ]
]

pub lookup-insert_same :
    {V : Type 0} (k : String) (v : V) (m : List (String × V)) → lookup k (insert k v m) ≡ some v
lookup-insert_same k v m =
    lookup-insert k k v m ∙ ap (λ b. if b then some v else lookup k m) ((eq_iff k k).1 refl)

module _ (t : Ticket) (result : Json) (db after : Database) where
  -- What a transaction does to a database in which its workspace is.
  abbrev pub Effect : Type 0
  Effect =
      (after.tables.machines ≡ db.tables.machines)
      × ((Stands t result db × (after ≡ db)) ⊎ Commit t result db after)

  Commit-Finish :
      (w : WorkspaceRow)
      → lookup t.workspace_id db.workspaces ≡ some w
      → lookup t.id db.operations ≡ none
      → Finish t.id t.workspace_id result
          (put_operation t.id (started w t.type t.request_digest) db)
          after
      → Commit t result db after
  Commit-Finish w found fresh f =
      let same_workspace = some-inj f.workspace w _ f.found found in
      let same_row =
        some-inj f.row (started w t.type t.request_digest) _ f.stored
          (lookup-insert_same t.id (started w t.type t.request_digest) db.operations) in
      record {
        workspace = w;
        actor_id = f.actor_id;
        found = found;
        fresh = fresh;
        workspaces =
            f.workspaces
            ∙ ap (λ v. insert t.workspace_id (raised v f.actor_id) db.workspaces) same_workspace;
        operations =
            f.operations
            ∙ ap
                (λ r.
                  insert t.id (finished r (suc f.workspace.revision) result)
                    (insert t.id (started w t.type t.request_digest) db.operations))
                same_row
            ∙ ap
                (λ (v : WorkspaceRow).
                  insert t.id (finished (started w t.type t.request_digest) (suc v.revision) result)
                    (insert t.id (started w t.type t.request_digest) db.operations))
                same_workspace
            ∙ insert-insert t.id _ _ db.operations;
      }

  pub settle :
      (body : Database → Result Failure (Json × Database)) (w : WorkspaceRow)
      (begun : Option Json × Database)
      → lookup t.workspace_id db.workspaces ≡ some w
      → begin_operation db w t.type t.id t.request_digest ≡ ok begun
      → ((before : Database)
          → body before ≡ ok (result, after)
          → Finish t.id t.workspace_id result before after)
      → unless_replayed body begun ≡ ok (result, after)
      → Effect
  settle body w begun found begins finishes h = elim (begin_operation-eq-ok db w t begun begins) [
    | inl (row, stored, recorded, succeeded, is_begun) ↦
        let end =
          ok-inj _ (result, after) _ refl
            (subst (λ b. unless_replayed body b ≡ ok (result, after)) is_begun h) in
        (
          sym (ap (λ (p : Json × Database). p.1.tables.machines) end),
          inl (
            record {
              workspace = w;
              row = row;
              found = found;
              stored = stored;
              recorded = recorded;
              succeeded = succeeded;
              result_is = ap (λ (p : Json × Database). p.0) end;
            },
            sym (ap (λ (p : Json × Database). p.1) end),
          ),
        )
    | inr (fresh, is_begun) ↦
        let f = finishes _ (subst (λ b. unless_replayed body b ≡ ok (result, after)) is_begun h) in
        (f.machines, inr (Commit-Finish w found fresh f))
  ]
