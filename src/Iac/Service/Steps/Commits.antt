-- ===== src/Iac/Service/Steps/Commits.antt =====
-- What an operation of apps/weldall/src/server/iac/service.ts that returns has done to the records of
-- operations and workspaces.
use weldall.Prelude.{
  ok-inj, ◌≡◌, inl, inr, refl, sym, ap, ◌∙◌, ℕ, suc, String, true, some, List, lookup, insert,
  Result, ok, ◌>>=◌, bind-eq-ok, Option-cases,
}
use weldall.Iac.Json.{Json}
use weldall.Iac.Service.{
  Failure, IacActor, WorkspaceRow, OperationRow, Database, complete_operation, increment_revision,
  write_audit, put_operation, put_workspace,
}

-- The end of an operation: the revision of its workspace goes up by one, and its record succeeds.
pub record Finish (id wid : String) (result : Json) (db after : Database) : Type 0 where
  pub workspace : WorkspaceRow
  pub row : OperationRow
  pub actor_id : String
  pub found : lookup wid db.workspaces ≡ some workspace
  pub stored : lookup id db.operations ≡ some row
  pub workspaces :
      after.workspaces
      ≡ insert wid
          (record workspace { revision = suc workspace.revision; last_actor_id = actor_id })
          db.workspaces
  pub operations :
      after.operations
      ≡ insert id
          (record row {
            succeeded = true;
            resulting_revision = some (suc workspace.revision);
            result_summary = result;
          })
          db.operations
  pub machines : after.tables.machines ≡ db.tables.machines

abbrev ending :
    String
    → String
    → IacActor
    → String
    → ℕ
    → List String
    → (WorkspaceRow × Database → Json)
    → (WorkspaceRow × Database → WorkspaceRow)
    → Database
    → Result Failure (Json × Database)
ending id wid actor event prior addresses make shown db =
    increment_revision db wid actor.client_id >>= λ u.
    complete_operation u.1 id u.0.revision (make u) >>= λ c.
    ok (make u, write_audit c actor event (shown u) prior u.0.revision addresses)

abbrev pub raised : WorkspaceRow → String → WorkspaceRow
raised w actor_id = record w { revision = suc w.revision; last_actor_id = actor_id }

abbrev pub finished : OperationRow → ℕ → Json → OperationRow
finished row revision result = record row {
  succeeded = true;
  resulting_revision = some revision;
  result_summary = result;
}

pub increment_revision-eq-ok :
    (db : Database) (wid actor_id : String) (u : WorkspaceRow × Database)
    → increment_revision db wid actor_id ≡ ok u
    → (w : WorkspaceRow) × (lookup wid db.workspaces ≡ some w)
      × (u ≡ (raised w actor_id, put_workspace wid (raised w actor_id) db))
unfolding increment_revision
increment_revision-eq-ok db wid actor_id u h = elim (Option-cases (lookup wid db.workspaces)) [
  | inl gone ↦ cc (rw (gone, increment_revision) at h)
  | inr (w, found) ↦ (w, found, ok-inj _ _ _ h (rw (found, increment_revision) (refl)))
]

pub complete_operation-eq-ok :
    (db : Database) (id : String) (revision : ℕ) (result : Json) (after : Database)
    → complete_operation db id revision result ≡ ok after
    → (row : OperationRow) × (lookup id db.operations ≡ some row)
      × (after ≡ put_operation id (finished row revision result) db)
unfolding complete_operation
complete_operation-eq-ok db id revision result after h =
    elim (Option-cases (lookup id db.operations)) [
      | inl gone ↦ cc (rw (gone, complete_operation) at h)
      | inr (row, found) ↦ (row, found, ok-inj _ _ _ h (rw (found, complete_operation) (refl)))
    ]

module _ (id wid : String) (actor : IacActor) (event : String) (prior : ℕ) (addresses : List String)
    (make : WorkspaceRow × Database → Json) (shown : WorkspaceRow × Database → WorkspaceRow)
    (db : Database) (result : Json) (after : Database) where
  ending_parts :
      (u : WorkspaceRow × Database) (c : Database) (w : WorkspaceRow) (row : OperationRow)
      → lookup wid db.workspaces ≡ some w
      → u ≡ (raised w actor.client_id, put_workspace wid (raised w actor.client_id) db)
      → lookup id u.1.operations ≡ some row
      → c ≡ put_operation id (finished row u.0.revision (make u)) u.1
      → ◌≡◌ {A = Json × Database}
          (make u, write_audit c actor event (shown u) prior u.0.revision addresses)
          (result, after)
      → Finish id wid result db after
  unfolding write_audit
  ending_parts u c w row found is_raised stored is_done end = record {
    workspace = w;
    row = row;
    actor_id = actor.client_id;
    found = found;
    stored =
        sym (ap (λ (v : WorkspaceRow × Database). lookup id v.1.operations) is_raised) ∙ stored;
    workspaces =
        sym (ap (λ (p : Json × Database). p.1.workspaces) end)
        ∙ ap (λ (d : Database). d.workspaces) is_done
        ∙ ap (λ (v : WorkspaceRow × Database). v.1.workspaces) is_raised;
    operations =
        sym (ap (λ (p : Json × Database). p.1.operations) end)
        ∙ ap (λ (d : Database). d.operations) is_done
        ∙ ap
            (λ (v : WorkspaceRow × Database).
              insert id (finished row v.0.revision (make u)) v.1.operations)
            is_raised
        ∙ ap (λ r. insert id (finished row (suc w.revision) r) db.operations)
            (ap (λ (p : Json × Database). p.0) end);
    machines =
        sym (ap (λ (p : Json × Database). p.1.tables.machines) end)
        ∙ ap (λ (d : Database). d.tables.machines) is_done
        ∙ ap (λ (v : WorkspaceRow × Database). v.1.tables.machines) is_raised;
  }

  pub ending-eq-ok :
      ending id wid actor event prior addresses make shown db ≡ ok (result, after)
      → Finish id wid result db after
  ending-eq-ok h =
      let (u, e, h') = bind-eq-ok (increment_revision db wid actor.client_id) _ (result, after) h in
      let (w, found, is_raised) = increment_revision-eq-ok db wid actor.client_id u e in
      let (c, e', h'') =
        bind-eq-ok (complete_operation u.1 id u.0.revision (make u)) _ (result, after) h' in
      let (row, stored, is_done) = complete_operation-eq-ok u.1 id u.0.revision (make u) c e' in
      ending_parts u c w row found is_raised stored is_done (ok-inj _ _ _ refl h'')
