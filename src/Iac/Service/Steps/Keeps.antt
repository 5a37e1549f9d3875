-- ===== src/Iac/Service/Steps/Keeps.antt =====
-- What every request to apps/weldall/src/server/iac/service.ts leaves as it is: the machines, the
-- operations that are recorded, and the identity of the workspaces.
use weldall.Prelude.{
  result-cases, some-inj, ◌≡◌, subst, inl, inr, refl, sym, ap, ◌∙◌, suc, String, true, false, ◌&&◌,
  none, some, List, lookup, insert, ◌==◌, eq_iff, lookup-insert, if◌then◌else◌, Bool-cases,
  includes,
}
use weldall.Iac.Json.{Json}
use weldall.Iac.Contracts.{Manifest, scope, same_kind}
use weldall.Iac.Service.{
  IacActor, WorkspaceRow, OperationRow, OperationType, Database, Services, put_workspace, started,
  same_type, apply_op, import_op, unmanage_op, move_op,
}
use weldall.Iac.Service.Lifecycle.{
  import_transaction, unmanage_transaction, move_transaction, unmanage_checks, import_iac,
  unmanage_iac, system_scope_keys,
}
use weldall.Iac.Service.Steps.{Request, imports, unmanages, moves, handle}
use weldall.Iac.Service.Steps.Commits.{finished, raised}
use weldall.Iac.Service.Steps.Effects.{Ticket, Stands, Effect, lookup-insert_same}
use weldall.Iac.Service.Steps.Operations.{
  Opens, move_transaction-Effect, unmanage_transaction-Effect, import_transaction-Effect,
}
use weldall.Iac.Service.Steps.History.{IsKeyed, transact-keeps}

-- The workspace may have another revision, but it is the same.
abbrev pub Same : WorkspaceRow → WorkspaceRow → Type 0
Same v w = (v.id ≡ w.id) × (v.name ≡ w.name) × (v.issuer ≡ w.issuer)

pub record Keeps (db after : Database) : Type 0 where
  pub machines : after.tables.machines ≡ db.tables.machines
  pub rows :
      (k : String) (row : OperationRow)
      → lookup k db.operations ≡ some row
      → lookup k after.operations ≡ some row
  pub known :
      (k : String) (w : WorkspaceRow)
      → lookup k db.workspaces ≡ some w
      → (v : WorkspaceRow) × (lookup k after.workspaces ≡ some v) × Same v w

pub Keeps-refl : (db : Database) → Keeps db db
Keeps-refl db = record {
  machines = refl;
  rows = λ k row h. h;
  known = λ k w h. (w, h, (refl, refl, refl));
}

pub Keeps-trans : (a b c : Database) → Keeps a b → Keeps b c → Keeps a c
Keeps-trans a b c f g = record {
  machines = g.machines ∙ f.machines;
  rows = λ k row h. g.rows k row (f.rows k row h);
  known = λ k w h.
      let (v, found, (i, n, s)) = f.known k w h in
      let (u, found', (i', n', s')) = g.known k v found in (u, found', (i' ∙ i, n' ∙ n, s' ∙ s));
}

-- Keeping what stands under the other keys.
lookup-insert_other :
    {V : Type 0} (k j : String) (v : V) (m : List (String × V))
    → (k == j) ≡ false
    → lookup j (insert k v m) ≡ lookup j m
lookup-insert_other k j v m other =
    lookup-insert k j v m ∙ ap (λ b. if b then some v else lookup j m) other

Keeps-put_workspace :
    (id : String) (w : WorkspaceRow) (db : Database)
    → lookup id db.workspaces ≡ none
    → Keeps db (put_workspace id w db)
Keeps-put_workspace id w db gone = record {
  machines = refl;
  rows = λ k row h. h;
  known = λ k v h. elim (Bool-cases (id == k)) [
    | inl own ↦ cc (h, gone, (eq_iff id k).0 own)
    | inr other ↦ (v, lookup-insert_other id k w db.workspaces other ∙ h, (refl, refl, refl))
  ];
}

module _ (t : Ticket) (result : Json) (db after : Database) where
  pub Effect-Keeps : Effect t result db after → Keeps db after
  Effect-Keeps (machines, inl (stands, e)) = subst (λ d. Keeps db d) (sym e) (Keeps-refl db)
  Effect-Keeps (machines, inr c) = record {
    machines = machines;
    rows = λ k row h. elim (Bool-cases (t.id == k)) [
      | inl own ↦ cc (h, c.fresh, (eq_iff t.id k).0 own)
      | inr other ↦
          ap (lookup k) c.operations ∙ lookup-insert_other t.id k _ db.operations other ∙ h
    ];
    known = λ k w h. elim (Bool-cases (t.workspace_id == k)) [
      | inl own ↦
          let same =
            some-inj c.workspace w _ c.found
              (ap (λ j. lookup j db.workspaces) ((eq_iff t.workspace_id k).0 own) ∙ h) in
          (
            raised c.workspace c.actor_id,
            ap (λ j. lookup j after.workspaces) (sym ((eq_iff t.workspace_id k).0 own))
                ∙ ap (lookup t.workspace_id) c.workspaces
                ∙ lookup-insert_same t.workspace_id _ db.workspaces,
            (
              ap (λ (v : WorkspaceRow). v.id) same,
              ap (λ (v : WorkspaceRow). v.name) same,
              ap (λ (v : WorkspaceRow). v.issuer) same,
            ),
          )
      | inr other ↦ (
        w,
        ap (lookup k) c.workspaces ∙ lookup-insert_other t.workspace_id k _ db.workspaces other ∙ h,
        (refl, refl, refl),
      )
    ];
  }

  same_type_refl : (y : OperationType) → same_type y y ≡ true
  same_type_refl apply_op = refl
  same_type_refl import_op = refl
  same_type_refl unmanage_op = refl
  same_type_refl move_op = refl

  -- What was done stands.
  pub Effect-Stands : Effect t result db after → Stands t result after
  Effect-Stands (machines, inl (stands, e)) = subst (λ d. Stands t result d) (sym e) stands
  Effect-Stands (machines, inr c) =
      let w = raised c.workspace c.actor_id in
      record {
        workspace = w;
        row =
            finished (started c.workspace t.type t.request_digest) (suc c.workspace.revision)
              result;
        found =
            ap (lookup t.workspace_id) c.workspaces
            ∙ lookup-insert_same t.workspace_id _ db.workspaces;
        stored = ap (lookup t.id) c.operations ∙ lookup-insert_same t.id _ db.operations;
        recorded = cc (
          (eq_iff w.id w.id).1 refl,
          same_type_refl t.type,
          (eq_iff t.request_digest t.request_digest).1 refl,
        );
        succeeded = refl;
        result_is = refl;
      }

  pub Stands-Keeps : Stands t result db → Keeps db after → Stands t result after
  Stands-Keeps s f =
      let (v, found, (same, _, _)) = f.known t.workspace_id s.workspace s.found in
      record {
        workspace = v;
        row = s.row;
        found = found;
        stored = f.rows t.id s.row s.stored;
        recorded =
            ap
              (λ i.
                s.row.workspace_id == i
                && (same_type s.row.type t.type && s.row.request_digest == t.request_digest))
              same
            ∙ s.recorded;
        succeeded = s.succeeded;
        result_is = s.result_is;
      }

pub Opens-Keeps :
    (manifest : Manifest) (w : WorkspaceRow) (db opened : Database)
    → Opens manifest w db opened
    → Keeps db opened
Opens-Keeps manifest w db opened (inl (found, same, e)) =
    subst (λ d. Keeps db d) (sym e) (Keeps-refl db)
Opens-Keeps manifest w db opened (inr (gone, is_new, e)) =
    subst (λ d. Keeps db d) (sym e) (Keeps-put_workspace manifest.workspace_id w db gone)

pub handle-Keeps :
    (env : Services) (request : Request) (actor : IacActor) (db : Database)
    → IsKeyed db
    → Keeps db (handle env request actor db).1
unfolding handle
handle-Keeps env (moves input) actor db keyed =
    transact-keeps (Keeps db) (move_transaction env input actor) db (Keeps-refl db)
      (λ result after e.
        Effect-Keeps _ result db after
          (move_transaction-Effect env actor db result after input e).1)
handle-Keeps env (unmanages input) actor db keyed =
    elim (result-cases (unmanage_checks env input)) [
      | inr (f, e) ↦ rw (e, unmanage_iac) (Keeps-refl db)
      | inl (manifest, e) ↦
          rw (e, unmanage_iac)
            (transact-keeps (Keeps db) (unmanage_transaction env manifest input actor) db
              (Keeps-refl db)
              (λ result after k.
                Effect-Keeps _ result db after
                  (unmanage_transaction-Effect env actor db result after manifest input k).3))
    ]
handle-Keeps env (imports new_id input) actor db keyed =
    elim (Bool-cases (same_kind input.kind scope && includes system_scope_keys input.identity)) [
      | inl system ↦ rw (system, import_iac) (Keeps-refl db)
      | inr other ↦
          rw (other, import_iac)
            (transact-keeps (Keeps db) (import_transaction env new_id input actor) db
              (Keeps-refl db)
              (λ result after k.
                let (_, manifest, _, w, opened, opens, effect) =
                  import_transaction-Effect env actor db result after new_id input keyed k in
                Keeps-trans db opened after (Opens-Keeps manifest w db opened opens)
                  (Effect-Keeps _ result opened after effect)))
    ]
