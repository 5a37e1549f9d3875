-- ===== src/Iac/Loading/References.antt =====
-- References of loadPlanningState in apps/weldall/src/server/iac/planner.ts: what stands in the way of the
-- addresses that a plan deletes.
pub mod Guarded
pub mod Covered
use weldall.Prelude.{
  ℕ, String, Bool, true, false, not, ◌&&◌, ◌||◌, Option, none, some, List, [], ◌∷◌, ◌++◌, map,
  if◌then◌else◌, ◌==◌, includes, lookup, insert,
}
use weldall.Iac.Json.{Json, ◌+s◌, text_field, texts_field}
use weldall.Iac.Contracts.{Kind, scope, resource, same_kind, CurrentObject, DesiredObject, Blocker}
use weldall.Iac.Graph.{owned_by}
use weldall.Iac.Decision.{same_text}
use weldall.Iac.Rows.{
  Reference, ResourceRow, MachineRow, EmailRow, GroupRow, SkillRow, ConnectorRow, UseScopeRow,
  Tables,
}
use weldall.Iac.Loading.{is_set}

unfoldable pub index_desired :
    List (String × DesiredObject) → List DesiredObject → List (String × DesiredObject)
index_desired index [] = index
index_desired index (o ∷ os) = index_desired (insert o.address o index) os

abbrev pub resource_changed : CurrentObject → DesiredObject → Bool
resource_changed object desired =
    same_kind object.kind resource
    && (not object.tombstone
        && not (
            same_text (text_field "resourceIdentifier" object.state)
              (text_field "resourceIdentifier" desired.state)))

abbrev pub is_left : CurrentObject → Option DesiredObject → Bool
is_left object none = true
is_left object (some desired) =
    not (same_kind desired.kind object.kind)
    || (not (desired.identity == object.identity) || resource_changed object desired)

-- The address of an object of the workspace that the manifest does not keep.
unfoldable pub leaving_address :
    String → List (String × DesiredObject) → CurrentObject → Option String
leaving_address workspace desired object = elim object.address [
  | none ↦ none
  | some a ↦
      if owned_by workspace object.owner_workspace_id
        && (not (a == "") && is_left object (lookup a desired))
      then some a
      else none
]

unfoldable pub deleting_addresses :
    String → List (String × DesiredObject) → List CurrentObject → List String
unfolding leaving_address
deleting_addresses workspace desired [] = []
deleting_addresses workspace desired (o ∷ os) =
    let rest = deleting_addresses workspace desired os in
    elim (leaving_address workspace desired o) [ none ↦ rest | some a ↦ a ∷ rest ]

unfoldable pub index_ids :
    List (String × CurrentObject) → List CurrentObject → List (String × CurrentObject)
index_ids index [] = index
index_ids index (o ∷ os) = index_ids (insert o.id o index) os

-- How a loop finds the object that a row refers to.
pub data Target : Type 0 where
  scope_id : String → Target
  resource_id : String → Target
  scope_key : String → Target

abbrev pub is_target : Target → CurrentObject → Bool
is_target (scope_id id) o = same_kind o.kind scope && o.id == id
is_target (resource_id id) o = same_kind o.kind resource && o.id == id
is_target (scope_key key) o = same_kind o.kind scope && o.identity == key

unfoldable pub find_target : Target → List CurrentObject → Option CurrentObject
find_target target [] = none
find_target target (o ∷ os) = if is_target target o then some o else find_target target os

-- One call of addReferenceBlocker: the source, the field of its desired state that may still name the
-- target, and the message around the target's identity.
pub record Use : Type 0 where
  pub target : Target
  pub source_id : String
  pub field : String
  pub prefix : String
  pub suffix : String

unfoldable pub use_scope_uses : List UseScopeRow → List Use
use_scope_uses rows =
    map
      (λ row. record {
        target = scope_id row.scope_id;
        source_id = row.connection_id;
        field = "useScopes";
        prefix = "Scope ";
        suffix =
            " is in use by shared connection "
            +s row.connection_name
            +s " ("
            +s elim row.connection_key [ none ↦ "null" | some key ↦ key ]
            +s ").";
      })
      rows

-- The uses of the targets of one row.
unfoldable pub row_uses :
    (String → Target) → String → String → String → String → List Reference → List Use
row_uses target source field prefix suffix rs =
    map
      (λ r. record {
        target = target r.target_id;
        source_id = source;
        field = field;
        prefix = prefix;
        suffix = suffix;
      })
      rs

unfoldable pub connector_uses : List ConnectorRow → List Use
unfolding row_uses
connector_uses [] = []
connector_uses (row ∷ rows) =
    row_uses scope_id row.id "requiredScopes" "Scope " (" is required by connector " +s row.key)
      row.required_scopes
    ++ connector_uses rows

unfoldable pub resource_uses : List ResourceRow → List Use
unfolding row_uses
resource_uses [] = []
resource_uses (row ∷ rows) =
    row_uses scope_id row.id "scopes" "Scope " (" is referenced by resource " +s row.key) row.scopes
    ++ resource_uses rows

unfoldable pub machine_uses : List MachineRow → List Use
unfolding row_uses
machine_uses [] = []
machine_uses (row ∷ rows) =
    row_uses scope_id row.id "scopes" "Scope " (" is referenced by machine " +s row.client_id)
      row.allowed_scopes
    ++ (row_uses resource_id row.id "resources" "Resource "
          (" is referenced by machine " +s row.client_id) row.allowed_resources
        ++ machine_uses rows)

unfoldable pub email_uses : List EmailRow → List Use
unfolding row_uses
email_uses [] = []
email_uses (row ∷ rows) =
    row_uses scope_id row.id "scopes" "Scope "
      (" is referenced by email assignment " +s row.normalized_email) row.grants
    ++ email_uses rows

unfoldable pub group_uses : List GroupRow → List Use
unfolding row_uses
group_uses [] = []
group_uses (row ∷ rows) =
    row_uses scope_id row.id "scopes" "Scope "
      (" is referenced by group assignment " +s row.provider_key +s ":" +s row.group_id) row.grants
    ++ group_uses rows

unfoldable pub skill_uses : List SkillRow → List Use
skill_uses [] = []
skill_uses (row ∷ rows) =
    map
      (λ key. record {
        target = scope_key key;
        source_id = row.id;
        field = "requiredScopes";
        prefix = "Scope ";
        suffix = " is referenced by skill " +s row.slug;
      })
      row.required_scopes
    ++ skill_uses rows

unfoldable pub all_uses : Tables → List Use
unfolding use_scope_uses connector_uses resource_uses machine_uses email_uses group_uses skill_uses
all_uses t =
    use_scope_uses t.use_scopes
    ++ (connector_uses t.connectors
        ++ (resource_uses t.resources
            ++ (machine_uses t.machines
                ++ (email_uses t.emails ++ (group_uses t.groups ++ skill_uses t.skills)))))

-- What the calls share.
pub record Scene : Type 0 where
  pub workspace : String
  pub objects : List CurrentObject
  pub by_id : List (String × CurrentObject)
  pub desired : List (String × DesiredObject)
  pub deleting : List String

abbrev pub names_target : String → String → Option DesiredObject → Bool
names_target name identity none = false
names_target name identity (some d) = includes (texts_field name d.state) identity

-- Whether the source is foreign, unbound, or still refers to the target in its desired state.
abbrev pub is_holding_source : Scene → Use → CurrentObject → CurrentObject → Bool
is_holding_source s u target source = elim source.address [
  | none ↦ true
  | some a ↦
      not (owned_by s.workspace source.owner_workspace_id)
      || (a == "" || names_target u.field target.identity (lookup a s.desired))
]

abbrev pub is_holding : Scene → Use → CurrentObject → Option CurrentObject → Bool
is_holding s u target none = true
is_holding s u target (some source) = is_holding_source s u target source

abbrev pub is_deleted : Scene → CurrentObject → Bool
is_deleted s target =
    owned_by s.workspace target.owner_workspace_id
    && elim target.address [ none ↦ false | some a ↦ not (a == "") && includes s.deleting a ]

unfoldable pub reference_blocker : Use → CurrentObject → Blocker
reference_blocker u target = record {
  code = "EXTERNAL_REFERENCE";
  address = target.address;
  message = u.prefix +s target.identity +s u.suffix;
  owner_workspace_id = none;
}

unfoldable pub use_blockers : Scene → Use → List Blocker
unfolding find_target reference_blocker
use_blockers s u = elim (find_target u.target s.objects) [
  | none ↦ []
  | some target ↦
      if is_deleted s target && is_holding s u target (lookup u.source_id s.by_id)
      then reference_blocker u target ∷ []
      else []
]

unfoldable pub reference_blockers : Scene → List Use → List Blocker
unfolding use_blockers
reference_blockers s [] = []
reference_blockers s (u ∷ us) = use_blockers s u ++ reference_blockers s us
