-- ===== src/Iac/Loading/State.antt =====
-- loadPlanningState of apps/weldall/src/server/iac/planner.ts as a whole.
pub mod Released
use weldall.Prelude.{ℕ, String, Option, none, some, List, [], ◌++◌, Result, ok, err, ◌>>=◌}
use weldall.Iac.Contracts.{Host, CurrentObject, DesiredObject, PlanningState, PlanError, Manifest}
use weldall.Iac.Desired.{desired_objects}
use weldall.Iac.Rows.{Tables}
use weldall.Iac.Loading.{Schemas}
use weldall.Iac.Loading.Objects.{load_objects}
use weldall.Iac.Loading.References.{
  Scene, index_desired, index_ids, deleting_addresses, all_uses, reference_blockers,
}
use weldall.Iac.Loading.Connectors.{connector_blockers}
use weldall.Iac.Loading.Secrets.{secret_primitive_blockers}

abbrev pub or_zero : Option ℕ → ℕ
or_zero none = 0
or_zero (some n) = n

unfoldable pub scene_of : Manifest → List DesiredObject → List CurrentObject → Scene
unfolding index_desired index_ids deleting_addresses
scene_of manifest desired objects = record {
  workspace = manifest.workspace_id;
  objects = objects;
  by_id = index_ids [] objects;
  desired = index_desired [] desired;
  deleting = deleting_addresses manifest.workspace_id (index_desired [] desired) objects;
}

unfoldable pub load_planning_state :
    Host → Schemas → Manifest → Tables → Result PlanError PlanningState
unfolding load_objects secret_primitive_blockers connector_blockers reference_blockers scene_of
    all_uses desired_objects
load_planning_state h c manifest t = do
  objects ← load_objects c t
  let desired = desired_objects h manifest
  ok (record {
    revision = or_zero t.revision;
    objects = objects;
    cli_settings = t.cli_settings;
    external_blockers =
        secret_primitive_blockers c manifest desired t objects
        ++ (connector_blockers c t.connectors manifest.connectors
            ++ reference_blockers (scene_of manifest desired objects) (all_uses t));
  })
