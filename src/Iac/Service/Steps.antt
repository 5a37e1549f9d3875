-- ===== src/Iac/Service/Steps.antt =====
-- The requests that the routes under apps/weldall/src/app/api/iac/v1 pass to importIac, unmanageIac and
-- moveIacState, one after the other.
pub mod Commits
pub mod Effects
pub mod Finishes
pub mod Operations
pub mod History
pub mod Keeps
pub mod Settled
pub mod Replays
use weldall.Prelude.{String, List, [], ◌∷◌, Result}
use weldall.Iac.Json.{Json}
use weldall.Iac.Service.{Failure, IacActor, Database, Services}
use weldall.Iac.Service.Inputs.{
  ImportInput, UnmanageInput, MoveInput, import_json, unmanage_json, move_json, import_manifest,
}
use weldall.Iac.Service.Lifecycle.{import_iac, unmanage_iac, move_iac}

-- An import comes with the identifier that the database makes for the new binding.
pub data Request : Type 0 where
  imports : String → ImportInput → Request
  unmanages : UnmanageInput → Request
  moves : MoveInput → Request

unfoldable pub handle : Services → Request → IacActor → Database → Result Failure Json × Database
unfolding import_iac unmanage_iac move_iac
handle env (imports new_id input) actor db = import_iac env new_id input actor db
handle env (unmanages input) actor db = unmanage_iac env input actor db
handle env (moves input) actor db = move_iac env input actor db

-- The database after a sequence of requests.
unfoldable pub run : Services → List (Request × IacActor) → Database → Database
unfolding handle
run env [] db = db
run env ((request, actor) ∷ rest) db = run env rest (handle env request actor db).1
