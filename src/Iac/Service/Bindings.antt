-- ===== src/Iac/Service/Bindings.antt =====
-- The bindings of apps/weldall/src/server/iac/service.ts as a table, with the constraints on them of
-- IacObjectBinding in packages/db/prisma/schema.prisma.
pub mod Created
use weldall.Prelude.{
  String, Bool, false, ◌&&◌, ◌||◌, Option, none, some, List, [], ◌∷◌, ◌++◌, if◌then◌else◌, ◌==◌,
  any, Result, ok, err,
}
use weldall.Iac.Rows.{BindingRow}
use weldall.Iac.Loading.{target_ids}
use weldall.Iac.Service.{Failure, unique_violation, Database}
use weldall.Iac.Service.Natural.{find_row}

abbrev pub is_at : String → String → BindingRow → Bool
is_at workspace address b = b.workspace_id == workspace && b.address == address

unfoldable pub find_binding : String → String → List BindingRow → Option BindingRow
unfolding find_row
find_binding workspace address bindings = find_row (is_at workspace address) bindings

-- The database's constraints on bindings: one for each address of a workspace, and one for each object.
unfoldable pub share_target : List (Option String) → List (Option String) → Bool
share_target [] _ = false
share_target (_ ∷ _) [] = false
share_target (none ∷ xs) (_ ∷ ys) = share_target xs ys
share_target (some _ ∷ xs) (none ∷ ys) = share_target xs ys
share_target (some x ∷ xs) (some y ∷ ys) = x == y || share_target xs ys

abbrev pub collides : BindingRow → BindingRow → Bool
collides new old =
    new.id == old.id
    || (is_at new.workspace_id new.address old || share_target (target_ids new) (target_ids old))

abbrev pub set_bindings : List BindingRow → Database → Database
set_bindings bindings db = record db { tables = record db.tables { bindings = bindings } }

unfoldable pub create_binding : Database → BindingRow → Result Failure Database
unfolding share_target
create_binding db new =
    if any (collides new) db.tables.bindings
    then err unique_violation
    else ok (set_bindings (db.tables.bindings ++ new ∷ []) db)

-- The rows without the one of an identifier.
unfoldable pub delete_row : String → List BindingRow → List BindingRow
delete_row id [] = []
delete_row id (b ∷ bs) = let rest = delete_row id bs in if b.id == id then bs else b ∷ rest

unfoldable pub readdress : String → String → List BindingRow → List BindingRow
readdress id address [] = []
readdress id address (b ∷ bs) =
    let rest = readdress id address bs in
    if b.id == id then record b { address = address } ∷ bs else b ∷ rest
