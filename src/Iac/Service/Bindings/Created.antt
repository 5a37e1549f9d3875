-- ===== src/Iac/Service/Bindings/Created.antt =====
-- A binding that importIac of apps/weldall/src/server/iac/service.ts makes is added to the table.
use weldall.Prelude.{◌≡◌, refl, [], ◌∷◌, ◌++◌, any, ok, ok-inj, inl, inr, Bool-cases}
use weldall.Iac.Rows.{BindingRow}
use weldall.Iac.Service.{Database}
use weldall.Iac.Service.Bindings.{collides, create_binding, set_bindings}

pub create_binding-eq-ok :
    (db : Database) (new : BindingRow) (bound : Database)
    → create_binding db new ≡ ok bound
    → bound ≡ set_bindings (db.tables.bindings ++ new ∷ []) db
unfolding create_binding
create_binding-eq-ok db new bound h = elim (Bool-cases (any (collides new) db.tables.bindings)) [
  | inl taken ↦ cc (rw (taken, create_binding) at h)
  | inr vacant ↦ ok-inj _ _ _ h (rw (vacant, create_binding) (refl))
]
