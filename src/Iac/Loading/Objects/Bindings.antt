-- ===== src/Iac/Loading/Objects/Bindings.antt =====
-- Where the address and the owner of a loaded object come from.
use weldall.Prelude.{◌≡◌, ◌⊎◌, String, true, none, some, List, Any}
use weldall.Iac.Json.{Json}
use weldall.Iac.Contracts.{CurrentObject}
use weldall.Iac.Rows.{BindingRow}
use weldall.Iac.Loading.{target_ids}

-- A binding that refers to the identifier in one of its columns.
abbrev pub Names : String → BindingRow → Type 0
Names id b = Any (λ t. t ≡ some id) (target_ids b)

-- Unbound; or with the address and the workspace of a binding, which names the object, or which has
-- lost it and is itself the object.
abbrev pub IsBound : List BindingRow → CurrentObject → Type 0
IsBound bs o =
    ((o.address ≡ none) × (o.owner_workspace_id ≡ none))
    ⊎ Any
        (λ b.
          (o.address ≡ some b.address)
          × (o.owner_workspace_id ≡ some b.workspace_id)
          × (Names o.id b ⊎ ((o.id ≡ b.id) × (o.tombstone ≡ true))))
        bs
