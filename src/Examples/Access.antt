-- ===== src/Examples/Access.antt =====
-- Users and roles at concrete inputs.
use hermes_kernel_v.Prelude.{String, concat, ◌≡◌, refl, [], ◌∷◌, any}
use mathlib.Core.Option.{none-ne-some}
use hermes_kernel_v.Prelude.Dict
use hermes_kernel_v.Prelude.Dict.{get-empty}
use hermes_kernel_v.Access.{
  User, AuthRegistry, Permission, RbacRegistry, same_permission, new_user, register, assign_role,
  check_permission, permissions_of,
}
use hermes_kernel_v.Access.Accounts.{IsConsistent, IsRegistered, register-IsRegistered}
use hermes_kernel_v.Access.Roles.{IsAssigned, assign_role-IsAssigned, check_permission-listed}

abbrev derive : String → String → String
derive password salt = concat salt password

abbrev nobody : AuthRegistry
nobody = record { by_id = []; by_username = [] }

nobody-IsConsistent : IsConsistent nobody
nobody-IsConsistent = record { named = λ name id e. absurd (none-ne-some _ (rw get-empty at e)) }

register-IsRegistered_example :
    IsRegistered derive "s1" "ann" "pw"
      (new_user derive "u1" "s1" "ann" "pw" [])
      nobody
      (register derive "u1" "s1" "ann" "pw" [] nobody)
register-IsRegistered_example =
    register-IsRegistered derive "u1" "s1" "ann" "pw" [] nobody nobody-IsConsistent (get-empty "u1")
      (get-empty "ann")

abbrev ann : User
ann = new_user derive "u1" "s1" "ann" "pw" ("reader" ∷ [])

abbrev create_workspace : Permission
create_workspace = record { resource = "workspace"; action = "create" }

abbrev registry : RbacRegistry
registry = record {
  auth = record { by_id = ("u1", ann) ∷ []; by_username = ("ann", "u1") ∷ [] };
  roles = ("reader", []) ∷ ("editor", create_workspace ∷ []) ∷ [];
}

assign_role-IsAssigned_example :
    IsAssigned "u1" "editor" (create_workspace ∷ []) registry (assign_role "u1" "editor" registry)
unfolding Dict.get
assign_role-IsAssigned_example =
    assign_role-IsAssigned "u1" "editor" (create_workspace ∷ []) ann registry refl refl

check_permission-listed_example :
    check_permission "u1" create_workspace registry
    ≡ any (same_permission create_workspace) (permissions_of "u1" registry)
check_permission-listed_example = check_permission-listed "u1" create_workspace registry
