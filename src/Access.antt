-- ===== src/Access.antt =====
-- kernel/auth.py and kernel/rbac.py: users, their passwords and roles, and what roles permit. The key
-- derivation is a parameter; ids and salts are arguments. A stored text `salt$hash`, which
-- `verify_password` splits at its first `$`, is the pair of its parts, and any text that it cannot take
-- apart, as the default "", is `malformed`. Sets of permissions are lists that are asked for members.
pub mod Accounts
pub mod Roles
use hermes_kernel_v.Prelude.{
  String, Bool, true, false, ◌&&◌, ◌||◌, ◌==◌, List, [], ◌∷◌, ◌++◌, Option, none, some, is_some,
  any, if◌then◌else◌,
}
use hermes_kernel_v.Prelude.Dict
use hermes_kernel_v.Prelude.Dict.{Dict}
use hermes_kernel_v.Prelude.Texts.{has}

pub data Stored : Type 0 where
  malformed : Stored
  salted : (salt hash : String) → Stored

pub record User : Type 0 where
  pub id : String
  pub username : String
  pub hashed_password : Stored
  pub roles : List String

pub record AuthRegistry : Type 0 where
  pub by_id : Dict User
  pub by_username : Dict String

-- The last one is the `KeyError` of a name whose user is gone.
pub data Answer : Type 0 where
  authenticated : User → Answer
  refused key_error : Answer

module _ (kdf : (password salt : String) → String) where
  abbrev pub hash_password : (password salt : String) → Stored
  hash_password password salt = salted salt (kdf password salt)

  abbrev pub verify_password : String → Stored → Bool
  verify_password password malformed = false
  verify_password password (salted salt hash) = kdf password salt == hash

  abbrev pub new_user : (id salt username password : String) → List String → User
  new_user id salt username password roles = record {
    id = id;
    username = username;
    hashed_password = hash_password password salt;
    roles = roles;
  }

  -- A name that is taken is a `ValueError`.
  unfoldable pub register :
      (id salt username password : String)
      → List String
      → AuthRegistry
      → Option (User × AuthRegistry)
  register id salt username password roles auth =
      let user = new_user id salt username password roles in
      if is_some (Dict.get username auth.by_username)
      then none
      else some (
        user,
        record {
          by_id = Dict.put id user auth.by_id;
          by_username = Dict.put username id auth.by_username;
        },
      )

  abbrev pub check_user : String → Option User → Answer
  check_user password none = key_error
  check_user password (some user) =
      if verify_password password user.hashed_password then authenticated user else refused

  abbrev pub check_id : String → Dict User → Option String → Answer
  check_id password by_id none = refused
  check_id password by_id (some id) = check_user password (Dict.get id by_id)

  unfoldable pub authenticate : (username password : String) → AuthRegistry → Answer
  authenticate username password auth =
      check_id password auth.by_id (Dict.get username auth.by_username)

unfoldable pub has_role : (user_id role : String) → AuthRegistry → Bool
has_role user_id role auth = elim (Dict.get user_id auth.by_id) [
  | none ↦ false
  | some user ↦ has role user.roles
]

pub record Permission : Type 0 where
  pub resource : String
  pub action : String

abbrev pub same_permission : Permission → Permission → Bool
same_permission p q = (p.resource == q.resource) && (p.action == q.action)

pub record RbacRegistry : Type 0 where
  pub auth : AuthRegistry
  pub roles : Dict (List Permission)

unfoldable pub create_role : String → List Permission → RbacRegistry → RbacRegistry
create_role name permissions r = record r { roles = Dict.put name permissions r.roles }

abbrev pub with_role : String → User → User
with_role role_name user =
    if has role_name user.roles then user else record user { roles = user.roles ++ role_name ∷ [] }

-- An unknown role or user is a `ValueError`. The user is shared with the `AuthRegistry`.
unfoldable pub assign_role : (user_id role_name : String) → RbacRegistry → Option RbacRegistry
assign_role user_id role_name r = elim (Dict.get role_name r.roles) [
  | none ↦ none
  | some permissions ↦ elim (Dict.get user_id r.auth.by_id) [
    | none ↦ none
    | some user ↦ some (record r {
      auth = record r.auth { by_id = Dict.put user_id (with_role role_name user) r.auth.by_id };
    })
  ]
]

abbrev pub role_grants : Permission → Option (List Permission) → Bool
role_grants p none = false
role_grants p (some permissions) = any (same_permission p) permissions

-- Some role of the list grants the permission.
abbrev pub any_grants : Permission → Dict (List Permission) → List String → Bool
any_grants p roles [] = false
any_grants p roles (name ∷ names) = role_grants p (Dict.get name roles) || any_grants p roles names

abbrev pub user_has : Permission → Dict (List Permission) → Option User → Bool
user_has p roles none = false
user_has p roles (some user) = any_grants p roles user.roles

unfoldable pub check_permission : (user_id : String) → Permission → RbacRegistry → Bool
check_permission user_id p r = user_has p r.roles (Dict.get user_id r.auth.by_id)

abbrev pub role_permissions : Option (List Permission) → List Permission
role_permissions none = []
role_permissions (some permissions) = permissions

abbrev pub all_permissions : Dict (List Permission) → List String → List Permission
all_permissions roles [] = []
all_permissions roles (name ∷ names) =
    role_permissions (Dict.get name roles) ++ all_permissions roles names

unfoldable pub permissions_of : (user_id : String) → RbacRegistry → List Permission
permissions_of user_id r = elim (Dict.get user_id r.auth.by_id) [
  | none ↦ []
  | some user ↦ all_permissions r.roles user.roles
]
