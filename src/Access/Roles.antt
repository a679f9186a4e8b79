-- ===== src/Access/Roles.antt =====
-- kernel/rbac.py: what a role gives to whom.
use hermes_kernel_v.Prelude.{
  String, ◌≡◌, ◌≢◌, refl, sym, ap, ◌∙◌, inl, inr, Bool, true, false, ◌||◌, ◌==◌, eq_iff, List, [],
  ◌∷◌, ◌++◌, Option, none, some, any, arith, Bool-cases,
}
use hermes_kernel_v.Prelude.Dict
use hermes_kernel_v.Prelude.Dict.{Dict, get-put, get-put_self}
use hermes_kernel_v.Prelude.Texts.{has}
use hermes_kernel_v.Access.{
  User, Permission, RbacRegistry, same_permission, with_role, assign_role, role_grants, any_grants,
  user_has, check_permission, role_permissions, all_permissions, permissions_of,
}

any-append {ℓ} :
    {A : Type ℓ} (p : A → Bool) (xs ys : List A) → any p (xs ++ ys) ≡ (any p xs || any p ys)
any-append p [] ys = refl
any-append p (x ∷ xs) ys = ground (arith, any-append p xs ys)

any_grants-append :
    (p : Permission) (roles : Dict (List Permission)) (xs : List String) (name : String)
    → any_grants p roles (xs ++ name ∷ [])
      ≡ (any_grants p roles xs || role_grants p (Dict.get name roles))
any_grants-append p roles [] name = ground arith
any_grants-append p roles (x ∷ xs) name = ground (arith, any_grants-append p roles xs name)

-- A role that is held already counts.
any_grants-has :
    (p : Permission) (roles : Dict (List Permission)) (xs : List String) (name : String)
    → has name xs ≡ true
    → (any_grants p roles xs || role_grants p (Dict.get name roles)) ≡ any_grants p roles xs
unfolding has
any_grants-has p roles [] name h = absurd (cc h)
any_grants-has p roles (x ∷ xs) name h = elim (Bool-cases (x == name)) [
  | inl same ↦
      let e : role_grants p (Dict.get x roles) ≡ role_grants p (Dict.get name roles) =
        ap (λ (k : String). role_grants p (Dict.get k roles)) ((eq_iff x name).0 same) in
      ground (arith, e)
  | inr other ↦ ground (arith, any_grants-has p roles xs name (rw other at h))
]

with_role-grants :
    (p : Permission) (roles : Dict (List Permission)) (name : String) (user : User)
    → any_grants p roles (with_role name user).roles
      ≡ (any_grants p roles user.roles || role_grants p (Dict.get name roles))
with_role-grants p roles name user = elim (Bool-cases (has name user.roles)) [
  | inl held ↦ rw held (sym (any_grants-has p roles user.roles name held))
  | inr new ↦ rw new (any_grants-append p roles user.roles name)
]

-- What an assignment changes.
pub record IsAssigned (user_id role_name : String) (granted : List Permission) (r : RbacRegistry)
    (o : Option RbacRegistry) : Type 0 where
  pub after : RbacRegistry
  pub returned : o ≡ some after
  pub own :
      (p : Permission)
      → check_permission user_id p after
        ≡ (check_permission user_id p r || any (same_permission p) granted)
  pub others :
      (other : String) (p : Permission)
      → user_id ≢ other
      → check_permission other p after ≡ check_permission other p r
  pub same_roles : after.roles ≡ r.roles

-- Assigning a role that exists to a user that exists succeeds, also where the user has it: the user
-- then may do what was permitted before and what the role grants, and nothing else; what other users
-- may do, and the roles, do not change.
pub assign_role-IsAssigned :
    (user_id role_name : String) (granted : List Permission) (user : User) (r : RbacRegistry)
    → Dict.get role_name r.roles ≡ some granted
    → Dict.get user_id r.auth.by_id ≡ some user
    → IsAssigned user_id role_name granted r (assign_role user_id role_name r)
unfolding assign_role check_permission
assign_role-IsAssigned user_id role_name granted user r g u =
    let by_id = Dict.put user_id (with_role role_name user) r.auth.by_id in
    rw (g, u, assign_role)
      (record {
        after = record r { auth = record r.auth { by_id = by_id } };
        returned = refl;
        own = λ p.
            ap (user_has p r.roles) (get-put_self user_id (with_role role_name user) r.auth.by_id)
            ∙ with_role-grants p r.roles role_name user
            ∙ ap
                (λ (o : Option (List Permission)).
                  any_grants p r.roles user.roles || role_grants p o)
                g
            ∙ ap (λ (o : Option User). user_has p r.roles o || any (same_permission p) granted)
                (sym u);
        others = λ other p ne.
            let apart : (user_id == other) ≡ false = ground (arith, eq_iff user_id other) in
            rw (get-put user_id other (with_role role_name user) r.auth.by_id, apart) refl;
        same_roles = refl;
      })

all_permissions-any :
    (p : Permission) (roles : Dict (List Permission)) (names : List String)
    → any (same_permission p) (all_permissions roles names) ≡ any_grants p roles names
all_permissions-any p roles [] = refl
all_permissions-any p roles (name ∷ names) =
    any-append (same_permission p) (role_permissions (Dict.get name roles))
      (all_permissions roles names)
    ∙ ap (λ b. any (same_permission p) (role_permissions (Dict.get name roles)) || b)
        (all_permissions-any p roles names)
    ∙ ap (λ b. b || any_grants p roles names) (of_role (Dict.get name roles))
  where
    of_role :
        (o : Option (List Permission))
        → any (same_permission p) (role_permissions o) ≡ role_grants p o
    of_role none = refl
    of_role (some permissions) = refl

-- `check_permission` permits just what `permissions_of` lists.
pub check_permission-listed :
    (user_id : String) (p : Permission) (r : RbacRegistry)
    → check_permission user_id p r ≡ any (same_permission p) (permissions_of user_id r)
unfolding check_permission permissions_of
check_permission-listed user_id p r = of_user (Dict.get user_id r.auth.by_id)
  where
    of_user :
        (o : Option User)
        → user_has p r.roles o
          ≡ any
              (same_permission p)
              (elim o [ none ↦ [] | some user ↦ all_permissions r.roles user.roles ])
    of_user none = refl
    of_user (some user) = sym (all_permissions-any p r.roles user.roles)
