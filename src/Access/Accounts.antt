-- ===== src/Access/Accounts.antt =====
-- kernel/auth.py: who registered can log in, and nobody else's login changes.
use hermes_kernel_v.Prelude.{
  String, ◌≡◌, ◌≢◌, refl, sym, ap, subst, ◌∙◌, inl, inr, false, ◌==◌, eq_iff, List, Option, none,
  some, arith, Bool-cases, if◌then◌else◌,
}
use mathlib.Core.Option.{some-injective, none-ne-some}
use hermes_kernel_v.Prelude.Dict
use hermes_kernel_v.Prelude.Dict.{Dict, get-put, get-put_self}
use hermes_kernel_v.Access.{
  User, AuthRegistry, authenticated, refused, new_user, register, check_user, check_id,
  authenticate,
}

-- Each name leads to a user who has it.
pub record IsConsistent (auth : AuthRegistry) : Type 0 where
  pub named :
      (username id : String)
      → Dict.get username auth.by_username ≡ some id
      → (user : User) × (Dict.get id auth.by_id ≡ some user) × (user.username ≡ username)

module _ (kdf : (password salt : String) → String) where
  -- What a registration brings about.
  pub record IsRegistered (salt username password : String) (user : User) (auth : AuthRegistry)
      (o : Option (User × AuthRegistry)) : Type 0 where
    pub after : AuthRegistry
    pub returned : o ≡ some (user, after)
    pub consistent : IsConsistent after
    pub own :
        (attempt : String)
        → authenticate kdf username attempt after
          ≡ (if kdf attempt salt == kdf password salt then authenticated user else refused)
    pub others :
        (other attempt : String)
        → username ≢ other
        → authenticate kdf other attempt after ≡ authenticate kdf other attempt auth

  -- The user whom a name leads to is the one from before.
  old_user :
      (id other uid : String) (user : User) (auth : AuthRegistry)
      → IsConsistent auth
      → Dict.get id auth.by_id ≡ none
      → Dict.get other auth.by_username ≡ some uid
      → Dict.get uid (Dict.put id user auth.by_id) ≡ Dict.get uid auth.by_id
  old_user id other uid user auth c fresh e = elim (Bool-cases (id == uid)) [
    | inl same ↦
        let (known, there, name) = c.named other uid e in
        absurd (
          none-ne-some _ (
            sym fresh
            ∙ ap (λ (k : String). Dict.get k auth.by_id) ((eq_iff id uid).0 same)
            ∙ there))
    | inr apart ↦ rw (get-put id uid user auth.by_id, apart) refl
  ]

  old_name :
      (username other id : String) (auth : AuthRegistry)
      → username ≢ other
      → Dict.get other (Dict.put username id auth.by_username) ≡ Dict.get other auth.by_username
  old_name username other id auth ne =
      let apart : (username == other) ≡ false = ground (arith, eq_iff username other) in
      rw (get-put username other id auth.by_username, apart) refl

  others_kept :
      (id other attempt : String) (user : User) (auth : AuthRegistry) (o : Option String)
      → IsConsistent auth
      → Dict.get id auth.by_id ≡ none
      → Dict.get other auth.by_username ≡ o
      → check_id kdf attempt (Dict.put id user auth.by_id) o ≡ check_id kdf attempt auth.by_id o
  others_kept id other attempt user auth none c fresh e = refl
  others_kept id other attempt user auth (some uid) c fresh e =
      ap (check_user kdf attempt) (old_user id other uid user auth c fresh e)

  -- A registration with a new name and a new id succeeds. From then on just the passwords with the
  -- same derived key let the user in, each other name is answered as before, and each name leads to a
  -- user who has it, so that no login meets a missing user.
  pub register-IsRegistered :
      (id salt username password : String) (roles : List String) (auth : AuthRegistry)
      → IsConsistent auth
      → Dict.get id auth.by_id ≡ none
      → Dict.get username auth.by_username ≡ none
      → IsRegistered salt username password
          (new_user kdf id salt username password roles)
          auth
          (register kdf id salt username password roles auth)
  unfolding register authenticate
  register-IsRegistered id salt username password roles auth c fresh new_name =
      let user = new_user kdf id salt username password roles in
      let by_id = Dict.put id user auth.by_id in
      let by_username = Dict.put username id auth.by_username in
      rw (new_name, register)
        (record {
          after = record { by_id = by_id; by_username = by_username };
          returned = refl;
          consistent = record {
            named = λ name uid e. elim (Bool-cases (username == name)) [
              | inl same ↦
                  let q : id ≡ uid =
                    some-injective _ _
                      (rw (get-put username name id auth.by_username, same) at e) in
                  (
                    user,
                    subst (λ (k : String). Dict.get k by_id ≡ some user) q
                        (get-put_self id user auth.by_id),
                    (eq_iff username name).0 same,
                  )
              | inr apart ↦
                  let e' : Dict.get name auth.by_username ≡ some uid =
                    rw (get-put username name id auth.by_username, apart) at e in
                  let (known, there, has_name) = c.named name uid e' in
                  (known, old_user id name uid user auth c fresh e' ∙ there, has_name)
            ];
          };
          own = λ attempt.
              ap (check_id kdf attempt by_id) (get-put_self username id auth.by_username)
              ∙ ap (check_user kdf attempt) (get-put_self id user auth.by_id);
          others = λ other attempt ne.
              ap (check_id kdf attempt by_id) (old_name username other id auth ne)
              ∙ others_kept id other attempt user auth (Dict.get other auth.by_username) c fresh
                  refl;
        })
