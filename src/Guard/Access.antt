-- ===== src/Guard/Access.antt =====
-- Who may do what, and what a refusal leaves behind.
use hermes_kernel_v.Prelude.{
  ℕ, String, ◌≡◌, refl, Bool, true, false, ◌&&◌, ◌||◌, List, [], ◌∷◌, ◌++◌, Option, none, some,
  is_none, any, arith,
}
use hermes_kernel_v.Prelude.Dict
use hermes_kernel_v.Prelude.Dict.{get-put}
use hermes_kernel_v.Guard.Domain.{Permission, SandboxPolicy, denied, limit_exceeded}
use hermes_kernel_v.Guard.{
  CapabilityGuard, Refusal, permission_denied_error, resource_limit_exceeded_error, Request, check,
  resource_ok, ring_append, entry_of, is_empty, audit_logged, permission_denied,
  resource_limit_exceeded,
}

abbrev pub permissions_of : Option SandboxPolicy → List Permission
permissions_of none = []
permissions_of (some policy) = policy.permissions

abbrev pub list_of : Option (List Permission) → List Permission
list_of none = []
list_of (some ps) = ps

-- All that a package has been granted, by its policy and on top of it.
abbrev pub granted : String → CapabilityGuard → List Permission
granted p g = permissions_of (Dict.get p g.policies) ++ list_of (Dict.get p g.grants)

abbrev pub is_free : String → CapabilityGuard → Bool
is_free p g = is_none (Dict.get p g.policies) && is_empty (Dict.get p g.grants)

any-append :
    {A : Type 0} (f : A → Bool) (xs ys : List A) → any f (xs ++ ys) ≡ (any f xs || any f ys)
any-append f [] ys = refl
any-append f (x ∷ xs) ys = ground (arith, any-append f xs ys)

-- What a call is answered with and what stays behind. `g` is the guard before.
pub record IsDecided (r : Request) (entry_id : String) (now : ℕ) (g : CapabilityGuard)
    (answer : Option Refusal) (g' : CapabilityGuard) : Type 0 where
  pub denial :
      check r.package_id r.action r.resource g ≡ false
      → (answer ≡ some permission_denied_error)
        × (g'.audit ≡ ring_append g.audit_limit (entry_of r denied "" entry_id now) g.audit)
        × (g'.journal
            ≡ (g.journal ++ audit_logged (entry_of r denied "" entry_id now) ∷ [])
              ++ permission_denied r.package_id r.action r.resource ∷ [])
  pub breach :
      (limit_type : String)
      → check r.package_id r.action r.resource g ≡ true
      → resource_ok r.package_id g ≡ some limit_type
      → (answer ≡ some (resource_limit_exceeded_error limit_type))
        × (g'.audit
            ≡ ring_append g.audit_limit (entry_of r limit_exceeded limit_type entry_id now) g.audit)
        × (g'.journal
            ≡ (g.journal ++ audit_logged (entry_of r limit_exceeded limit_type entry_id now) ∷ [])
              ++ resource_limit_exceeded r.package_id limit_type ∷ [])
  pub pass :
      check r.package_id r.action r.resource g ≡ true
      → resource_ok r.package_id g ≡ none
      → (answer ≡ none) × (g' ≡ g)
  pub untouched : (g'.policies ≡ g.policies) × (g'.grants ≡ g.grants) × (g'.usage ≡ g.usage)
