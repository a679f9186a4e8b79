-- ===== src/Guard/Budget.antt =====
-- How many calls of a package can complete, when calls overlap.
use hermes_kernel_v.Prelude.{
  ℕ, suc, ◌+◌, ◌-◌, ◌≤◌, ◌<◌, String, ◌≡◌, ◌≢◌, refl, ap, subst, inl, inr, Bool, none, some, arith,
  Bool-cases, leb, leb_false→lt,
}
use hermes_kernel_v.Prelude.Dict
use hermes_kernel_v.Prelude.Dict.{get_or-put_self, get_or-put_ne}
use hermes_kernel_v.Guard.Domain.{Permission, SandboxPolicy}
use hermes_kernel_v.Guard.{
  CapabilityGuard, no_usage, Refusal, Request, resource_ok, enter, leave, accrue, grant,
  audit_record, emit,
}

abbrev pub calls_of : String → CapabilityGuard → ℕ
calls_of p g = (Dict.get_or p no_usage g.usage).calls

-- An execution in which at most `width` calls of package `p` are under way at a time; the number is
-- that of the calls under way. Other packages' calls come in between at will, and so do grants.
pub data Run (p : String) (width : ℕ) (g : CapabilityGuard) : ℕ → CapabilityGuard → Type 0 where
  here : Run p width g 0 g
  starts :
      {n : ℕ} {h : CapabilityGuard} (r : Request) (entry_id : String) (now : ℕ)
      → Run p width g n h
      → r.package_id ≡ p
      → n < width
      → (enter r entry_id now h).0 ≡ none
      → Run p width g (suc n) (enter r entry_id now h).1
  is_refused :
      {n : ℕ} {h : CapabilityGuard} {why : Refusal} (r : Request) (entry_id : String) (now : ℕ)
      → Run p width g n h
      → (enter r entry_id now h).0 ≡ some why
      → Run p width g n (enter r entry_id now h).1
  ends :
      {n : ℕ} {h : CapabilityGuard} (r : Request) (entry_id : String) (start now : ℕ)
      (errored : Bool)
      → Run p width g (suc n) h
      → r.package_id ≡ p
      → Run p width g n (leave r entry_id start now errored h)
  other_starts :
      {n : ℕ} {h : CapabilityGuard} (r : Request) (entry_id : String) (now : ℕ)
      → Run p width g n h
      → r.package_id ≢ p
      → Run p width g n (enter r entry_id now h).1
  other_ends :
      {n : ℕ} {h : CapabilityGuard} (r : Request) (entry_id : String) (start now : ℕ)
      (errored : Bool)
      → Run p width g n h
      → r.package_id ≢ p
      → Run p width g n (leave r entry_id start now errored h)
  grants :
      {n : ℕ} {h : CapabilityGuard} (q : String) (permission : Permission)
      → Run p width g n h
      → Run p width g n (grant q permission h)

enter-keeps :
    (r : Request) (entry_id : String) (now : ℕ) (g : CapabilityGuard)
    → ((enter r entry_id now g).1.policies ≡ g.policies)
      × ((enter r entry_id now g).1.usage ≡ g.usage)
unfolding enter audit_record emit
enter-keeps r entry_id now g = ground arith

leave-policies :
    (r : Request) (entry_id : String) (start now : ℕ) (errored : Bool) (g : CapabilityGuard)
    → (leave r entry_id start now errored g).policies ≡ g.policies
unfolding leave accrue audit_record emit
leave-policies r entry_id start now errored g = refl

pub leave-calls :
    (r : Request) (entry_id : String) (start now : ℕ) (errored : Bool) (g : CapabilityGuard)
    → calls_of r.package_id (leave r entry_id start now errored g) ≡ suc (calls_of r.package_id g)
unfolding leave accrue audit_record emit
leave-calls r entry_id start now errored g = omega (
  arith,
  ap (λ u. u.calls)
      (get_or-put_self r.package_id no_usage
        (record {
          calls = calls_of r.package_id g + 1;
          cpu_us = (Dict.get_or r.package_id no_usage g.usage).cpu_us + (now - start);
        })
        g.usage),
)

leave-calls_other :
    (p : String) (r : Request) (entry_id : String) (start now : ℕ) (errored : Bool)
    (g : CapabilityGuard)
    → r.package_id ≢ p
    → calls_of p (leave r entry_id start now errored g) ≡ calls_of p g
unfolding leave accrue audit_record emit
leave-calls_other p r entry_id start now errored g h =
    ap (λ u. u.calls) (get_or-put_ne r.package_id p no_usage _ g.usage h)

resource_ok-below :
    (p : String) (g : CapabilityGuard) (policy : SandboxPolicy)
    → Dict.get p g.policies ≡ some policy
    → resource_ok p g ≡ none
    → calls_of p g < policy.resource_limits.max_calls
unfolding resource_ok
resource_ok-below p g policy found ok =
    elim (Bool-cases (leb policy.resource_limits.max_calls (calls_of p g))) [
      | inl over ↦ ground (arith, found, ok)
      | inr below ↦ leb_false→lt _ _ below
    ]

enter-below :
    (r : Request) (entry_id : String) (now : ℕ) (g : CapabilityGuard)
    → (enter r entry_id now g).0 ≡ none
    → resource_ok r.package_id g ≡ none
unfolding enter
enter-below r entry_id now g pass = ground arith

enter-calls :
    (p : String) (r : Request) (entry_id : String) (now : ℕ) (g : CapabilityGuard)
    → calls_of p (enter r entry_id now g).1 ≡ calls_of p g
enter-calls p r entry_id now g =
    ap (λ u. (Dict.get_or p no_usage u).calls) (enter-keeps r entry_id now g).1

-- The invariant of an execution.
record IsWithin (p : String) (width : ℕ) (policy : SandboxPolicy) (n : ℕ) (h : CapabilityGuard)
    : Type 0 where
  registered : Dict.get p h.policies ≡ some policy
  bounded : calls_of p h + n ≤ policy.resource_limits.max_calls + width

enter-IsWithin :
    (p : String) (width n : ℕ) (policy : SandboxPolicy) (r : Request) (entry_id : String) (now : ℕ)
    (h : CapabilityGuard)
    → IsWithin p width policy n h
    → IsWithin p width policy n (enter r entry_id now h).1
enter-IsWithin p width n policy r entry_id now h i = record {
  registered = rw (enter-keeps r entry_id now h).0 i.registered;
  bounded = omega (arith, i.bounded, enter-calls p r entry_id now h);
}

leave-IsWithin :
    (p : String) (width n : ℕ) (policy : SandboxPolicy) (r : Request) (entry_id : String)
    (start now : ℕ) (errored : Bool) (h : CapabilityGuard)
    → IsWithin p width policy n h
    → r.package_id ≢ p
    → IsWithin p width policy n (leave r entry_id start now errored h)
leave-IsWithin p width n policy r entry_id start now errored h i other = record {
  registered = rw (leave-policies r entry_id start now errored h) i.registered;
  bounded = omega (arith, i.bounded, leave-calls_other p r entry_id start now errored h other);
}

grant-IsWithin :
    (p : String) (width n : ℕ) (policy : SandboxPolicy) (q : String) (permission : Permission)
    (h : CapabilityGuard)
    → IsWithin p width policy n h
    → IsWithin p width policy n (grant q permission h)
unfolding grant
grant-IsWithin p width n policy q permission h i = record {
  registered = i.registered;
  bounded = i.bounded;
}

Run-IsWithin :
    (p : String) (w : ℕ) (policy : SandboxPolicy) {g : CapabilityGuard} {n : ℕ}
    {h : CapabilityGuard}
    → Dict.get p g.policies ≡ some policy
    → calls_of p g ≡ 0
    → Run p (suc w) g n h
    → IsWithin p w policy n h
Run-IsWithin p w policy found new here = record { registered = found; bounded = omega (arith, new) }
Run-IsWithin p w policy found new (starts {n} {h} r entry_id now run same fits pass) =
    let i = Run-IsWithin p w policy found new run in
    let below : calls_of p h < policy.resource_limits.max_calls =
      resource_ok-below p h policy i.registered
        (subst (λ q. resource_ok q h ≡ none) same (enter-below r entry_id now h pass)) in
    record {
      registered = rw (enter-keeps r entry_id now h).0 i.registered;
      bounded = omega (arith, below, fits, enter-calls p r entry_id now h);
    }
Run-IsWithin p w policy found new (is_refused {n} {h} r entry_id now run why) =
    enter-IsWithin p w n policy r entry_id now h (Run-IsWithin p w policy found new run)
Run-IsWithin p w policy found new (ends {n} {h} r entry_id start now errored run same) =
    let i = Run-IsWithin p w policy found new run in
    let one : calls_of p (leave r entry_id start now errored h) ≡ suc (calls_of p h) =
      subst (λ q. calls_of q (leave r entry_id start now errored h) ≡ suc (calls_of q h)) same
        (leave-calls r entry_id start now errored h) in
    record {
      registered = rw (leave-policies r entry_id start now errored h) i.registered;
      bounded = omega (arith, i.bounded, one);
    }
Run-IsWithin p w policy found new (other_starts {n} {h} r entry_id now run other) =
    enter-IsWithin p w n policy r entry_id now h (Run-IsWithin p w policy found new run)
Run-IsWithin p w policy found new (other_ends {n} {h} r entry_id start now errored run other) =
    leave-IsWithin p w n policy r entry_id start now errored h
      (Run-IsWithin p w policy found new run) other
Run-IsWithin p w policy found new (grants q permission run) =
    grant-IsWithin p w _ policy q permission _ (Run-IsWithin p w policy found new run)

-- From a guard where the package has a policy and no completed call, in any interleaving in which at
-- most `w + 1` of its calls are under way at a time, completed calls and calls under way are never
-- more than the policy's maximum and `w`; so one call at a time never passes the maximum.
pub Run-bounded :
    (p : String) (w : ℕ) (policy : SandboxPolicy) {g : CapabilityGuard} {n : ℕ}
    {h : CapabilityGuard}
    → Dict.get p g.policies ≡ some policy
    → calls_of p g ≡ 0
    → Run p (suc w) g n h
    → calls_of p h + n ≤ policy.resource_limits.max_calls + w
Run-bounded p w policy found new run = (Run-IsWithin p w policy found new run).bounded
