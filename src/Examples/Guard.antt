-- ===== src/Examples/Guard.antt =====
-- The capability guard at concrete inputs.
use hermes_kernel_v.Prelude.{◌+◌, ◌≤◌, String, ◌≡◌, refl, false, List, [], ◌∷◌, none, some, arith}
use hermes_kernel_v.Prelude.Dict
use hermes_kernel_v.Guard.Domain.{Permission, matches, SandboxPolicy, allows, AuditEntry, allowed}
use hermes_kernel_v.Guard.{
  CapabilityGuard, init, Request, register_policy, check, enter, leave, resource_ok, emit, entry_of,
}
use hermes_kernel_v.Guard.Budget.{calls_of, Run, Run-bounded}

abbrev fetch : Permission
fetch = record { action = "execute"; resource = "*" }

abbrev one_call : SandboxPolicy
one_call = record {
  permissions = fetch ∷ [];
  resource_limits = record { cpu_ms = 1000; mem_mb = 128; max_calls = 1 };
}

abbrev guarded : CapabilityGuard
guarded = register_policy "weather" one_call (init none 2)

abbrev ask : Request
ask = record { package_id = "weather"; action = "execute"; resource = "plugin:weather" }

abbrev note : String → AuditEntry
note id = entry_of ask allowed "" id 5

abbrev notes : List AuditEntry
notes = note "a" ∷ note "b" ∷ note "c" ∷ []

policy_there : Dict.get "weather" guarded.policies ≡ some one_call
unfolding register_policy emit Dict.get Dict.put
policy_there = refl

no_calls : calls_of "weather" guarded ≡ 0
unfolding register_policy emit Dict.get Dict.put
no_calls = refl

passes : (enter ask "e1" 5 guarded).0 ≡ none
unfolding register_policy emit Dict.get Dict.put enter check resource_ok allows matches
passes = refl

abbrev after_one : CapabilityGuard
after_one = leave ask "e2" 5 9 false (enter ask "e1" 5 guarded).1

Run-bounded_example : calls_of "weather" after_one + 0 ≤ 1 + 0
Run-bounded_example =
    let start : Run "weather" 1 guarded 0 guarded = Run.here in
    Run-bounded "weather" 0 one_call policy_there no_calls
      (Run.ends ask "e2" 5 9 false (Run.starts ask "e1" 5 start refl (omega arith) passes) refl)
