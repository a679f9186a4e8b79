-- ===== src/Resilience/Circuit/Invariant.antt =====
-- What holds of every circuit of an engine, whatever the interleaving of the calls.
use hermes_kernel_v.Prelude.{
  ℕ, ◌≤◌, ◌<◌, String, ◌≡◌, ◌⊎◌, inl, inr, true, Option, none, arith, is_some, get_elem?, All,
  All-get, All-set, All-append, Option-cases,
}
use hermes_kernel_v.Prelude.Dict
use hermes_kernel_v.Resilience.Domain.{
  closed, open_circuit, half_open, CircuitConfig, Outcome, returned, raised, cancelled,
}
use hermes_kernel_v.Resilience.Engine.{CircuitRuntime, fresh_runtime, ResilienceEngine}
use hermes_kernel_v.Resilience.Circuit.{
  maybe_recover, on_success, on_failure, register_circuit, find_circuit, store_runtime,
  get_circuit_status, admit, enter, enter_at, settle, leave, config_for,
}

-- A closed circuit has failed less often in a row than its threshold, an open one knows when it
-- failed, and trial calls are counted up to their budget, and only while half open.
pub record IsSound (rt : CircuitRuntime) : Type 0 where
  pub closed_below :
      rt.state ≡ closed → (rt.failure_count ≡ 0) ⊎ (rt.failure_count < rt.config.failure_threshold)
  pub open_dated : rt.state ≡ open_circuit → is_some rt.last_failure ≡ true
  pub trials_bounded : rt.half_open_calls ≤ rt.config.half_open_max_calls
  pub trials_half_open : (rt.state ≡ half_open) ⊎ (rt.half_open_calls ≡ 0)

pub fresh-IsSound : (config : CircuitConfig) → IsSound (fresh_runtime config)
fresh-IsSound config = ground arith

pub maybe_recover-IsSound :
    (now : ℕ) (rt : CircuitRuntime) → IsSound rt → IsSound (maybe_recover now rt)
unfolding maybe_recover
maybe_recover-IsSound now rt h = ground arith

pub admit-IsSound : (now : ℕ) (rt : CircuitRuntime) → IsSound rt → IsSound (admit now rt).1
unfolding admit
admit-IsSound now rt h = ground arith

module _ {Task : Type 0} where
  pub on_success-IsSound :
      (rt : CircuitRuntime) (e : ResilienceEngine Task) → IsSound rt → IsSound (on_success rt e).0
  unfolding on_success
  on_success-IsSound rt e h = ground arith

  pub on_failure-IsSound :
      (now : ℕ) (rt : CircuitRuntime) (e : ResilienceEngine Task)
      → IsSound rt
      → IsSound (on_failure now rt e).0
  unfolding on_failure
  on_failure-IsSound now rt e h = ground arith

  settle-IsSound :
      {A : Type 0} (now : ℕ) (outcome : Outcome A) (rt : CircuitRuntime) (e : ResilienceEngine Task)
      → IsSound rt
      → IsSound (settle now outcome rt e).0
  unfolding settle
  settle-IsSound now (returned a) rt e h = on_success-IsSound rt e h
  settle-IsSound now (raised exc) rt e h = on_failure-IsSound now rt e h
  settle-IsSound now cancelled rt e h = h

  -- Every circuit object is sound, also those that a new registration has replaced.
  abbrev pub IsValid : ResilienceEngine Task → Type 0
  IsValid e = All IsSound e.heap

  settle-heap :
      {A : Type 0} (now : ℕ) (outcome : Outcome A) (rt : CircuitRuntime) (e : ResilienceEngine Task)
      → (settle now outcome rt e).1.heap ≡ e.heap
  unfolding settle on_success on_failure
  settle-heap now outcome rt e = ground arith

  pub register_circuit-IsValid :
      (name : String) (config : Option CircuitConfig) (e : ResilienceEngine Task)
      → IsValid e
      → IsValid (register_circuit name config e)
  unfolding register_circuit
  register_circuit-IsValid name config e h =
      All-append IsSound e.heap _ h (fresh-IsSound (config_for name config), tt)

  find_circuit-IsValid :
      (name : String) (e : ResilienceEngine Task) → IsValid e → IsValid (find_circuit name e).1
  unfolding find_circuit
  find_circuit-IsValid name e h = elim (Option-cases (Dict.get name e.circuits)) [
    | inl new ↦ rw (new, find_circuit) (register_circuit-IsValid name none e h)
    | inr (address, old) ↦ rw (old, find_circuit) h
  ]

  enter_at-IsValid :
      (name : String) (now address : ℕ) (e : ResilienceEngine Task)
      → IsValid e
      → IsValid (enter_at name now (address, e)).1
  unfolding enter_at
  enter_at-IsValid name now address e h = elim (Option-cases (get_elem? e.heap address)) [
    | inl dangling ↦ rw (dangling, enter_at) h
    | inr (rt, found) ↦
        let kept : IsValid (store_runtime address (admit now rt).1 e) =
          All-set IsSound e.heap address _ h
            (admit-IsSound now rt (All-get IsSound e.heap address h found)) in
        rw (found, enter_at) (ground (arith, kept))
  ]

  pub enter-IsValid :
      (name : String) (now : ℕ) (e : ResilienceEngine Task)
      → IsValid e
      → IsValid (enter name now e).1
  unfolding enter
  enter-IsValid name now e h =
      enter_at-IsValid name now (find_circuit name e).0 (find_circuit name e).1
        (find_circuit-IsValid name e h)

  pub leave-IsValid :
      {A : Type 0} (address now : ℕ) (outcome : Outcome A) (e : ResilienceEngine Task)
      → IsValid e
      → IsValid (leave address now outcome e)
  unfolding leave
  leave-IsValid address now outcome e h = elim (Option-cases (get_elem? e.heap address)) [
    | inl dangling ↦ rw (dangling, leave) h
    | inr (rt, found) ↦
        rw (found, leave, settle-heap now outcome rt e)
          (All-set IsSound e.heap address _ h
            (settle-IsSound now outcome rt e (All-get IsSound e.heap address h found)))
  ]

  pub get_circuit_status-IsValid :
      (name : String) (now : ℕ) (e : ResilienceEngine Task)
      → IsValid e
      → IsValid (get_circuit_status name now e).1
  unfolding get_circuit_status
  get_circuit_status-IsValid name now e h = elim (Option-cases (Dict.get name e.circuits)) [
    | inl new ↦ rw (new, get_circuit_status) h
    | inr (address, old) ↦
        rw (old, get_circuit_status)
          (elim (Option-cases (get_elem? e.heap address)) [
            | inl dangling ↦ rw (dangling, get_circuit_status) h
            | inr (rt, found) ↦
                rw (found, get_circuit_status)
                  (All-set IsSound e.heap address _ h
                    (maybe_recover-IsSound now rt (All-get IsSound e.heap address h found)))
          ])
  ]

-- One operation on the circuits. Calls overlap: a call may leave at any time after it entered, with
-- any outcome, and others enter in between; an address is what `enter` handed out.
pub data Step {Task : Type 0} : ResilienceEngine Task → ResilienceEngine Task → Type 1 where
  register :
      (name : String) (config : Option CircuitConfig) (e : ResilienceEngine Task)
      → Step e (register_circuit name config e)
  status :
      (name : String) (now : ℕ) (e : ResilienceEngine Task)
      → Step e (get_circuit_status name now e).1
  begin : (name : String) (now : ℕ) (e : ResilienceEngine Task) → Step e (enter name now e).1
  finish :
      {A : Type 0} (address now : ℕ) (outcome : Outcome A) (e : ResilienceEngine Task)
      → Step e (leave address now outcome e)

pub data Reach {Task : Type 0} (e : ResilienceEngine Task) : ResilienceEngine Task → Type 1 where
  here : Reach e e
  next : {f g : ResilienceEngine Task} → Reach e f → Step f g → Reach e g
