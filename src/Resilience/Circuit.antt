-- ===== src/Resilience/Circuit.antt =====
-- kernel/resilience.py: the circuit breaker. `call_with_circuit` is two operations, `enter` before
-- the guarded body and `leave` after it, since other calls run while the body is awaited.
pub mod Invariant
pub mod Trials
use hermes_kernel_v.Prelude.{
  ℕ, ◌+◌, ◌*◌, String, Bool, true, false, ◌&&◌, [], ◌∷◌, ◌++◌, Option, none, some, leb, length,
  get_elem?, set, if◌then◌else◌,
}
use hermes_kernel_v.Prelude.Dict
use hermes_kernel_v.Resilience.Domain.{
  CircuitState, closed, open_circuit, half_open, CircuitConfig, default_config, Outcome, returned,
  raised, cancelled,
}
use hermes_kernel_v.Resilience.Store.{put_circuit}
use hermes_kernel_v.Resilience.Engine.{
  CircuitRuntime, fresh_runtime, circuit_breaker_closed, circuit_breaker_opened, ResilienceEngine,
  emit, metric, with_store,
}

-- OPEN → HALF_OPEN once `recovery_timeout_ms` has elapsed since the last failure.
unfoldable pub maybe_recover : ℕ → CircuitRuntime → CircuitRuntime
maybe_recover now rt = elim rt.state [
  | open_circuit ↦ elim rt.last_failure [
    | none ↦ rt
    | some failed_at ↦
        if leb (failed_at + rt.config.recovery_timeout_ms * 1000) now
        then record rt { state = half_open; half_open_calls = 0 }
        else rt
  ]
  | _ ↦ rt
]

abbrev pub is_closed : CircuitState → Bool
is_closed closed = true
is_closed _ = false

-- `config or ResilienceCircuitConfig(name=name)`, with `name` authoritative.
abbrev pub config_for : String → Option CircuitConfig → CircuitConfig
config_for name none = default_config name
config_for name (some config) = record config { name = name }

module _ {Task : Type 0} where
  persist : CircuitRuntime → ResilienceEngine Task → ResilienceEngine Task
  unfolding put_circuit
  persist rt = with_store (
      put_circuit (record {
        name = rt.config.name;
        state = rt.state;
        failure_count = rt.failure_count;
        last_failure = rt.last_failure;
        config = rt.config;
      }))

  -- The row, the event and the metric of a circuit that has just opened.
  announce_opened : CircuitRuntime → ResilienceEngine Task → ResilienceEngine Task
  unfolding persist emit metric
  announce_opened rt e = metric "res.circuit_opened" (some rt.config.name) (
      emit (circuit_breaker_opened rt.config.name rt.failure_count rt.config.failure_threshold)
        (persist rt e))

  announce_closed : CircuitRuntime → ResilienceEngine Task → ResilienceEngine Task
  unfolding persist emit metric
  announce_closed rt e =
      metric "res.circuit_closed" (some rt.config.name)
        (emit (circuit_breaker_closed rt.config.name) (persist rt e))

  unfoldable pub on_success :
      CircuitRuntime → ResilienceEngine Task → CircuitRuntime × ResilienceEngine Task
  unfolding announce_closed
  on_success rt e = elim rt.state [
    | half_open ↦
        let rt' = record rt { state = closed; failure_count = 0; half_open_calls = 0 } in
        (rt', announce_closed rt' e)
    | _ ↦ (record rt { failure_count = 0 }, e)
  ]

  unfoldable pub on_failure :
      ℕ → CircuitRuntime → ResilienceEngine Task → CircuitRuntime × ResilienceEngine Task
  unfolding announce_opened
  on_failure now rt e = elim rt.state [
    | half_open ↦
        let rt' = record rt {
          state = open_circuit;
          last_failure = some now;
          half_open_calls = 0;
        } in
        (rt', announce_opened rt' e)
    | _ ↦
        let rt' = record rt { failure_count = rt.failure_count + 1; last_failure = some now } in
        if leb rt.config.failure_threshold rt'.failure_count && is_closed rt.state
        then (let rt'' = record rt' { state = open_circuit } in (rt'', announce_opened rt'' e))
        else (rt', e)
  ]

  unfoldable pub register_circuit :
      String → Option CircuitConfig → ResilienceEngine Task → ResilienceEngine Task
  unfolding persist
  register_circuit name config e =
      let rt = fresh_runtime (config_for name config) in
      persist rt
        (record e { heap = e.heap ++ rt ∷ []; circuits = Dict.put name (length e.heap) e.circuits })

  -- The object behind a name: a new default circuit where the name is unknown.
  unfoldable pub find_circuit : String → ResilienceEngine Task → ℕ × ResilienceEngine Task
  find_circuit name e = elim (Dict.get name e.circuits) [
    | none ↦ (length e.heap, register_circuit name none e)
    | some address ↦ (address, e)
  ]

  abbrev pub store_runtime : ℕ → CircuitRuntime → ResilienceEngine Task → ResilienceEngine Task
  store_runtime address rt e = record e { heap = set e.heap address rt }

-- `KeyError` is `none`.
unfoldable pub get_circuit_status :
    {Task : Type 0}
    → String
    → ℕ
    → ResilienceEngine Task
    → Option CircuitState × ResilienceEngine Task
get_circuit_status name now e = elim (Dict.get name e.circuits) [
  | none ↦ (none, e)
  | some address ↦ elim (get_elem? e.heap address) [
    | none ↦ (none, e)
    | some rt ↦ let rt' = maybe_recover now rt in (some rt'.state, store_runtime address rt' e)
  ]
]

-- `CircuitBreakerOpenError`, or the object that the call goes on with.
pub data Admission : Type 0 where
  rejected : Admission
  admitted : ℕ → Admission

-- The decision on one object: is the call let through, and what becomes of the object.
unfoldable pub admit : ℕ → CircuitRuntime → Bool × CircuitRuntime
unfolding maybe_recover
admit now rt =
    let rt' = maybe_recover now rt in
    elim rt'.state [
      | closed ↦ (true, rt')
      | open_circuit ↦ (false, rt')
      | half_open ↦
          if leb rt'.config.half_open_max_calls rt'.half_open_calls
          then (false, rt')
          else (true, record rt' { half_open_calls = rt'.half_open_calls + 1 })
    ]

module _ {Task : Type 0} where
  enter_at : String → ℕ → ℕ × ResilienceEngine Task → Admission × ResilienceEngine Task
  unfolding metric
  enter_at name now (address, e) = elim (get_elem? e.heap address) [
    | none ↦ (rejected, e)
    | some rt ↦
        let (pass, rt') = admit now rt in
        let e' = store_runtime address rt' e in
        if pass
        then (admitted address, e')
        else (rejected, metric "res.circuit_rejected" (some name) e')
  ]

  unfoldable pub enter : String → ℕ → ResilienceEngine Task → Admission × ResilienceEngine Task
  unfolding enter_at
  enter name now e = enter_at name now (find_circuit name e)

  settle :
      {A : Type 0}
      → ℕ
      → Outcome A
      → CircuitRuntime
      → ResilienceEngine Task
      → CircuitRuntime × ResilienceEngine Task
  settle now (returned a) rt e = on_success rt e
  settle now (raised exc) rt e = on_failure now rt e
  settle now cancelled rt e = (rt, e)

  -- The `except Exception` and `else` clauses; what the body ended in is passed on by the caller.
  unfoldable pub leave :
      {A : Type 0} → ℕ → ℕ → Outcome A → ResilienceEngine Task → ResilienceEngine Task
  unfolding settle
  leave address now outcome e = elim (get_elem? e.heap address) [
    | none ↦ e
    | some rt ↦ let (rt', e') = settle now outcome rt e in store_runtime address rt' e'
  ]
