-- ===== src/Resilience/Engine.antt =====
-- kernel/resilience.py: the state of `ResilienceEngine` and its emit helpers. Circuit runtimes are
-- objects that calls in flight share with the dict, so they live in a heap and the dict holds
-- addresses. What goes to the event store, the bus, the metrics and `sleep` is a journal.
use hermes_kernel_v.Prelude.{
  ℕ, String, Bool, List, [], ◌∷◌, ◌++◌, Option, none, some, if◌then◌else◌,
}
use hermes_kernel_v.Prelude.Dict.{Dict}
use hermes_kernel_v.Resilience.Domain.{CircuitState, CircuitConfig, closed, DeadLetterEntry}
use hermes_kernel_v.Resilience.Store.{ResilienceStore}

pub record CircuitRuntime : Type 0 where
  pub config : CircuitConfig
  pub state : CircuitState
  pub failure_count : ℕ
  pub last_failure : Option ℕ
  pub half_open_calls : ℕ

abbrev pub fresh_runtime : CircuitConfig → CircuitRuntime
fresh_runtime config = record {
  config = config;
  state = closed;
  failure_count = 0;
  last_failure = none;
  half_open_calls = 0;
}

pub data Event : Type 0 where
  circuit_breaker_closed : String → Event
  circuit_breaker_opened : String → ℕ → ℕ → Event
  retry_attempted : String → ℕ → ℕ → String → Event
  retry_exhausted : String → ℕ → String → Event
  dead_letter_enqueued : String → String → ℕ → Event

-- A metric is always recorded with value 1 and at most one label.
pub data Effect : Type 0 where
  append publish : Event → Effect
  record_metric : String → Option String → Effect
  sleep_ms : ℕ → Effect

-- Which of the optional collaborators are wired.
pub record Outlets : Type 0 where
  pub has_event_store : Bool
  pub has_bus : Bool
  pub has_metrics : Bool

pub record ResilienceEngine (Task : Type 0) : Type 0 where
  pub store : Option (ResilienceStore Task)
  pub outlets : Outlets
  pub heap : List CircuitRuntime
  pub circuits : Dict ℕ
  pub dlq : Dict (DeadLetterEntry Task)
  pub journal : List Effect

module _ {Task : Type 0} where
  abbrev pub init : Option (ResilienceStore Task) → Outlets → ResilienceEngine Task
  init store outlets = record {
    store = store;
    outlets = outlets;
    heap = [];
    circuits = [];
    dlq = [];
    journal = [];
  }

  abbrev pub log : List Effect → ResilienceEngine Task → ResilienceEngine Task
  log effects e = record e { journal = e.journal ++ effects }

  -- Errors of the event store are swallowed.
  unfoldable pub emit : Event → ResilienceEngine Task → ResilienceEngine Task
  emit event e =
      log
        ((if e.outlets.has_event_store then append event ∷ [] else [])
          ++ (if e.outlets.has_bus then publish event ∷ [] else []))
        e

  unfoldable pub metric : String → Option String → ResilienceEngine Task → ResilienceEngine Task
  metric name label e = log (if e.outlets.has_metrics then record_metric name label ∷ [] else []) e

  -- `if self._store is not None: f(self._store)`
  abbrev pub with_store :
      (ResilienceStore Task → ResilienceStore Task) → ResilienceEngine Task → ResilienceEngine Task
  with_store f e = record e { store = elim e.store [ none ↦ none | some s ↦ some (f s) ] }
