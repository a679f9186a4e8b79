-- ===== src/Examples/Resilience.antt =====
-- Circuits, retries and dead letters at concrete inputs.
use hermes_kernel_v.Prelude.{ℕ, zero, suc, ◌≡◌, refl, true, [], ◌∷◌, some, arith}
use hermes_kernel_v.Prelude.Dict
use hermes_kernel_v.Resilience.Domain.{
  open_circuit, half_open, CircuitConfig, Exc, Outcome, returned, raised, RetryPolicy, backoff_for,
  is_retryable,
}
use hermes_kernel_v.Resilience.Store.{ResilienceStore, empty_store}
use hermes_kernel_v.Resilience.Engine.{
  CircuitRuntime, fresh_runtime, Outlets, ResilienceEngine, init,
}
use hermes_kernel_v.Resilience.Circuit.{enter, leave, register_circuit, rejected}
use hermes_kernel_v.Resilience.Circuit.Invariant.{Step, Reach}
use hermes_kernel_v.Resilience.Circuit.Trials.{
  fail_all, fail_all-trips, attempt, cancel, all_late, IsSpent, cancelled_trials_block,
}
use hermes_kernel_v.Resilience.Retry.{done, retry}
use hermes_kernel_v.Resilience.Retry.Attempts.{Decides, retry-Decides}
use hermes_kernel_v.Resilience.DeadLetter.{
  enqueue_dead_letter, replay_dead_letter, discard_dead_letter,
}
use hermes_kernel_v.Resilience.DeadLetter.Mirror.{IsMirrored}
use hermes_kernel_v.Resilience.DeadLetter.Sequences as Sequences
use hermes_kernel_v.Resilience.DeadLetter.Sequences.{queue-mirrors-store}

abbrev outlets : Outlets
outlets = record { has_event_store = true; has_bus = true; has_metrics = true }

abbrev start : ResilienceEngine ℕ
start = init (some empty_store) outlets

abbrev oops : Exc
oops = record { class_name = "TimeoutError"; bases = "OSError" ∷ "Exception" ∷ []; text = "slow" }

abbrev config : CircuitConfig
config = record {
  name = "svc";
  failure_threshold = 2;
  recovery_timeout_ms = 1;
  half_open_max_calls = 1;
}

abbrev one_failure : ResilienceEngine ℕ
one_failure =
    leave {A = ℕ} 0 5 (raised oops) (enter "svc" 4 (register_circuit "svc" (some config) start)).1

fail_all-trips_example :
    ((fail_all (1 ∷ 2 ∷ 3 ∷ []) (fresh_runtime config) start).state ≡ open_circuit)
    × ((fail_all (1 ∷ 2 ∷ 3 ∷ []) (fresh_runtime config) start).failure_count ≡ 3)
fail_all-trips_example = fail_all-trips (1 ∷ 2 ∷ 3 ∷ []) (fresh_runtime config) start refl

abbrev opened : CircuitRuntime
opened = record (fresh_runtime config) {
  state = open_circuit;
  failure_count = 2;
  last_failure = some 100;
}

abbrev stuck : CircuitRuntime
stuck = record opened { state = half_open; half_open_calls = 1 }

abbrev stuck_engine : ResilienceEngine ℕ
stuck_engine = record start { heap = stuck ∷ []; circuits = ("svc", 0) ∷ [] }

stuck-IsSpent : IsSpent "svc" 0 stuck_engine
unfolding Dict.get
stuck-IsSpent = record { rt = stuck; named = refl; found = refl; half = refl; spent = omega arith }

cancelled_trials_block_example :
    (enter "svc" 900_000_000 (all_late "svc" 0 (attempt 200 ∷ cancel 300 ∷ []) stuck_engine)).0
    ≡ rejected
cancelled_trials_block_example =
    cancelled_trials_block "svc" 0 (attempt 200 ∷ cancel 300 ∷ []) 900_000_000 stuck_engine
      stuck-IsSpent

abbrev policy : RetryPolicy
policy = record {
  max_attempts = 3;
  backoff_base_ms = 100;
  max_backoff_ms = 150;
  retryable_exceptions = "OSError" ∷ [];
}

abbrev flaky : ℕ → Outcome ℕ
flaky zero = raised oops
flaky (suc zero) = raised oops
flaky _ = returned 7

retry-Decides_example :
    (n : ℕ) × Decides policy "t" flaky (λ n. n) start (retry policy "t" flaky (λ n. n) start) n
retry-Decides_example = retry-Decides policy "t" flaky (λ n. n) start (omega arith)

retry_returns : (retry policy "t" flaky (λ n. n) start).0 ≡ done 7
unfolding retry is_retryable backoff_for
retry_returns = refl

abbrev parked : ResilienceEngine ℕ
parked = (enqueue_dead_letter 41 "boom" 3 "e1" 10 start).1

abbrev replayed_once : ResilienceEngine ℕ
replayed_once = (replay_dead_letter {A = ℕ} "e1" (λ task. raised oops) 20 parked).1

queue-mirrors-store_example :
    (s : ResilienceStore ℕ) × IsMirrored s (discard_dead_letter "e1" 30 replayed_once).1
queue-mirrors-store_example = queue-mirrors-store outlets (
    Sequences.Reach.next
      (Sequences.Reach.next
        (Sequences.Reach.next Sequences.Reach.here
          (Sequences.Step.enqueue 41 "boom" 3 "e1" 10 start))
        (Sequences.Step.replay {A = ℕ} "e1" (λ task. raised oops) 20 parked))
      (Sequences.Step.discard "e1" 30 replayed_once))
