-- ===== src/Resilience/Retry.antt =====
-- kernel/resilience.py, `retry`. The factory's awaitables are a function from the attempt's number
-- to its outcome, the clock one to the time of its journal row; `task_id` is given, or generated by
-- the caller of the model.
pub mod Attempts
use hermes_kernel_v.Prelude.{
  ℕ, zero, suc, ◌+◌, ◌≤◌, ◌<◌, String, ◌≡◌, Bool, true, ◌||◌, not, some, [], ◌∷◌, leb,
  if◌then◌else◌,
}
use hermes_kernel_v.Resilience.Domain.{
  Exc, Outcome, returned, raised, cancelled, describe, RetryPolicy, backoff_for, is_retryable,
}
use hermes_kernel_v.Resilience.Store.{put_retry}
use hermes_kernel_v.Resilience.Engine.{
  retry_attempted, retry_exhausted, sleep_ms, ResilienceEngine, log, emit, metric, with_store,
}

-- What `retry` ends in. `RetryExhaustedError` carries the attempts made and the last error.
pub data RetryResult {ℓ} (A : Type ℓ) : Type ℓ where
  done : A → RetryResult A
  exhausted : ℕ → String → RetryResult A
  interrupted : RetryResult A

module _ {Task : Type 0} (pol : RetryPolicy) (tid : String) where
  -- The rest of the handler where the call is tried again.
  back_off : ℕ → ℕ → Exc → ResilienceEngine Task → ResilienceEngine Task
  unfolding emit metric put_retry
  back_off now attempt exc e =
      let backoff_ms = backoff_for pol attempt in
      log (sleep_ms backoff_ms ∷ []) (
        with_store
          (put_retry (record {
            task_id = tid;
            attempt = attempt;
            backoff_ms = backoff_ms;
            error = describe exc;
            timestamp = now;
          }))
          (metric "res.retry_attempted" (some tid)
            (emit (retry_attempted tid attempt backoff_ms (describe exc)) e)))

module _ {Task : Type 0} {A : Type 0} (pol : RetryPolicy) (tid : String) where
  give_up : ℕ → Exc → ResilienceEngine Task → RetryResult A × ResilienceEngine Task
  unfolding emit metric
  give_up attempt exc e = (
    exhausted attempt (describe exc),
    metric "res.retry_exhausted" (some tid) (emit (retry_exhausted tid attempt (describe exc)) e),
  )

  module _ (factory : ℕ → Outcome A) (clock : ℕ → ℕ) where
    -- `for attempt in range(attempt, attempt + rounds)`, then the raise below the loop.
    attempt_from :
        (rounds attempt : ℕ)
        → String
        → ResilienceEngine Task
        → RetryResult A × ResilienceEngine Task
    unfolding give_up back_off
    attempt_from zero attempt last_error e = (exhausted pol.max_attempts last_error, e)
    attempt_from (suc rounds) attempt last_error e = elim (factory attempt) [
      | returned a ↦ (done a, e)
      | cancelled ↦ (interrupted, e)
      | raised exc ↦
          let rest =
            attempt_from rounds (attempt + 1) (describe exc)
              (back_off pol tid (clock attempt) attempt exc e) in
          if not (is_retryable pol exc) || leb pol.max_attempts attempt
          then give_up attempt exc e
          else rest
    ]

    unfoldable pub retry : ResilienceEngine Task → RetryResult A × ResilienceEngine Task
    unfolding attempt_from
    retry e = attempt_from pol.max_attempts 1 "" e
