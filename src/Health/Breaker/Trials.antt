-- ===== src/Health/Breaker/Trials.antt =====
-- How many test calls the breaker admits.
use hermes_kernel_v.Prelude.{ℕ, ◌+◌, ◌<◌, ◌≡◌, true, arith}
use hermes_kernel_v.Health.Breaker.{
  half_open, CircuitBreakerPolicy, BreakerState, admit, on_success,
}

module _ (p : CircuitBreakerPolicy) where
  -- A call that was let in before the breaker opened, and returns while a test call is in flight,
  -- frees the test call's place: the next attempt passes, and two test calls run at once.
  pub late_return_admits_second :
      (st : BreakerState) (returned_at now : ℕ)
      → st.state ≡ half_open
      → st.half_open_inflight ≡ true
      → st.success_count + 1 < p.success_threshold
      → (admit p now (on_success p returned_at st).0).0 ≡ true
  unfolding admit on_success
  late_return_admits_second st returned_at now h k lt = ground arith
