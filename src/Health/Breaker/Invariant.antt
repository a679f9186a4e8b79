-- ===== src/Health/Breaker/Invariant.antt =====
-- What holds of every state object, whatever the interleaving of the calls.
use hermes_kernel_v.Prelude.{ℕ, ◌<◌, String, ◌≡◌, ◌⊎◌, Bool, true, [], is_some, All}
use hermes_kernel_v.Prelude.Dict
use hermes_kernel_v.Health.Breaker.{
  closed, open_circuit, half_open, CircuitBreakerPolicy, BreakerState, CircuitBreaker, state, reset,
  enter, Ending, leave,
}

-- A closed breaker is below its failure threshold, an open one knows when it opened, a half-open one
-- is below its success threshold, and only a half-open one has a test call in flight.
pub record IsSound (p : CircuitBreakerPolicy) (st : BreakerState) : Type 0 where
  pub closed_below :
      st.state ≡ closed → (st.failure_count ≡ 0) ⊎ (st.failure_count < p.failure_threshold)
  pub open_dated : st.state ≡ open_circuit → is_some st.opened_at ≡ true
  pub half_open_below :
      st.state ≡ half_open → (st.success_count ≡ 0) ⊎ (st.success_count < p.success_threshold)
  pub inflight_half_open : st.half_open_inflight ≡ true → st.state ≡ half_open

abbrev pub IsValid : CircuitBreakerPolicy → CircuitBreaker → Type 0
IsValid p b = (b.policy ≡ p) × All (IsSound p) b.heap

-- One operation on the breaker; calls overlap, and leave in any order and way.
pub data Step : CircuitBreaker → CircuitBreaker → Type 0 where
  ask : (capability : String) (now : ℕ) (b : CircuitBreaker) → Step b (state capability now b).1
  forget : (capability : String) (b : CircuitBreaker) → Step b (reset capability b)
  begin : (capability : String) (now : ℕ) (b : CircuitBreaker) → Step b (enter capability now b).1
  finish :
      (capability : String) (address now : ℕ) (has_callback : Bool) (ending : Ending)
      (b : CircuitBreaker)
      → Step b (leave capability address now has_callback ending b)

pub data Reach (b : CircuitBreaker) : CircuitBreaker → Type 0 where
  here : Reach b b
  next : {c d : CircuitBreaker} → Reach b c → Step c d → Reach b d

module _ (p : CircuitBreakerPolicy) where
  abbrev pub new_breaker : Bool → Bool → CircuitBreaker
  new_breaker has_store has_bus = record {
    policy = p;
    has_store = has_store;
    has_bus = has_bus;
    heap = [];
    states = [];
    journal = [];
  }
