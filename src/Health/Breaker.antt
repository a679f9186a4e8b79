-- ===== src/Health/Breaker.antt =====
-- kernel/health.py, `CircuitBreaker`. State objects are shared by the calls in flight, so they live
-- in a heap. `call` is `enter` before the awaited coroutine and `leave` after it. Time and the
-- recovery timeout are in one unit; the event store does not raise.
pub mod Invariant
pub mod Trials
use hermes_kernel_v.Prelude.{
  ℕ, suc, ◌+◌, String, Bool, true, false, List, [], ◌∷◌, ◌++◌, Option, none, some, leb, length,
  get_elem?, set, if◌then◌else◌,
}
use hermes_kernel_v.Prelude.Dict
use hermes_kernel_v.Prelude.Dict.{Dict}

pub data BreakerMode : Type 0 where
  closed open_circuit half_open : BreakerMode

pub record CircuitBreakerPolicy : Type 0 where
  pub failure_threshold : ℕ
  pub recovery_timeout : ℕ
  pub success_threshold : ℕ

pub record BreakerState : Type 0 where
  pub state : BreakerMode
  pub failure_count : ℕ
  pub success_count : ℕ
  pub opened_at : Option ℕ
  pub half_open_inflight : Bool

abbrev pub fresh_state : BreakerState
fresh_state = record {
  state = closed;
  failure_count = 0;
  success_count = 0;
  opened_at = none;
  half_open_inflight = false;
}

-- `CircuitBreakerTripped` in the event store and on the bus, and the call of `on_state_change`.
pub data BreakerEffect : Type 0 where
  append publish : String → BreakerMode → ℕ → BreakerEffect
  notify : String → BreakerMode → BreakerEffect

pub record CircuitBreaker : Type 0 where
  pub policy : CircuitBreakerPolicy
  pub has_store : Bool
  pub has_bus : Bool
  pub heap : List BreakerState
  pub states : Dict ℕ
  pub journal : List BreakerEffect

-- `_get`: a fresh object where the capability has none.
unfoldable pub find_state : String → CircuitBreaker → ℕ × CircuitBreaker
find_state capability b = elim (Dict.get capability b.states) [
  | some address ↦ (address, b)
  | none ↦ (
    length b.heap,
    record b {
      heap = b.heap ++ fresh_state ∷ [];
      states = Dict.put capability (length b.heap) b.states;
    },
  )
]

unfoldable pub maybe_half_open : CircuitBreakerPolicy → ℕ → BreakerState → BreakerState
maybe_half_open p now st = elim st.state [
  | open_circuit ↦ elim st.opened_at [
    | none ↦ st
    | some t ↦
        if leb (t + p.recovery_timeout) now
        then record st { state = half_open; success_count = 0; half_open_inflight = false }
        else st
  ]
  | _ ↦ st
]

abbrev pub write : ℕ → BreakerState → CircuitBreaker → CircuitBreaker
write address st b = record b { heap = set b.heap address st }

unfoldable pub state : String → ℕ → CircuitBreaker → BreakerMode × CircuitBreaker
state capability now b = elim (Dict.get capability b.states) [
  | none ↦ (closed, b)
  | some address ↦ elim (get_elem? b.heap address) [
    | none ↦ (closed, b)
    | some st ↦ let st' = maybe_half_open b.policy now st in (st'.state, write address st' b)
  ]
]

unfoldable pub reset : String → CircuitBreaker → CircuitBreaker
reset capability b = record b {
  heap = b.heap ++ fresh_state ∷ [];
  states = Dict.put capability (length b.heap) b.states;
}

-- The decision of `call` on one object.
unfoldable pub admit : CircuitBreakerPolicy → ℕ → BreakerState → Bool × BreakerState
unfolding maybe_half_open
admit p now st =
    let st' = maybe_half_open p now st in
    elim st'.state [
      | closed ↦ (true, st')
      | open_circuit ↦ (false, st')
      | half_open ↦
          if st'.half_open_inflight
          then (false, st')
          else (true, record st' { half_open_inflight = true })
    ]

-- `_transition`: the new state, and the event.
transition : ℕ → BreakerMode → BreakerState → BreakerState
transition now open_circuit st = record st {
  state = open_circuit;
  opened_at = some now;
  success_count = 0;
}
transition now closed st = record st {
  state = closed;
  failure_count = 0;
  success_count = 0;
  opened_at = none;
}
transition now half_open st = record st { state = half_open }

announce : String → Bool → BreakerState → CircuitBreaker → CircuitBreaker
announce capability has_callback st b = record b {
  journal =
      b.journal
      ++ ((if b.has_store then append capability st.state st.failure_count ∷ [] else [])
          ++ ((if b.has_bus then publish capability st.state st.failure_count ∷ [] else [])
              ++ (if has_callback then notify capability st.state ∷ [] else [])));
}

-- `_on_success` and `_on_failure`: the object, and whether `_transition` ran on it.
unfoldable pub on_success : CircuitBreakerPolicy → ℕ → BreakerState → BreakerState × Bool
unfolding transition
on_success p now st = elim st.state [
  | half_open ↦
      let st' = record st { half_open_inflight = false; success_count = st.success_count + 1 } in
      if leb p.success_threshold st'.success_count
      then (transition now closed st', true)
      else (st', false)
  | _ ↦ (record st { failure_count = 0 }, false)
]

unfoldable pub on_failure : CircuitBreakerPolicy → ℕ → BreakerState → BreakerState × Bool
unfolding transition
on_failure p now st = elim st.state [
  | half_open ↦ (transition now open_circuit (record st { half_open_inflight = false }), true)
  | _ ↦
      let st' = record st { failure_count = st.failure_count + 1 } in
      if leb p.failure_threshold st'.failure_count
      then (transition now open_circuit st', true)
      else (st', false)
]

-- `CircuitBreakerOpen`, or the object that the call goes on with.
pub data Admission : Type 0 where
  rejected : Admission
  admitted : ℕ → Admission

enter_at : ℕ → ℕ × CircuitBreaker → Admission × CircuitBreaker
enter_at now (address, b) = elim (get_elem? b.heap address) [
  | none ↦ (rejected, b)
  | some st ↦
      let (pass, st') = admit b.policy now st in
      (if pass then admitted address else rejected, write address st' b)
]

unfoldable pub enter : String → ℕ → CircuitBreaker → Admission × CircuitBreaker
unfolding enter_at
enter capability now b = enter_at now (find_state capability b)

-- How the awaited coroutine ends. A cancellation is no `Exception`: neither handler runs.
pub data Ending : Type 0 where
  returned raised cancelled : Ending

settle : CircuitBreakerPolicy → ℕ → Ending → BreakerState → BreakerState × Bool
settle p now returned st = on_success p now st
settle p now raised st = on_failure p now st
settle p now cancelled st = (st, false)

unfoldable pub leave : String → ℕ → ℕ → Bool → Ending → CircuitBreaker → CircuitBreaker
unfolding settle announce
leave capability address now has_callback ending b = elim (get_elem? b.heap address) [
  | none ↦ b
  | some st ↦
      let (st', moved) = settle b.policy now ending st in
      let b' = write address st' b in if moved then announce capability has_callback st' b' else b'
]
