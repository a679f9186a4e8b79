-- ===== src/Resilience/Domain.antt =====
-- kernel/resilience_domain.py: circuit states, configurations, the retry policy, dead letters.
-- Durations are in milliseconds and times in microseconds, the resolution of `datetime`; a
-- configuration number is a natural number.
use hermes_kernel_v.Prelude.{
  ℕ, ◌-◌, ◌*◌, ◌^◌, String, Bool, true, List, [], ◌∷◌, Option, ltb, any, ◌==◌, if◌then◌else◌,
  concat,
}
use Prim.Native.Nat.{min}

pub data CircuitState : Type 0 where
  closed open_circuit half_open : CircuitState

pub record CircuitConfig : Type 0 where
  pub name : String
  pub failure_threshold : ℕ
  pub recovery_timeout_ms : ℕ
  pub half_open_max_calls : ℕ

abbrev pub default_config : String → CircuitConfig
default_config name = record {
  name = name;
  failure_threshold = 5;
  recovery_timeout_ms = 60_000;
  half_open_max_calls = 1;
}

-- An exception: the name of its class, those of the class's bases, and its text.
pub record Exc : Type 0 where
  pub class_name : String
  pub bases : List String
  pub text : String

-- What awaiting a call can end in. `cancelled` is `asyncio.CancelledError`, which is no
-- `Exception`, so `except Exception` does not catch it.
pub data Outcome {ℓ} (A : Type ℓ) : Type ℓ where
  returned : A → Outcome A
  raised : Exc → Outcome A
  cancelled : Outcome A

-- f"{type(exc).__name__}: {exc}"
abbrev pub describe : Exc → String
describe exc = concat exc.class_name (concat ": " exc.text)

pub record RetryPolicy : Type 0 where
  pub max_attempts : ℕ
  pub backoff_base_ms : ℕ
  pub max_backoff_ms : ℕ
  pub retryable_exceptions : List String

unfoldable pub backoff_for : RetryPolicy → ℕ → ℕ
backoff_for p n =
    let attempt = if ltb n 1 then 1 else n in
    min (p.backoff_base_ms * 2 ^ (attempt - 1)) p.max_backoff_ms

abbrev pub contains : List String → String → Bool
contains names s = any (λ n. n == s) names

unfoldable pub is_retryable : RetryPolicy → Exc → Bool
is_retryable p exc = elim p.retryable_exceptions [
  | [] ↦ true
  | n ∷ ns ↦ any (contains (n ∷ ns)) (exc.class_name ∷ exc.bases)
]

pub data DeadLetterStatus : Type 0 where
  pending replayed discarded : DeadLetterStatus

-- `Task` is the `dict` of the original task.
pub record DeadLetterEntry (Task : Type 0) : Type 0 where
  pub entry_id : String
  pub original_task : Task
  pub error : String
  pub attempts : ℕ
  pub enqueued_at : ℕ
  pub last_attempt : Option ℕ
  pub status : DeadLetterStatus
