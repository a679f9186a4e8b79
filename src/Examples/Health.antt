-- ===== src/Examples/Health.antt =====
-- The health layer at concrete inputs.
use hermes_kernel_v.Prelude.{ℕ, String, ◌≡◌, Bool, true, false, List, [], ◌∷◌, none, some, ◌==◌}
use hermes_kernel_v.Prelude.Dict
use hermes_kernel_v.Health.Breaker.{
  open_circuit, half_open, CircuitBreakerPolicy, BreakerState, fresh_state, CircuitBreaker, enter,
  leave, raised,
}
use hermes_kernel_v.Health.Breaker.Invariant.{new_breaker}
use hermes_kernel_v.Health.Monitor.{
  unknown, HealthCheck, HealthRecord, Probe, verdict, error, status_eq,
}
use hermes_kernel_v.Health.Monitor.Signals.{alternates, probe_all, probe_all-alternates}
use hermes_kernel_v.Health.Queue.{DeadLetterEntry, DeadLetterQueue}
use hermes_kernel_v.Health.Recovery.{Runtime, RecoveryEngine}
use hermes_kernel_v.Health.Recovery.Bounds.{Report}

abbrev policy : CircuitBreakerPolicy
policy = record { failure_threshold = 2; recovery_timeout = 60; success_threshold = 2 }

abbrev breaker : CircuitBreaker
breaker = new_breaker policy true true

abbrev failed_once : CircuitBreaker
failed_once = leave "cap" 0 5 true raised (enter "cap" 4 breaker).1

abbrev opened : BreakerState
opened = record fresh_state { state = open_circuit; failure_count = 2; opened_at = some 2 }

abbrev testing : BreakerState
testing = record opened { state = half_open; half_open_inflight = true }

abbrev check : HealthCheck
check = record { failure_threshold = 3; success_threshold = 1; enabled = true }

abbrev new_record : HealthRecord
new_record = record {
  component_id = "a";
  component_type = "agent";
  status = unknown;
  last_probe_at = none;
  consecutive_failures = 0;
  consecutive_successes = 0;
  last_error = none;
}

abbrev probes : List (ℕ × Probe)
probes =
    (1, verdict false)
    ∷ (2, error "slow")
    ∷ (3, verdict false)
    ∷ (4, verdict true)
    ∷ (5, verdict false)
    ∷ []

probe_all-alternates_example : alternates false (probe_all check probes new_record).1 ≡ true
unfolding status_eq
probe_all-alternates_example = probe_all-alternates check probes new_record

abbrev letter : String → String → DeadLetterEntry
letter eid cid = record {
  entry_id = eid;
  component_id = cid;
  entry_type = "task";
  error = "boom";
  retry_count = 0;
  max_retries = 3;
  recovered_at = none;
}

abbrev queue : DeadLetterQueue
queue = record { entries = letter "1" "a" ∷ letter "2" "b" ∷ letter "3" "a" ∷ []; journal = [] }

abbrev accepts : DeadLetterEntry → Bool
accepts e = e.entry_id == "3"

abbrev runtime : Runtime
runtime = record {
  find = λ id. some true;
  stop = λ id. true;
  start = λ id. true;
  get_instance = λ id. true;
}

abbrev report : Report
report = record {
  runtime = runtime;
  recovery_id = "r1";
  escalation_id = "x1";
  component_id = "a";
  component_type = "agent";
  rec = none;
}

abbrev recovery : RecoveryEngine
recovery = record {
  max_restarts = 1;
  restart_counts = [];
  dlq = record { entries = []; journal = [] };
  events = [];
}
