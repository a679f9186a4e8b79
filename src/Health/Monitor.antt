-- ===== src/Health/Monitor.antt =====
-- kernel/health.py, `HealthMonitor`: the registry of components and what a probe's result does to a
-- record. The probe's outcome, `wait_for` included, and the times are arguments; the background
-- probe loops are sequences of `check_now`. A signal goes to the event store and the bus at once.
pub mod Signals
use hermes_kernel_v.Prelude.{
  ℕ, suc, ◌+◌, String, Bool, true, false, ◌||◌, List, [], ◌∷◌, ◌++◌, Option, none, some, leb,
  if◌then◌else◌,
}
use hermes_kernel_v.Prelude.Dict
use hermes_kernel_v.Prelude.Dict.{Dict}

pub data HealthStatus : Type 0 where
  healthy degraded unhealthy unknown : HealthStatus

pub record HealthCheck : Type 0 where
  pub failure_threshold : ℕ
  pub success_threshold : ℕ
  pub enabled : Bool

pub record HealthRecord : Type 0 where
  pub component_id : String
  pub component_type : String
  pub status : HealthStatus
  pub last_probe_at : Option ℕ
  pub consecutive_failures : ℕ
  pub consecutive_successes : ℕ
  pub last_error : Option String

pub record Registration : Type 0 where
  pub check : HealthCheck
  pub health : HealthRecord

-- `AgentUnhealthy` and `AgentRecovered`.
pub data Signal : Type 0 where
  agent_unhealthy : String → Option String → ℕ → Signal
  agent_recovered : String → ℕ → Signal

pub record HealthMonitor : Type 0 where
  pub registry : Dict Registration
  pub signals : List Signal

-- How awaiting the probe ends: its verdict, or an error and its text (a timeout is one).
pub data Probe : Type 0 where
  verdict : Bool → Probe
  error : String → Probe

unfoldable pub status_eq : HealthStatus → HealthStatus → Bool
status_eq healthy healthy = true
status_eq degraded degraded = true
status_eq unhealthy unhealthy = true
status_eq unknown unknown = true
status_eq _ _ = false

unfoldable pub register : String → String → HealthCheck → HealthMonitor → HealthMonitor
register component_id component_type check m = record m {
  registry =
      Dict.put component_id
        (record {
          check = check;
          health = record {
            component_id = component_id;
            component_type = component_type;
            status = unknown;
            last_probe_at = none;
            consecutive_failures = 0;
            consecutive_successes = 0;
            last_error = none;
          };
        })
        m.registry;
}

unfoldable pub unregister : String → HealthMonitor → HealthMonitor
unregister component_id m = record m { registry = Dict.pop component_id m.registry }

-- `_run_probe`: an error is noted in the record, and counts as a failure.
run_probe : Probe → HealthRecord → Bool × HealthRecord
run_probe (verdict ok) rec = (ok, rec)
run_probe (error text) rec = (false, record rec { last_error = some text })

-- The new status after a failure.
failed_status : HealthCheck → HealthStatus → ℕ → HealthStatus
failed_status check prev failures =
    if leb check.failure_threshold failures
    then unhealthy
    else if status_eq prev healthy || status_eq prev unknown
    then degraded
    else prev

succeed : HealthCheck → HealthRecord → HealthRecord
succeed check rec =
    let n = rec.consecutive_successes + 1 in
    let rec' = record rec { consecutive_successes = n; consecutive_failures = 0 } in
    if leb check.success_threshold n
    then record rec' {
      status = healthy;
      last_error = if status_eq rec.status healthy then rec.last_error else none;
    }
    else rec'

fail : HealthCheck → HealthRecord → HealthRecord
fail check rec =
    let n = rec.consecutive_failures + 1 in
    record rec {
      consecutive_failures = n;
      consecutive_successes = 0;
      status = failed_status check rec.status n;
    }

-- `_emit_transition`
transition_signals : HealthStatus → HealthRecord → List Signal
transition_signals prev rec = if status_eq rec.status prev then [] else elim rec.status [
  | unhealthy ↦ agent_unhealthy rec.component_id rec.last_error rec.consecutive_failures ∷ []
  | healthy ↦ if status_eq prev unhealthy then agent_recovered rec.component_id 0 ∷ [] else []
  | _ ↦ []
]

unfoldable pub apply_result : HealthCheck → ℕ → Bool → HealthRecord → HealthRecord × List Signal
unfolding succeed fail failed_status transition_signals status_eq
apply_result check now ok rec =
    let rec' = record rec { last_probe_at = some now } in
    let rec'' = if ok then succeed check rec' else fail check rec' in
    (rec'', transition_signals rec.status rec'')

-- One probe of one record.
unfoldable pub probe_once : HealthCheck → ℕ → Probe → HealthRecord → HealthRecord × List Signal
unfolding run_probe
probe_once check now probe rec =
    let (ok, rec') = run_probe probe rec in apply_result check now ok rec'

-- `KeyError` is `none`.
unfoldable pub check_now : String → ℕ → Probe → HealthMonitor → Option HealthRecord × HealthMonitor
check_now component_id now probe m = elim (Dict.get component_id m.registry) [
  | none ↦ (none, m)
  | some reg ↦
      let (rec, signals) = probe_once reg.check now probe reg.health in
      (
        some rec,
        record {
          registry = Dict.put component_id (record reg { health = rec }) m.registry;
          signals = m.signals ++ signals;
        },
      )
]

unfoldable pub get_status : String → HealthMonitor → HealthStatus
get_status component_id m = elim (Dict.get component_id m.registry) [
  | none ↦ unknown
  | some reg ↦ reg.health.status
]

unfoldable pub get_record : String → HealthMonitor → Option HealthRecord
get_record component_id m = elim (Dict.get component_id m.registry) [
  | none ↦ none
  | some reg ↦ some reg.health
]

unfoldable pub list_unhealthy : Dict Registration → List String
list_unhealthy [] = []
list_unhealthy ((cid, reg) ∷ registry) =
    let rest = list_unhealthy registry in
    if status_eq reg.health.status unhealthy then cid ∷ rest else rest
