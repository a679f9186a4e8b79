-- ===== src/Health/Recovery.antt =====
-- kernel/health.py, `RecoveryEngine`. The agent runtime and the workflow engine are injected there
-- and are a parameter here; the ids of new dead letters come from the caller.
pub mod Bounds
use hermes_kernel_v.Prelude.{
  ℕ, suc, ◌+◌, String, Bool, true, false, ◌&&◌, List, [], ◌∷◌, ◌++◌, Option, none, some, is_some,
  leb, ltb, ◌==◌, if◌then◌else◌,
}
use hermes_kernel_v.Prelude.Dict
use hermes_kernel_v.Prelude.Dict.{Dict}
use hermes_kernel_v.Health.Monitor.{HealthRecord, HealthMonitor, get_record}
use hermes_kernel_v.Health.Queue.{DeadLetterEntry, DeadLetterQueue, append}

-- `find` is `get`: `none` where it raises, else whether it found the agent. The others say whether
-- the call returned: `AgentRuntime.stop`, `AgentRuntime.start`, `WorkflowEngine.get_instance`.
pub record Runtime : Type 0 where
  pub find : String → Option Bool
  pub stop : String → Bool
  pub start : String → Bool
  pub get_instance : String → Bool

-- `AgentRecovered`, in the event store and on the bus.
pub record Recovered : Type 0 where
  pub component_id : String
  pub restart_count : ℕ

pub record RecoveryEngine : Type 0 where
  pub max_restarts : ℕ
  pub restart_counts : Dict ℕ
  pub dlq : DeadLetterQueue
  pub events : List Recovered

unfoldable pub restart_count : String → RecoveryEngine → ℕ
restart_count component_id r = elim (Dict.get component_id r.restart_counts) [
  | none ↦ 0
  | some n ↦ n
]

-- `text or default`
abbrev pub or_text : Option String → String → String
or_text none d = d
or_text (some s) d = if s == "" then d else s

abbrev pub last_error : Option HealthRecord → Option String
last_error none = none
last_error (some record') = record'.last_error

abbrev pub entry_type_of : String → String
entry_type_of component_type = if component_type == "agent" then "task" else "workflow_step"

unfoldable pub escalate :
    String → String → String → Option HealthRecord → RecoveryEngine → RecoveryEngine
unfolding append restart_count
escalate eid component_id component_type rec r = record r {
  dlq =
      append
        (record {
          entry_id = eid;
          component_id = component_id;
          entry_type = entry_type_of component_type;
          error = or_text (last_error rec) "max restarts exceeded";
          retry_count = restart_count component_id r;
          max_retries = 3;
          recovered_at = none;
        })
        r.dlq;
}

restart_agent : Runtime → String → Bool
restart_agent rt agent_id = elim (rt.find agent_id) [
  | none ↦ false
  | some found ↦ found && (rt.stop agent_id && rt.start agent_id)
]

-- The stalled workflow is dead-lettered; an unknown instance is not.
recover_workflow :
    Runtime → String → String → Option HealthRecord → RecoveryEngine → Bool × RecoveryEngine
unfolding append
recover_workflow rt eid instance_id rec r =
    if rt.get_instance instance_id
    then (
      true,
      record r {
        dlq =
            append
              (record {
                entry_id = eid;
                component_id = instance_id;
                entry_type = "workflow_step";
                error = or_text (last_error rec) "workflow stalled";
                retry_count = 0;
                max_retries = 3;
                recovered_at = none;
              })
              r.dlq;
      },
    )
    else (false, r)

-- What the decision tree tries: `ok`, and the engine after it.
try_recovery :
    Runtime
    → String
    → String
    → String
    → Option HealthRecord
    → RecoveryEngine
    → Bool × RecoveryEngine
unfolding restart_agent recover_workflow
try_recovery rt eid component_id component_type rec r =
    if component_type == "workflow"
    then recover_workflow rt eid component_id rec r
    else (restart_agent rt component_id, r)

conclude :
    String → String → String → Option HealthRecord → ℕ → Bool × RecoveryEngine → RecoveryEngine
unfolding escalate
conclude eid component_id component_type rec restarts (true, r) = record r {
  restart_counts = Dict.put component_id (restarts + 1) r.restart_counts;
  events = r.events ++ record { component_id = component_id; restart_count = restarts + 1 } ∷ [];
}
conclude eid component_id component_type rec restarts (false, r) =
    escalate eid component_id component_type rec r

-- `eid` is the id of the entry that the recovery of a workflow adds, `eid'` that of an escalation.
unfoldable pub on_unhealthy :
    Runtime
    → String
    → String
    → String
    → String
    → Option HealthRecord
    → RecoveryEngine
    → RecoveryEngine
unfolding conclude try_recovery escalate restart_count
on_unhealthy rt eid eid' component_id component_type rec r =
    let restarts = restart_count component_id r in
    if leb r.max_restarts restarts
    then escalate eid' component_id component_type rec r
    else conclude eid' component_id component_type rec restarts
        (try_recovery rt eid component_id component_type rec r)

abbrev pub type_of : Option HealthRecord → String
type_of none = "agent"
type_of (some rec) = rec.component_type

-- The handler of the bus event, with the monitor's record.
unfoldable pub on_unhealthy_event :
    Runtime → String → String → HealthMonitor → String → RecoveryEngine → RecoveryEngine
unfolding on_unhealthy get_record
on_unhealthy_event rt eid eid' m component_id r =
    let rec = get_record component_id m in on_unhealthy rt eid eid' component_id (type_of rec) rec r

pub data Fate : Type 0 where
  archive retry escalated : Fate

unfoldable pub on_dead_letter : DeadLetterEntry → Fate
on_dead_letter entry =
    if is_some entry.recovered_at
    then archive
    else if ltb entry.retry_count entry.max_retries
    then retry
    else escalated
