-- ===== src/Swarm/State.antt =====
-- What a `SwarmCoordinator` and its `SwarmStore` keep. The coordinator changes the stored swarm
-- objects in place, so one dict of swarms is the state of both.
use hermes_kernel_v.Prelude.{ℕ, String, Bool, ◌==◌, List, [], ◌++◌, Option, filterb}
use hermes_kernel_v.Prelude.Dict
use hermes_kernel_v.Prelude.Dict.{Dict}
use hermes_kernel_v.Swarm.Domain.{Swarm, TaskDelegation}

pub data SwarmEvent : Type 0 where
  agent_joined : String → String → String → String → List String → SwarmEvent
  agent_left : String → String → String → SwarmEvent
  leader_elected : String → Option String → Option String → SwarmEvent
  heartbeat_received : String → String → ℕ → ℕ → SwarmEvent
  heartbeat_missed : String → String → ℕ → SwarmEvent
  node_partitioned : String → List String → SwarmEvent
  task_delegated : String → String → String → String → String → SwarmEvent
  task_completed : String → String → String → SwarmEvent

pub record NodeEntry : Type 0 where
  pub node_id : String
  pub capabilities : List String
  pub load_score : ℕ
  pub last_seen : ℕ
  pub agent_ids : List String

pub record Coordinator : Type 0 where
  pub swarms : Dict Swarm
  pub stored : Dict TaskDelegation
  pub delegations : Dict TaskDelegation
  pub nodes : Dict NodeEntry
  pub rr : Dict String
  pub load : Dict ℕ
  pub last_beat : Dict ℕ
  pub suspicion_timeout_ms : ℕ
  pub failure_timeout_ms : ℕ
  pub journal : List SwarmEvent

abbrev pub init : ℕ → ℕ → Coordinator
init suspicion_timeout_ms failure_timeout_ms = record {
  swarms = [];
  stored = [];
  delegations = [];
  nodes = [];
  rr = [];
  load = [];
  last_beat = [];
  suspicion_timeout_ms = suspicion_timeout_ms;
  failure_timeout_ms = failure_timeout_ms;
  journal = [];
}

unfoldable pub publish : List SwarmEvent → Coordinator → Coordinator
publish events c = record c { journal = c.journal ++ events }

-- `SwarmStore.put`
unfoldable pub put_swarm : Swarm → Coordinator → Coordinator
put_swarm swarm c = record c { swarms = Dict.put swarm.swarm_id swarm c.swarms }

unfoldable pub put_delegation : TaskDelegation → Coordinator → Coordinator
put_delegation d c = record c { stored = Dict.put d.delegation_id d c.stored }

abbrev pub of_swarm : String → TaskDelegation → Bool
of_swarm swarm_id d = d.swarm_id == swarm_id

unfoldable pub delegations_for : String → Coordinator → List TaskDelegation
delegations_for swarm_id c = filterb (of_swarm swarm_id) (Dict.values c.stored)
