-- ===== src/Swarm/Domain.antt =====
-- The swarm entities of kernel/domain.py. Their wall-clock stamps (`created_at`, `updated_at`,
-- `last_heartbeat`), which no operation reads, are left out.
use hermes_kernel_v.Prelude.{String, Bool, true, false, List, Option}
use hermes_kernel_v.Prelude.Dict.{Dict}

pub data SwarmTopology : Type 0 where
  leader_worker mesh : SwarmTopology

pub data MemberHealth : Type 0 where
  healthy suspected unhealthy : MemberHealth

pub record SwarmMember : Type 0 where
  pub agent_id : String
  pub node_id : String
  pub role : String
  pub health : MemberHealth
  pub capabilities : List String

pub record Swarm : Type 0 where
  pub swarm_id : String
  pub topology : SwarmTopology
  pub members : Dict SwarmMember
  pub leader_id : Option String

pub data DelegationStatus : Type 0 where
  pending running completed failed : DelegationStatus

pub record TaskDelegation : Type 0 where
  pub delegation_id : String
  pub task_id : String
  pub from_agent : String
  pub to_agent : String
  pub swarm_id : String
  pub status : DelegationStatus

-- The part of a `Task` that a delegation reads and writes.
pub record Task : Type 0 where
  pub id : String
  pub capability : Option String
  pub assigned_to : Option String

abbrev pub is_healthy : MemberHealth → Bool
is_healthy healthy = true
is_healthy _ = false

abbrev pub is_unhealthy : MemberHealth → Bool
is_unhealthy unhealthy = true
is_unhealthy _ = false

abbrev pub is_leader_worker : SwarmTopology → Bool
is_leader_worker leader_worker = true
is_leader_worker mesh = false
