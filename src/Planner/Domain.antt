-- ===== src/Planner/Domain.antt =====
-- kernel/domain.py: plans, their steps, and what running a step ends in.
use hermes_kernel_v.Prelude.{ℕ, String, Option, List}

pub data PlanStatus : Type 0 where
  draft active failed completed adapted : PlanStatus

pub data RiskLevel : Type 0 where
  low medium high critical : RiskLevel

pub record PlanStep : Type 0 where
  pub step_id : String
  pub capability : String
  pub agent_id : Option String
  pub dependencies : List String
  pub estimated_duration_ms : ℕ
  pub risk : RiskLevel
  pub retry_budget : ℕ

pub record Plan : Type 0 where
  pub plan_id : String
  pub workflow_id : String
  pub status : PlanStatus
  pub steps : List PlanStep
  pub version : ℕ

-- `status` of an `ExecutionOutcome`.
pub data Outcome : Type 0 where
  success failure timeout cancelled : Outcome

pub record ExecutionOutcome : Type 0 where
  pub outcome_id : String
  pub plan_id : String
  pub step_id : String
  pub status : Outcome
  pub error_type : Option String
  pub retry_count : ℕ
