-- ===== src/Workflow/Domain.antt =====
-- kernel/domain.py: the data of a workflow; what the engine of kernel/workflow.py is wired to, and
-- what its calls leave behind.
use hermes_kernel_v.Prelude.{ℕ, String, Bool, List, Option}
use hermes_kernel_v.Prelude.Dict.{Dict}

pub data WorkflowStatus : Type 0 where
  draft pending running paused completed failed compensating : WorkflowStatus

-- The backoff in microseconds.
pub record RetryPolicy : Type 0 where
  pub max_attempts : ℕ
  pub backoff : ℕ
  pub exponential : Bool

pub record WorkflowStep : Type 0 where
  pub id : String
  pub capability : String
  pub retry_policy : RetryPolicy
  pub compensation : Option String
  pub requires_approval : Bool

pub record WorkflowInstance : Type 0 where
  pub status : WorkflowStatus
  pub current_step_id : Option String
  pub step_results : Dict String
  pub step_attempts : Dict ℕ
  pub event_log : List String

pub data Effect : Type 0 where
  step_started awaiting_approval : String → Effect
  step_completed : String → String → Effect
  step_failed : String → String → (attempt : ℕ) → (will_retry : Bool) → Effect
  slept : ℕ → Effect
  dead_lettered : String → ℕ → Effect
  resilience_dead_lettered : String → ℕ → Effect
  stalled : String → Effect
  compensating_step : String → String → Effect

-- How running a step ends.
pub data Ending : Type 0 where
  produced : String → Ending
  denied : Ending
  raised : String → Ending
  cancelled : Ending

-- What the engine is wired to, and what its collaborators do.
pub record Engine : Type 0 where
  pub has_mcp : Bool
  pub has_dlq : Bool
  pub has_resilience : Bool
  pub perform : String → ℕ → Ending
  pub compensates : String → String → Bool

-- The artifact that a call returns, or its cancellation.
pub data Answer : Type 0 where
  artifact : String → Answer
  workflow_completed approval_required error_artifact was_cancelled : Answer

pub record Run : Type 0 where
  pub answer : Answer
  pub instance : WorkflowInstance
  pub effects : List Effect
