-- ===== src/Workflow.antt =====
-- kernel/workflow.py, `WorkflowEngine`: the execution of a workflow's steps. What running a step
-- ends in (`_run_step` under the capability guard) is a parameter, and so is whether a compensation
-- succeeds; planner, sandbox, vault, observability and step inputs are left out. Events, sleeps and
-- dead letters are collected in their order.
pub mod Domain
pub mod Compensation
pub mod Approval
pub mod Attempts
pub mod Positions
pub mod Driving
use hermes_kernel_v.Prelude.{
  ℕ, zero, suc, ◌+◌, ◌-◌, ◌*◌, ◌^◌, String, Bool, true, false, not, ◌&&◌, ◌==◌, List, [], ◌∷◌, ◌++◌,
  Option, none, some, eqb, ltb, is_some, length, if◌then◌else◌,
}
use text.Mathlib.Text.{starts_with}
use hermes_kernel_v.Prelude.Dict
use hermes_kernel_v.Workflow.Domain.{
  WorkflowStatus, draft, pending, running, paused, completed, failed, compensating, RetryPolicy,
  WorkflowStep, WorkflowInstance, Effect, step_started, awaiting_approval, step_completed,
  step_failed, slept, dead_lettered, resilience_dead_lettered, stalled, compensating_step, Ending,
  produced, denied, raised, cancelled, Engine, Answer, artifact, workflow_completed,
  approval_required, error_artifact, was_cancelled, Run,
}
use hermes_kernel_v.Workflow.Compensation.{step_by_id, before, truthy, compensate}

abbrev pub head_id : List WorkflowStep → Option String
head_id [] = none
head_id (s ∷ steps) = some s.id

-- `_advance`: the id after the first step with this id.
unfoldable pub next_after : String → List WorkflowStep → Option String
next_after id [] = none
next_after id (s ∷ steps) = if s.id == id then head_id steps else next_after id steps

abbrev pub ended : Option String → WorkflowStatus → WorkflowStatus
ended none status = completed
ended (some id) status = status

-- The step has produced an artifact.
unfoldable pub complete :
    List WorkflowStep → WorkflowStep → String → WorkflowInstance → WorkflowInstance
unfolding next_after
complete steps step artifact_id inst =
    let next = next_after step.id steps in
    record inst {
      step_results = Dict.put step.id artifact_id inst.step_results;
      event_log = inst.event_log ++ artifact_id ∷ [];
      current_step_id = next;
      status = ended next inst.status;
    }

abbrev pub when : Bool → Effect → List Effect
when true e = e ∷ []
when false e = []

-- The last attempt has raised: dead letters, the stall, then compensation or failure.
unfoldable pub exhaust :
    Engine
    → List WorkflowStep
    → WorkflowStep
    → ℕ
    → WorkflowInstance
    → WorkflowInstance × List Effect
unfolding compensate
exhaust eng steps step attempt inst =
    let noted =
      when eng.has_dlq (dead_lettered step.id attempt)
      ++ (when eng.has_resilience (resilience_dead_lettered step.id attempt)
          ++ stalled step.id ∷ []) in
    let r =
      if is_some (truthy step.compensation)
      then compensate eng steps step.id inst
      else (record inst { status = failed }, []) in
    (r.0, noted ++ r.1)

unfoldable pub backoff_of : RetryPolicy → ℕ → ℕ
backoff_of p attempt = if p.exponential then p.backoff * 2 ^ (attempt - 1) else p.backoff

-- What an attempt's ending leads to; `again` is the retry, from the effects so far on.
settle :
    Engine
    → List WorkflowStep
    → WorkflowStep
    → ℕ
    → WorkflowInstance
    → List Effect
    → (List Effect → Option Run)
    → Ending
    → Option Run
unfolding complete exhaust backoff_of
settle eng steps step attempt inst effects again (produced a) = some (record {
  answer = artifact a;
  instance = complete steps step a inst;
  effects = effects ++ step_completed step.id a ∷ [];
})
settle eng steps step attempt inst effects again denied = some (record {
  answer = error_artifact;
  instance = record inst { status = failed };
  effects = effects ++ step_failed step.id "guard denied" 1 false ∷ [];
})
settle eng steps step attempt inst effects again cancelled =
    some (record { answer = was_cancelled; instance = inst; effects = effects })
settle eng steps step attempt inst effects again (raised text) =
    let will_retry = ltb attempt step.retry_policy.max_attempts in
    let effects' = effects ++ step_failed step.id text attempt will_retry ∷ [] in
    let last = exhaust eng steps step attempt inst in
    if will_retry
    then again (effects' ++ slept (backoff_of step.retry_policy attempt) ∷ [])
    else some (record { answer = error_artifact; instance = last.0; effects = effects' ++ last.1 })

-- The instance once the attempt is counted, and its number.
abbrev pub attempt_of : WorkflowStep → WorkflowInstance → ℕ
attempt_of step inst = Dict.get_or step.id 0 inst.step_attempts + 1

abbrev pub counted : WorkflowStep → WorkflowInstance → WorkflowInstance
counted step inst = record inst {
  current_step_id = some step.id;
  step_attempts = Dict.put step.id (attempt_of step inst) inst.step_attempts;
}

-- `execute_step` from its attempt on; a retry calls it again, so that it runs on fuel.
unfoldable pub attempt_from :
    (fuel : ℕ)
    → Engine
    → List WorkflowStep
    → WorkflowStep
    → WorkflowInstance
    → List Effect
    → Option Run
unfolding settle
attempt_from zero eng steps step inst effects = none
attempt_from (suc fuel) eng steps step inst effects =
    let attempt = attempt_of step inst in
    let inst' = counted step inst in
    let effects' = effects ++ step_started step.id ∷ [] in
    let outcome =
      settle eng steps step attempt inst' effects'
        (λ so_far. attempt_from fuel eng steps step inst' so_far) (eng.perform step.id attempt) in
    if step.requires_approval && eqb attempt 1
    then some (record {
      answer = approval_required;
      instance = record inst' { status = paused };
      effects = effects ++ awaiting_approval step.id ∷ [];
    })
    else if starts_with step.capability "mcp:" && not eng.has_mcp
    then some (record {
      answer = error_artifact;
      instance = record inst' { status = failed };
      effects = effects' ++ step_failed step.id "mcp_not_wired" attempt false ∷ [];
    })
    else outcome

abbrev pub current_step : List WorkflowStep → WorkflowInstance → Option WorkflowStep
current_step steps inst = elim inst.current_step_id [ none ↦ none | some id ↦ step_by_id id steps ]

-- What a call returns where no step is left.
abbrev pub finished : WorkflowInstance → Run
finished inst = record {
  answer = workflow_completed;
  instance = record inst { status = completed };
  effects = [];
}

abbrev pub execute_current :
    Engine → List WorkflowStep → WorkflowInstance → Option WorkflowStep → Option Run
execute_current eng steps inst none = some (finished inst)
execute_current eng steps inst (some step) =
    attempt_from (suc step.retry_policy.max_attempts) eng steps step inst []

unfoldable pub execute_step : Engine → List WorkflowStep → WorkflowInstance → Option Run
execute_step eng steps inst = execute_current eng steps inst (current_step steps inst)
