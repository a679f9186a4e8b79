-- ===== src/Examples/Planner.antt =====
-- The dynamic planner at concrete inputs.
use hermes_kernel_v.Prelude.{
  ◌≡◌, ◌+◌, ◌<◌, ◌^◌, refl, arith, List, [], ◌∷◌, some, none, ltb, if◌then◌else◌,
}
use hermes_kernel_v.Planner.Domain.{
  Plan, PlanStep, draft, low, critical, Outcome, success, failure, timeout, ExecutionOutcome,
}
use hermes_kernel_v.Planner.Ordering.{toposort}
use hermes_kernel_v.Planner.Ordering.Correct.{IsSorted, toposort-IsSorted}
use hermes_kernel_v.Planner.Execution.{Planner, World, execute_step_with_retry}
use hermes_kernel_v.Planner.Execution.Retrying.{
  Succeeds, paused_for, retries, execute_step_with_retry-Succeeds,
}
use hermes_kernel_v.Planner.Risk.{step_by_id}
use hermes_kernel_v.Planner.Risk.Levels.{count_failures}

abbrev fetch : PlanStep
fetch = record {
  step_id = "fetch";
  capability = "web.get";
  agent_id = some "a1";
  dependencies = [];
  estimated_duration_ms = 1000;
  risk = critical;
  retry_budget = 3;
}

abbrev parse : PlanStep
parse = record fetch { step_id = "parse"; dependencies = "fetch" ∷ "gone" ∷ []; risk = low }

toposort-IsSorted_example : IsSorted (parse ∷ fetch ∷ []) (toposort (parse ∷ fetch ∷ []))
toposort-IsSorted_example = toposort-IsSorted (parse ∷ fetch ∷ [])

abbrev outcome : Outcome → ExecutionOutcome
outcome status = record {
  outcome_id = "o";
  plan_id = "p";
  step_id = "fetch";
  status = status;
  error_type = none;
  retry_count = 0;
}

-- The first two calls fail.
abbrev flaky : World
flaky = record {
  perform = λ n s. outcome (if ltb n 2 then failure else success);
  new_id = λ n. "id";
  answer = none;
  eligible = λ p. none;
}

abbrev plan : Plan
plan = record { plan_id = "p"; workflow_id = "w"; status = draft; steps = fetch ∷ []; version = 1 }

abbrev idle : Planner
idle = record { plans = []; outcomes = []; replans = []; effects = []; calls = 0; drawn = 0 }

execute_step_with_retry-Succeeds_example :
    Succeeds flaky plan fetch 0 2 idle (execute_step_with_retry flaky plan fetch idle)
    × (paused_for (retries flaky plan fetch 0 0 2) + 1 ≡ 2 ^ 2)
execute_step_with_retry-Succeeds_example =
    execute_step_with_retry-Succeeds flaky plan fetch 2 idle (omega arith) refl refl

abbrev history : List ExecutionOutcome
history = outcome failure ∷ outcome timeout ∷ outcome failure ∷ []

three_failures : 2 < count_failures plan.steps "web.get" history
unfolding step_by_id
three_failures = omega arith
