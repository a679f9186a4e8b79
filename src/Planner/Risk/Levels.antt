-- ===== src/Planner/Risk/Levels.antt =====
-- What a risk assessment rates a step as.
use hermes_kernel_v.Prelude.{
  ℕ, suc, String, Bool, false, ◌==◌, ◌&&◌, List, [], ◌∷◌, none, some, ltb, any, if◌then◌else◌,
}
use hermes_kernel_v.Prelude.Dict
use hermes_kernel_v.Prelude.Dict.{Dict}
use hermes_kernel_v.Planner.Domain.{Plan, PlanStep, high, critical, ExecutionOutcome}
use hermes_kernel_v.Planner.Risk.{
  counts_as_failure, step_by_id, is_unhealthy, failures_by_cap, unhealthy_steps,
}

-- The outcome is a failure or a timeout of a step with this capability.
abbrev pub fails_at : List PlanStep → String → ExecutionOutcome → Bool
fails_at steps cap o =
    counts_as_failure o.status
    && elim (step_by_id o.step_id steps) [ none ↦ false | some s ↦ s.capability == cap ]

abbrev pub count_failures : List PlanStep → String → List ExecutionOutcome → ℕ
count_failures steps cap [] = 0
count_failures steps cap (o ∷ os) =
    let rest = count_failures steps cap os in if fails_at steps cap o then suc rest else rest

abbrev pub reports : String → ExecutionOutcome → Bool
reports step_id o = is_unhealthy o.error_type && (o.step_id == step_id)

abbrev pub rated : Plan → List ExecutionOutcome → PlanStep → PlanStep
rated plan history s = record s {
  risk =
      if any (reports s.step_id) history
      then critical
      else if ltb 2 (count_failures plan.steps s.capability history)
      then high
      else s.risk;
}

module _ (plan : Plan) (history : List ExecutionOutcome) where
  abbrev failures : Dict ℕ
  failures = failures_by_cap plan.steps history []

  abbrev unhealthy : List String
  unhealthy = unhealthy_steps history
