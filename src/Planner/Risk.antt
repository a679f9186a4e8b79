-- ===== src/Planner/Risk.antt =====
-- kernel/dynamic_planner.py, `DynamicPlanner.risk_assess`.
pub mod Levels
use hermes_kernel_v.Prelude.{
  ℕ, ◌+◌, String, Bool, true, false, ◌||◌, ◌==◌, List, [], ◌∷◌, ◌++◌, Option, none, some, ltb,
  if◌then◌else◌,
}
use hermes_kernel_v.Prelude.Dict
use hermes_kernel_v.Prelude.Dict.{Dict}
use hermes_kernel_v.Prelude.Texts.{has}
use hermes_kernel_v.Planner.Domain.{
  Plan, PlanStep, RiskLevel, low, medium, high, critical, Outcome, success, failure, timeout,
  cancelled, ExecutionOutcome,
}

abbrev pub counts_as_failure : Outcome → Bool
counts_as_failure failure = true
counts_as_failure timeout = true
counts_as_failure success = false
counts_as_failure cancelled = false

unfoldable pub step_by_id : String → List PlanStep → Option PlanStep
step_by_id step_id [] = none
step_by_id step_id (s ∷ steps) = if s.step_id == step_id then some s else step_by_id step_id steps

abbrev pub is_unhealthy : Option String → Bool
is_unhealthy none = false
is_unhealthy (some e) = e == "agent_unhealthy"

abbrev pub note_failure : List PlanStep → ExecutionOutcome → Dict ℕ → Dict ℕ
note_failure steps o d =
    if counts_as_failure o.status
    then elim (step_by_id o.step_id steps) [
      | none ↦ d
      | some s ↦ Dict.put s.capability (Dict.get_or s.capability 0 d + 1) d
    ]
    else d

-- `failures_by_cap`
unfoldable pub failures_by_cap : List PlanStep → List ExecutionOutcome → Dict ℕ → Dict ℕ
failures_by_cap steps [] d = d
failures_by_cap steps (o ∷ os) d = failures_by_cap steps os (note_failure steps o d)

-- `unhealthy_steps`
unfoldable pub unhealthy_steps : List ExecutionOutcome → List String
unhealthy_steps [] = []
unhealthy_steps (o ∷ os) =
    let rest = unhealthy_steps os in if is_unhealthy o.error_type then o.step_id ∷ rest else rest

unfoldable pub assessed : Dict ℕ → List String → PlanStep → RiskLevel
assessed failures unhealthy s =
    if has s.step_id unhealthy
    then critical
    else if ltb 2 (Dict.get_or s.capability 0 failures)
    then high
    else s.risk

abbrev pub same_risk : RiskLevel → RiskLevel → Bool
same_risk low low = true
same_risk medium medium = true
same_risk high high = true
same_risk critical critical = true
same_risk _ _ = false

pub record RiskEscalated : Type 0 where
  pub step_id : String
  pub from_risk : RiskLevel
  pub to_risk : RiskLevel

-- The steps with their new risks, and the events.
assess_steps : Dict ℕ → List String → List PlanStep → List PlanStep × List RiskEscalated
unfolding assessed
assess_steps failures unhealthy [] = ([], [])
assess_steps failures unhealthy (s ∷ steps) =
    let rest = assess_steps failures unhealthy steps in
    let risk = assessed failures unhealthy s in
    (
      record s { risk = risk } ∷ rest.0,
      if same_risk s.risk risk
          then rest.1
          else record { step_id = s.step_id; from_risk = s.risk; to_risk = risk } ∷ rest.1,
    )

unfoldable pub risk_assess : Plan → List ExecutionOutcome → Plan × List RiskEscalated
unfolding assess_steps failures_by_cap unhealthy_steps
risk_assess plan history =
    let r =
      assess_steps (failures_by_cap plan.steps history []) (unhealthy_steps history) plan.steps in
    (record plan { steps = r.0 }, r.1)
