-- ===== src/Planner/Replanning.antt =====
-- kernel/dynamic_planner.py, `_replan_rule_based` and what it calls. The code changes step objects
-- that the old plan shares, where it does not make new ones; here the new steps are returned. Which
-- agent is eligible next, a random draw, is an argument.
pub mod Splitting
use Prim.Native.String.{◌++◌ as concat}
use hermes_kernel_v.Prelude.{
  ℕ, suc, ◌+◌, ◌/◌, String, Bool, true, false, ◌||◌, ◌==◌, List, [], ◌∷◌, ◌++◌, Option, none, some,
  ltb, if◌then◌else◌,
}
use hermes_kernel_v.Planner.Domain.{PlanStep, RiskLevel, low, medium, high, critical}

pub data Reason : Type 0 where
  capability_missing : Reason
  agent_unhealthy risk_escalation step_failed : (step_id : Option String) → Reason
  swarm_rebalance : (from_agent to_agent : Option String) → Reason
  other_reason : Reason

abbrev pub is_text : Option String → String → Bool
is_text none s = false
is_text (some t) s = s == t

abbrev pub is_absent : Option String → Bool
is_absent none = true
is_absent (some a) = false

-- `_bump_risk` by one level.
unfoldable pub bump_risk : RiskLevel → RiskLevel
bump_risk low = medium
bump_risk medium = high
bump_risk high = critical
bump_risk critical = critical

-- max(1, ms // 2)
abbrev pub half_duration : ℕ → ℕ
half_duration ms = if ltb 1 (ms / 2) then ms / 2 else 1

abbrev pub first_half : PlanStep → PlanStep
first_half s = record s {
  step_id = concat s.step_id "-a";
  estimated_duration_ms = half_duration s.estimated_duration_ms;
}

abbrev pub second_half : PlanStep → PlanStep
second_half s = record s {
  step_id = concat s.step_id "-b";
  dependencies = s.dependencies ++ concat s.step_id "-a" ∷ [];
  estimated_duration_ms = half_duration s.estimated_duration_ms;
}

unfoldable pub split_failed : Option String → List PlanStep → List PlanStep
split_failed failed [] = []
split_failed failed (s ∷ steps) =
    let rest = split_failed failed steps in
    if is_text failed s.step_id then first_half s ∷ second_half s ∷ rest else s ∷ rest

unfoldable pub unassign : List PlanStep → List PlanStep
unassign [] = []
unassign (s ∷ steps) = record s { agent_id = none; risk = high } ∷ unassign steps

unfoldable pub reassign : Option String → Option String → List PlanStep → List PlanStep
reassign failed cand [] = []
reassign failed cand (s ∷ steps) =
    let rest = reassign failed cand steps in
    if is_text failed s.step_id || is_absent s.agent_id
    then record s { agent_id = cand } ∷ rest
    else s ∷ rest

unfoldable pub escalate : Option String → List PlanStep → List PlanStep
unfolding bump_risk
escalate failed [] = []
escalate failed (s ∷ steps) =
    let rest = escalate failed steps in
    if is_text failed s.step_id
    then record s { risk = bump_risk s.risk; retry_budget = s.retry_budget + 1 } ∷ rest
    else s ∷ rest

abbrev pub works_for : Option String → String → Bool
works_for none from_agent = false
works_for (some a) from_agent = a == from_agent

unfoldable pub move_agent : String → String → List PlanStep → List PlanStep
move_agent from_agent to_agent [] = []
move_agent from_agent to_agent (s ∷ steps) =
    let rest = move_agent from_agent to_agent steps in
    if works_for s.agent_id from_agent
    then record s { agent_id = some to_agent } ∷ rest
    else s ∷ rest

rebalance : Option String → Option String → List PlanStep → List PlanStep
rebalance none to_agent steps = steps
rebalance (some f) none steps = steps
rebalance (some f) (some t) steps = move_agent f t steps

unfoldable pub replan_rule_based : Reason → Option String → List PlanStep → List PlanStep
unfolding split_failed unassign reassign escalate rebalance
replan_rule_based capability_missing cand steps = unassign steps
replan_rule_based (agent_unhealthy failed) cand steps = reassign failed cand steps
replan_rule_based (step_failed failed) cand steps = split_failed failed steps
replan_rule_based (risk_escalation failed) cand steps = escalate failed steps
replan_rule_based (swarm_rebalance f t) cand steps = rebalance f t steps
replan_rule_based other_reason cand steps = steps
