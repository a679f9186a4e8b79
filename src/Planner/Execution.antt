-- ===== src/Planner/Execution.antt =====
-- kernel/dynamic_planner.py, `DynamicPlanner`: a plan is executed step by step, a step that fails is
-- retried, and when its retries are used up the plan is adapted and run again. What the n-th call of
-- the executor ends in and the ids that are drawn are parameters; so are the model's answer, if a
-- model is wired, and the agent that is eligible next. The plan store is not modelled, nor are the
-- steps' durations. A `ValueError` for a cycle of the adapted plan is `stopped`.
pub mod Retrying
use hermes_kernel_v.Prelude.{
  ℕ, zero, suc, ◌+◌, ◌^◌, String, Bool, true, false, ◌&&◌, ◌||◌, ◌==◌, List, [], ◌∷◌, ◌++◌, Option,
  none, some, any, all, leb, length, if◌then◌else◌,
}
use hermes_kernel_v.Prelude.Dict
use hermes_kernel_v.Prelude.Dict.{Dict}
use hermes_kernel_v.Planner.Domain.{
  Plan, PlanStep, PlanStatus, draft, active, completed, adapted, RiskLevel, Outcome, success,
  failure, timeout, cancelled, ExecutionOutcome,
}
use hermes_kernel_v.Planner.Ordering.{toposort, Sorting, done, cycle_at, out_of_fuel}
use hermes_kernel_v.Planner.Replanning.{Reason, step_failed, replan_rule_based}

pub data Effect : Type 0 where
  plan_created : String → String → ℕ → ℕ → Effect
  step_planned : String → String → String → Option String → RiskLevel → Effect
  step_executed : String → String → Outcome → (retry : ℕ) → Effect
  slept : ℕ → Effect
  replan_triggered : String → String → Reason → Effect
  plan_adapted : String → (old_version new_version : ℕ) → Effect

pub record Trigger : Type 0 where
  pub trigger_id : String
  pub plan_id : String
  pub reason : Reason

pub record Planner : Type 0 where
  pub plans : Dict Plan
  pub outcomes : Dict ExecutionOutcome
  pub replans : Dict Trigger
  pub effects : List Effect
  pub calls : ℕ
  pub drawn : ℕ

-- What the planner is wired to.
pub record World : Type 0 where
  pub perform : ℕ → PlanStep → ExecutionOutcome
  pub new_id : ℕ → String
  pub answer : Option (Plan → Trigger → Option (List PlanStep))
  pub eligible : Plan → Option String

abbrev pub emit : Effect → Planner → Planner
emit e p = record p { effects = p.effects ++ e ∷ [] }

planned : String → List PlanStep → List Effect
planned plan_id [] = []
planned plan_id (s ∷ steps) =
    step_planned plan_id s.step_id s.capability s.agent_id s.risk ∷ planned plan_id steps

unfoldable pub create_plan : World → String → List PlanStep → Planner → Plan × Planner
unfolding planned
create_plan w workflow_id steps p =
    let plan_id = w.new_id p.drawn in
    let plan : Plan = record {
      plan_id = plan_id;
      workflow_id = workflow_id;
      status = draft;
      steps = steps;
      version = 1;
    } in
    (
      plan,
      record p {
        plans = Dict.put plan_id plan p.plans;
        drawn = p.drawn + 1;
        effects =
            p.effects
            ++ (plan_created plan_id workflow_id (length steps) 1 ∷ planned plan_id steps);
      },
    )

unfoldable pub get_plan : String → Planner → Option Plan
get_plan plan_id p = Dict.get plan_id p.plans

abbrev pub is_success : Outcome → Bool
is_success success = true
is_success _ = false

-- `_record_outcome`
unfoldable pub record_outcome : ExecutionOutcome → Planner → Planner
record_outcome o p = record p { outcomes = Dict.put o.outcome_id o p.outcomes }

-- The executor is called once more.
unfoldable pub call_executor : World → PlanStep → ℕ → Planner → ExecutionOutcome × Planner
unfolding record_outcome
call_executor w step retry p =
    let o = record (w.perform p.calls step) { retry_count = retry } in
    (o, record_outcome o (record p { calls = suc p.calls }))

unfoldable pub already_succeeded : Plan → PlanStep → Planner → Bool
already_succeeded plan step p =
    any
      (λ (o : ExecutionOutcome).
        (o.plan_id == plan.plan_id) && (o.step_id == step.step_id) && is_success o.status)
      (Dict.values p.outcomes)

later : String → Option ExecutionOutcome → List ExecutionOutcome → Option ExecutionOutcome
later step_id last [] = last
later step_id last (o ∷ os) =
    later step_id
      (if o.step_id == step_id
        then elim last [
          | none ↦ some o
          | some l ↦ if leb l.retry_count o.retry_count then some o else some l
        ]
        else last)
      os

unfoldable pub last_outcome : String → Planner → Option ExecutionOutcome
unfolding later
last_outcome step_id p = later step_id none (Dict.values p.outcomes)

-- The model's steps, where it gives any; else the rules'.
unfoldable pub new_steps : World → Plan → Trigger → List PlanStep
unfolding replan_rule_based
new_steps w plan t =
    let by_rules = replan_rule_based t.reason (w.eligible plan) plan.steps in
    elim w.answer [
      | none ↦ by_rules
      | some ask ↦ elim (ask plan t) [
        | none ↦ by_rules
        | some steps ↦ elim steps [ [] ↦ by_rules | s ∷ rest ↦ s ∷ rest ]
      ]
    ]

unfoldable pub replan : World → Plan → Trigger → Planner → Plan × Planner
unfolding new_steps
replan w plan t p =
    let plan' : Plan = record {
      plan_id = w.new_id p.drawn;
      workflow_id = plan.workflow_id;
      status = adapted;
      steps = new_steps w plan t;
      version = plan.version + 1;
    } in
    (
      plan',
      emit (plan_adapted plan'.plan_id plan.version plan'.version)
          (record p { plans = Dict.put plan'.plan_id plan' p.plans; drawn = p.drawn + 1 }),
    )

-- The adapted plan's steps, each run once; a failure is left as it is.
unfoldable pub run_adapted : World → Plan → List PlanStep → Planner → Planner
unfolding already_succeeded call_executor
run_adapted w plan [] p = p
run_adapted w plan (s ∷ steps) p =
    let r = call_executor w s 0 p in
    run_adapted w plan steps (
      if already_succeeded plan s p
      then p
      else emit (step_executed plan.plan_id s.step_id r.0.status 0) r.1)

-- `none` stands for the `ValueError` of a cycle in the adapted plan.
unfoldable pub adapt : World → Plan → PlanStep → ExecutionOutcome → Planner → Option Planner
unfolding replan run_adapted toposort
adapt w plan step outcome p =
    let t : Trigger = record {
      trigger_id = w.new_id p.drawn;
      plan_id = plan.plan_id;
      reason = step_failed (some step.step_id);
    } in
    let noted =
      emit (replan_triggered t.trigger_id plan.plan_id t.reason)
        (record p { replans = Dict.put t.trigger_id t p.replans; drawn = p.drawn + 1 }) in
    let r = replan w plan t noted in
    elim (toposort r.0.steps) [
      | done q ↦ some (run_adapted w r.0 q.order r.1)
      | cycle_at c ↦ none
      | out_of_fuel ↦ none
    ]

-- `_execute_step_with_retry`: the loop, from its `budget` and `retry` on.
unfoldable pub attempt :
    World → Plan → PlanStep → (budget : ℕ) → (retry : ℕ) → Planner → Option Planner
unfolding call_executor adapt
attempt w plan step zero retry p =
    let r = call_executor w step retry p in
    if is_success r.0.status
    then some (emit (step_executed plan.plan_id step.step_id success retry) r.1)
    else adapt w plan step r.0 r.1
attempt w plan step (suc budget) retry p =
    let r = call_executor w step retry p in
    let again = attempt w plan step budget (suc retry) (record r.1 {
      effects =
          r.1.effects
          ++ (step_executed plan.plan_id step.step_id r.0.status (suc retry)
              ∷ slept (2 ^ retry)
              ∷ []);
    }) in
    if is_success r.0.status
    then some (emit (step_executed plan.plan_id step.step_id success retry) r.1)
    else again

unfoldable pub execute_step_with_retry : World → Plan → PlanStep → Planner → Option Planner
unfolding attempt
execute_step_with_retry w plan step p = attempt w plan step step.retry_budget 0 p

run_steps : World → Plan → List PlanStep → Planner → Option Planner
unfolding execute_step_with_retry
run_steps w plan [] p = some p
run_steps w plan (s ∷ steps) p = elim (execute_step_with_retry w plan s p) [
  | none ↦ none
  | some q ↦ run_steps w plan steps q
]

-- Whether every step's last outcome is a success; none where a step has no outcome, which raises.
all_ended_well : Planner → List PlanStep → Option Bool
unfolding last_outcome
all_ended_well p [] = some true
all_ended_well p (s ∷ steps) =
    let rest = all_ended_well p steps in
    elim (last_outcome s.step_id p) [
      | none ↦ none
      | some o ↦ if is_success o.status then rest else some false
    ]

-- The status of the plan object in the end.
abbrev pub settled : Plan → Bool → Plan
settled plan true = record plan { status = completed }
settled plan false = record plan { status = adapted }

pub data Executed : Type 0 where
  no_such_plan : Executed
  finished : Plan → Planner → Executed
  stopped : Executed

unfoldable pub execute_plan : World → String → Planner → Executed
unfolding run_steps toposort get_plan all_ended_well
execute_plan w plan_id p = elim (get_plan plan_id p) [
  | none ↦ no_such_plan
  | some plan ↦
      let plan' = record plan { status = active } in
      elim (toposort plan'.steps) [
        | cycle_at c ↦ stopped
        | out_of_fuel ↦ stopped
        | done q ↦
            elim (run_steps w plan' q.order (record p { plans = Dict.put plan_id plan' p.plans })) [
              | none ↦ stopped
              | some p' ↦ elim (all_ended_well p' plan'.steps) [
                | none ↦ stopped
                | some well ↦
                    finished (settled plan' well)
                      (record p' { plans = Dict.put plan_id (settled plan' well) p'.plans })
              ]
            ]
      ]
]
