-- ===== src/Workflow/Compensation.antt =====
-- kernel/workflow.py, `WorkflowEngine.compensate`: the compensation of the steps before a failed one,
-- and of that one.
pub mod Undoing
use hermes_kernel_v.Prelude.{String, ◌==◌, List, [], ◌∷◌, ◌++◌, Option, none, some, if◌then◌else◌}
use hermes_kernel_v.Prelude.Dict
use hermes_kernel_v.Workflow.Domain.{
  failed, compensating, WorkflowStep, WorkflowInstance, Effect, compensating_step, Engine,
}

unfoldable pub step_by_id : String → List WorkflowStep → Option WorkflowStep
step_by_id id [] = none
step_by_id id (s ∷ steps) = if s.id == id then some s else step_by_id id steps

-- The steps before the first one with this id, the last of them first; none where the id is unknown.
unfoldable pub before : String → List WorkflowStep → List WorkflowStep → List WorkflowStep
before id [] done = []
before id (s ∷ steps) done = if s.id == id then done else before id steps (s ∷ done)

-- A text that is there and not empty.
abbrev pub truthy : Option String → Option String
truthy none = none
truthy (some s) = if s == "" then none else some s

unfoldable pub run_compensation :
    Engine
    → List WorkflowStep
    → String
    → Option String
    → WorkflowInstance × List Effect
    → WorkflowInstance × List Effect
unfolding step_by_id
run_compensation eng steps failed_step none (inst, effects) = (inst, effects)
run_compensation eng steps failed_step (some comp_id) (inst, effects) =
    elim (step_by_id comp_id steps) [
      | none ↦ (inst, effects)
      | some comp ↦ (
        if eng.compensates failed_step comp_id
            then record inst { step_results = Dict.put comp_id comp_id inst.step_results }
            else inst,
        effects ++ compensating_step failed_step comp_id ∷ [],
      )
    ]

unfoldable pub run_compensations :
    Engine
    → List WorkflowStep
    → String
    → List WorkflowStep
    → WorkflowInstance × List Effect
    → WorkflowInstance × List Effect
unfolding run_compensation
run_compensations eng steps failed_step [] r = r
run_compensations eng steps failed_step (s ∷ todo) r =
    run_compensations eng steps failed_step todo
      (run_compensation eng steps failed_step (truthy s.compensation) r)

abbrev pub own : Option WorkflowStep → List WorkflowStep
own none = []
own (some s) = s ∷ []

unfoldable pub compensate :
    Engine → List WorkflowStep → String → WorkflowInstance → WorkflowInstance × List Effect
unfolding run_compensations before step_by_id
compensate eng steps failed_step inst =
    let r =
      run_compensations eng steps failed_step
        (before failed_step steps [] ++ own (step_by_id failed_step steps))
        (record inst { status = compensating }, []) in
    (record r.0 { status = failed }, r.1)
