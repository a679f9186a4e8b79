-- ===== src/Workflow/Approval.antt =====
-- kernel/workflow.py, `WorkflowEngine.approve`: a paused workflow is resumed or turned down.
use hermes_kernel_v.Prelude.{
  ℕ, zero, suc, String, Bool, true, false, not, ◌&&◌, List, [], ◌++◌, Option, none, some, is_some,
  length, if◌then◌else◌,
}
use hermes_kernel_v.Workflow.Domain.{
  WorkflowStatus, running, paused, failed, WorkflowStep, WorkflowInstance, Effect, Engine, Answer,
  approval_required, was_cancelled, Run,
}
use hermes_kernel_v.Workflow.Compensation.{step_by_id, truthy, compensate}
use hermes_kernel_v.Workflow.{execute_step}

abbrev pub is_running : WorkflowStatus → Bool
is_running running = true
is_running _ = false

abbrev pub is_cancelled : Answer → Bool
is_cancelled was_cancelled = true
is_cancelled _ = false

-- Whether the loop of `approve` goes on.
abbrev pub goes_on : Run → Bool
goes_on r = elim r.instance.current_step_id [
  | none ↦ false
  | some id ↦ is_running r.instance.status && not (is_cancelled r.answer)
]

-- The loop of `approve` from a call's result on; a cancellation ends it.
unfoldable pub drive : (fuel : ℕ) → Engine → List WorkflowStep → Run → Option Run
unfolding execute_step
drive zero eng steps r = if goes_on r then none else some r
drive (suc fuel) eng steps r =
    if goes_on r
    then elim (execute_step eng steps r.instance) [
      | none ↦ none
      | some r' ↦ drive fuel eng steps (record r' { effects = r.effects ++ r'.effects })
    ]
    else some r

pub data Approval : Type 0 where
  not_paused : Approval
  resumed : Run → Approval
  turned_down : WorkflowInstance → List Effect → Approval

abbrev pub is_paused : WorkflowStatus → Bool
is_paused paused = true
is_paused _ = false

reject : Engine → List WorkflowStep → WorkflowInstance → String → Option WorkflowStep → Approval
unfolding compensate
reject eng steps inst step_id none = turned_down (record inst { status = failed }) []
reject eng steps inst step_id (some step) =
    if is_some (truthy step.compensation)
    then (let r = compensate eng steps step_id inst in turned_down r.0 r.1)
    else turned_down (record inst { status = failed }) []

-- The start of the loop: no artifact yet.
abbrev pub resume : WorkflowInstance → Run
resume inst = record {
  answer = approval_required;
  instance = record inst { status = running };
  effects = [];
}

-- One round of the loop for each step, and one more.
unfoldable pub approve :
    Engine → List WorkflowStep → WorkflowInstance → String → (approved : Bool) → Option Approval
unfolding drive reject step_by_id
approve eng steps inst step_id approved =
    if not (is_paused inst.status)
    then some not_paused
    else if approved
    then elim (drive (suc (length steps)) eng steps (resume inst)) [
      | none ↦ none
      | some r ↦ some (resumed r)
    ]
    else some (reject eng steps inst step_id (step_by_id step_id steps))
