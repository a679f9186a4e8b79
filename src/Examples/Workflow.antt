-- ===== src/Examples/Workflow.antt =====
-- The workflow engine at concrete inputs.
use hermes_kernel_v.Prelude.{
  ℕ, String, ◌≡◌, refl, true, false, [], ◌∷◌, none, some, ltb, if◌then◌else◌,
}
use hermes_kernel_v.Workflow.Domain.{
  Engine, WorkflowStep, WorkflowInstance, RetryPolicy, Ending, paused, running, produced, raised,
}
use hermes_kernel_v.Workflow.{execute_step}
use hermes_kernel_v.Workflow.Approval.{approve}
use hermes_kernel_v.Workflow.Attempts.{IsStepped}
use hermes_kernel_v.Workflow.Compensation.{step_by_id}
use hermes_kernel_v.Workflow.Compensation.Undoing.{declared}
use hermes_kernel_v.Workflow.Driving.{IsResumed, approve-IsResumed, execute_step-IsStepped}

abbrev thrice : RetryPolicy
thrice = record { max_attempts = 3; backoff = 1000000; exponential = true }

abbrev shot : WorkflowStep
shot = record {
  id = "shot";
  capability = "desktop.screenshot";
  retry_policy = thrice;
  compensation = none;
  requires_approval = true;
}

abbrev read : WorkflowStep
read = record {
  id = "read";
  capability = "desktop.ocr";
  retry_policy = thrice;
  compensation = some "shot";
  requires_approval = false;
}

-- Every step fails twice before it produces its artifact.
abbrev third_time : String → ℕ → Ending
third_time step attempt = if ltb attempt 3 then raised "busy" else produced "art"

abbrev engine : Engine
engine = record {
  has_mcp = false;
  has_dlq = true;
  has_resilience = true;
  perform = third_time;
  compensates = λ failed_step comp. true;
}

abbrev waiting : WorkflowInstance
waiting = record {
  status = paused;
  current_step_id = some "shot";
  step_results = [];
  step_attempts = ("shot", 1) ∷ [];
  event_log = [];
}

approve-IsResumed_example : IsResumed (approve engine (shot ∷ read ∷ []) waiting "shot" true)
approve-IsResumed_example = approve-IsResumed engine (shot ∷ read ∷ []) waiting "shot" refl refl

abbrev reading : WorkflowInstance
reading = record waiting { status = running; current_step_id = some "read" }

found_read : step_by_id "read" (shot ∷ read ∷ []) ≡ some read
unfolding step_by_id
found_read = refl

execute_step-IsStepped_example :
    IsStepped (shot ∷ read ∷ []) read (execute_step engine (shot ∷ read ∷ []) reading)
execute_step-IsStepped_example =
    execute_step-IsStepped engine (shot ∷ read ∷ []) reading "read" read refl found_read

-- The second step fails; its own compensation names the first, whose one names the third.
abbrev opened : WorkflowStep
opened = record shot { compensation = some "close" }

abbrev close : WorkflowStep
close = record shot { id = "close"; capability = "desktop.close" }

run_order : declared (opened ∷ read ∷ close ∷ []) (read ∷ opened ∷ []) ≡ "shot" ∷ "close" ∷ []
run_order = refl
