-- ===== src/Workflow/Compensation/Undoing.antt =====
-- The order in which the steps are compensated.
use hermes_kernel_v.Prelude.{
  String, Bool, ◌==◌, List, [], ◌∷◌, ◌++◌, Option, none, some, any, if◌then◌else◌,
}
use hermes_kernel_v.Workflow.Domain.{WorkflowStep}
use hermes_kernel_v.Workflow.Compensation.{truthy}

abbrev pub has_id : String → List WorkflowStep → Bool
has_id id steps = any (λ s. s.id == id) steps

abbrev known : List WorkflowStep → Option String → List String
known steps none = []
known steps (some comp_id) = if has_id comp_id steps then comp_id ∷ [] else []

-- The compensations that these steps declare, where they name a step of the workflow.
abbrev pub declared : List WorkflowStep → List WorkflowStep → List String
declared steps [] = []
declared steps (s ∷ todo) = known steps (truthy s.compensation) ++ declared steps todo
