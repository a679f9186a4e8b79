-- ===== src/Planner/Ordering.antt =====
-- kernel/dynamic_planner.py, `DynamicPlanner._toposort`. A `ValueError` for a cycle is `cycle_at`.
-- The recursion of `visit` goes by fuel, one for each step and one more.
pub mod Walks
pub mod Visiting
pub mod Correct
use hermes_kernel_v.Prelude.{
  ℕ, zero, suc, String, List, [], ◌∷◌, ◌++◌, map, Option, none, some, length, if◌then◌else◌,
}
use hermes_kernel_v.Prelude.Dict
use hermes_kernel_v.Prelude.Dict.{Dict}
use hermes_kernel_v.Prelude.Texts.{has}
use hermes_kernel_v.Planner.Domain.{PlanStep}

-- `visited` and `order`.
pub record Progress : Type 0 where
  pub visited : List String
  pub order : List PlanStep

pub data Sorting : Type 0 where
  done : Progress → Sorting
  cycle_at : String → Sorting
  out_of_fuel : Sorting

-- {s.step_id: s for s in steps}
unfoldable pub index : List PlanStep → Dict PlanStep → Dict PlanStep
index [] d = d
index (s ∷ steps) d = index steps (Dict.put s.step_id s d)

unfoldable pub by_id : List PlanStep → String → Option PlanStep
unfolding index
by_id steps sid = Dict.get sid (index steps [])

abbrev pub step_ids : List PlanStep → List String
step_ids steps = map (λ s. s.step_id) steps

-- The last lines of `visit`.
abbrev pub place : String → PlanStep → Progress → Progress
place sid step p = record { visited = sid ∷ p.visited; order = p.order ++ step ∷ [] }

-- An error ends what it happens in.
abbrev pub chain : Sorting → (Progress → Sorting) → Sorting
chain (done p) k = k p
chain (cycle_at c) k = cycle_at c
chain out_of_fuel k = out_of_fuel

unfoldable pub visit_all : (String → Progress → Sorting) → List String → Progress → Sorting
visit_all visit [] p = done p
visit_all visit (sid ∷ sids) p = chain (visit sid p) (λ q. visit_all visit sids q)

unfoldable pub visit :
    (String → Option PlanStep) → (fuel : ℕ) → List String → String → Progress → Sorting
unfolding visit_all
visit known zero stack sid p = out_of_fuel
visit known (suc fuel) stack sid p =
    if has sid p.visited then done p else if has sid stack then cycle_at sid else elim (known sid) [
      | none ↦ done p
      | some step ↦
          chain (visit_all (λ dep q. visit known fuel (sid ∷ stack) dep q) step.dependencies p)
            (λ q. done (place sid step q))
    ]

abbrev pub nothing_placed : Progress
nothing_placed = record { visited = []; order = [] }

unfoldable pub toposort : List PlanStep → Sorting
unfolding visit by_id
toposort steps =
    visit_all (λ sid p. visit (by_id steps) (suc (length steps)) [] sid p) (step_ids steps)
      nothing_placed
