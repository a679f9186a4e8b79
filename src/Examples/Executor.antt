-- ===== src/Examples/Executor.antt =====
-- The executor and the capability registry at concrete inputs.
use hermes_kernel_v.Prelude.{ℕ, ◌≡◌, refl, [], ◌∷◌, none, some}
use hermes_kernel_v.Prelude.Dict
use hermes_kernel_v.Executor.{
  pending, Task, Context, Ending, returned, Executor, submit, is_missing, named,
}
use hermes_kernel_v.Executor.Trace.{IsTraced, submit-IsTraced}
use hermes_kernel_v.Executor.Capability.{CapabilityEntity, CapabilityRegistry}

abbrev seven : Task → Context ℕ → Ending ℕ
seven task ctx = returned 7

abbrev worker : Executor ℕ ℕ
worker = record { caps = none; handlers = ("search", seven) ∷ [] }

abbrev lookup : Task
lookup = record { id = "t1"; capability = some "search"; status = pending }

submit-IsTraced_example :
    let r = submit lookup 3 worker in
    IsTraced lookup.id (is_missing (named lookup.capability) worker) r.answer r.task.status r.events
submit-IsTraced_example = submit-IsTraced lookup 3 worker

abbrev search : CapabilityEntity
search = record { id = "c1"; name = "search"; tools = [] }

abbrev browse : CapabilityEntity
browse = record { id = "c2"; name = "browse"; tools = [] }

abbrev searching : CapabilityRegistry
searching = record { tool_named = λ name. none; caps = ("c1", search) ∷ [] }

browse_new : Dict.get "c2" searching.caps ≡ none
unfolding Dict.get
browse_new = refl
