-- ===== src/Executor/Trace.antt =====
-- The events and the status that a submitted task ends with.
use hermes_kernel_v.Prelude.{
  String, inl, inr, Bool, true, false, List, [], ◌∷◌, Option, none, some, Bool-cases,
}
use hermes_kernel_v.Executor.{
  TaskStatus, queued, running, completed, failed, Task, Context, Ending, returned, raised,
  cancelled, TaskEvent, task_queued, task_started, task_completed, task_failed, Answer, result,
  key_error, handler_error, was_cancelled, Executor, named, handler_for, is_missing, run,
  run_started, conclude, submit,
}

-- What is seen of a submitted task, for each way in which the call can end; whether its capability
-- has no handler comes first.
pub data IsTraced {A : Type 0} (id : String)
    : Bool → Answer A → TaskStatus → List (TaskEvent A) → Type 0 where
  done :
      (a : A)
      → IsTraced id false
          (result a)
          completed
          (task_queued id ∷ task_started id ∷ task_completed id a ∷ [])
  broken :
      (text : String)
      → IsTraced id false
          (handler_error text)
          failed
          (task_queued id ∷ task_started id ∷ task_failed id text ∷ [])
  without_default :
      (text : String)
      → IsTraced id false key_error failed
          (task_queued id ∷ task_started id ∷ task_failed id text ∷ [])
  without_handler : IsTraced id true key_error queued (task_queued id ∷ [])
  interrupted : IsTraced id false was_cancelled running (task_queued id ∷ task_started id ∷ [])

conclude-IsTraced :
    {A : Type 0} (task : Task) (ending : Ending A)
    → let r = conclude task ending in
      IsTraced task.id false r.answer r.task.status (task_queued task.id ∷ r.events)
unfolding conclude
conclude-IsTraced task (returned a) = done a
conclude-IsTraced task (raised text) = broken text
conclude-IsTraced task cancelled = interrupted

module _ {C A : Type 0} where
  run_started-IsTraced :
      (task : Task) (given : C) (x : Executor C A) (handler : Option (Task → Context C → Ending A))
      → let r = run_started task given x handler in
        IsTraced task.id false r.answer r.task.status (task_queued task.id ∷ r.events)
  unfolding run_started
  run_started-IsTraced task given x none = without_default _
  run_started-IsTraced task given x (some handler) = conclude-IsTraced task _

  -- A submitted task's events are its queueing and then, unless its capability has no handler, its
  -- start and, unless it is cancelled, one end, which fits the answer and the status that is left.
  -- A task whose capability has no handler stays queued, and no event tells of its end.
  pub submit-IsTraced :
      (task : Task) (given : C) (x : Executor C A)
      → let r = submit task given x in
        IsTraced task.id (is_missing (named task.capability) x) r.answer r.task.status r.events
  unfolding submit run
  submit-IsTraced task given x = elim (Bool-cases (is_missing (named task.capability) x)) [
    | inl missing ↦ rw (missing, submit, run) without_handler
    | inr there ↦
        rw (there, submit, run)
          (run_started-IsTraced (record task { status = queued }) given x
            (handler_for (named task.capability) x))
  ]
