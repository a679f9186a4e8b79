-- ===== src/Executor.antt =====
-- kernel/executor.py, `Executor`, over the registries. What awaiting a handler ends in is the
-- handler's value; the events that a run publishes are collected in their order.
pub mod Capability
pub mod Trace
use hermes_kernel_v.Prelude.{
  String, Bool, true, false, ◌==◌, List, [], ◌∷◌, ◌++◌, Option, none, some, if◌then◌else◌,
}
use hermes_kernel_v.Prelude.Dict
use hermes_kernel_v.Prelude.Dict.{Dict}
use hermes_kernel_v.Executor.Capability.{
  CapabilityEntity, Tool, CapabilityRegistry, get_by_name, resolve_tools_by_name,
}

pub data TaskStatus : Type 0 where
  pending queued running completed failed : TaskStatus

pub record Task : Type 0 where
  pub id : String
  pub capability : Option String
  pub status : TaskStatus

-- The two keys that a run adds to the context of the caller.
pub record Context (C : Type 0) : Type 0 where
  pub given : C
  pub capability : Option CapabilityEntity
  pub tools : List Tool

-- How awaiting a handler ends; a cancellation is no `Exception`.
pub data Ending (A : Type 0) : Type 0 where
  returned : A → Ending A
  raised : String → Ending A
  cancelled : Ending A

pub data TaskEvent (A : Type 0) : Type 0 where
  task_queued task_started : String → TaskEvent A
  task_completed : String → A → TaskEvent A
  task_failed : String → String → TaskEvent A

-- What a call of `submit` or `run` ends in.
pub data Answer (A : Type 0) : Type 0 where
  result : A → Answer A
  key_error : Answer A
  handler_error : String → Answer A
  was_cancelled : Answer A

pub record Executor (C A : Type 0) : Type 0 where
  pub caps : Option CapabilityRegistry
  pub handlers : Dict (Task → Context C → Ending A)

pub record Run (A : Type 0) : Type 0 where
  pub answer : Answer A
  pub task : Task
  pub events : List (TaskEvent A)

-- `task.capability` where it is true: neither `None` nor empty.
abbrev pub named : Option String → Option String
named none = none
named (some c) = if c == "" then none else some c

-- From the answer of the handler on.
conclude : {A : Type 0} → Task → Ending A → Run A
conclude task (returned a) = record {
  answer = result a;
  task = record task { status = completed };
  events = task_started task.id ∷ task_completed task.id a ∷ [];
}
conclude task (raised text) = record {
  answer = handler_error text;
  task = record task { status = failed };
  events = task_started task.id ∷ task_failed task.id text ∷ [];
}
conclude task cancelled = record {
  answer = was_cancelled;
  task = record task { status = running };
  events = task_started task.id ∷ [];
}

-- The text of the `KeyError`.
abbrev no_default : String
no_default = "KeyError('Task has no capability and no __default__ handler')"

module _ {C A : Type 0} where
  unfoldable pub register_handler :
      String → (Task → Context C → Ending A) → Executor C A → Executor C A
  register_handler capability handler x = record x {
    handlers = Dict.put capability handler x.handlers;
  }

  unfoldable pub resolve_capability : Task → Executor C A → Option CapabilityEntity
  resolve_capability task x = elim (named task.capability) [
    | none ↦ none
    | some c ↦ elim x.caps [ none ↦ none | some caps ↦ get_by_name c caps ]
  ]

  unfoldable pub resolve_tools : Task → Executor C A → List Tool
  resolve_tools task x = elim (named task.capability) [
    | none ↦ []
    | some c ↦ elim x.caps [ none ↦ [] | some caps ↦ resolve_tools_by_name c caps ]
  ]

  -- The handler of a run: the capability's, or the default one.
  abbrev pub handler_for : Option String → Executor C A → Option (Task → Context C → Ending A)
  handler_for none x = Dict.get "__default__" x.handlers
  handler_for (some c) x = Dict.get c x.handlers

  -- The body once the task is running.
  run_started : Task → C → Executor C A → Option (Task → Context C → Ending A) → Run A
  unfolding conclude resolve_capability resolve_tools
  run_started task given x none = record {
    answer = key_error;
    task = record task { status = failed };
    events = task_started task.id ∷ task_failed task.id no_default ∷ [];
  }
  run_started task given x (some handler) =
      let task' = record task { status = running } in
      conclude task (
        handler task' (record {
          given = given;
          capability = resolve_capability task' x;
          tools = resolve_tools task' x;
        }))

  abbrev pub is_missing : Option String → Executor C A → Bool
  is_missing none x = false
  is_missing (some c) x = elim (Dict.get c x.handlers) [ none ↦ true | some _ ↦ false ]

  unfoldable pub run : Task → C → Executor C A → Run A
  unfolding run_started
  run task given x =
      if is_missing (named task.capability) x
      then record { answer = key_error; task = task; events = [] }
      else run_started task given x (handler_for (named task.capability) x)

  unfoldable pub submit : Task → C → Executor C A → Run A
  unfolding run
  submit task given x =
      let r = run (record task { status = queued }) given x in
      record r { events = task_queued task.id ∷ r.events }
