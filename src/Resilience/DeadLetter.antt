-- ===== src/Resilience/DeadLetter.antt =====
-- kernel/resilience.py, the dead-letter queue. A replayed call is its outcome on the original task;
-- nothing else touches the queue while it is awaited.
pub mod Mirror
pub mod Sequences
use hermes_kernel_v.Prelude.{
  ℕ, suc, ◌+◌, String, Bool, true, false, List, [], ◌∷◌, Option, none, some, if◌then◌else◌,
}
use hermes_kernel_v.Prelude.Dict
use hermes_kernel_v.Resilience.Domain.{
  Exc, Outcome, returned, raised, cancelled, DeadLetterStatus, pending, replayed, discarded,
  DeadLetterEntry,
}
use hermes_kernel_v.Resilience.Store.{
  put_dead_letter, get_dead_letter, update_dead_letter_status, with_status,
}
use hermes_kernel_v.Resilience.Store
use hermes_kernel_v.Resilience.Engine.{
  dead_letter_enqueued, ResilienceEngine, emit, metric, with_store,
}

module _ {Task : Type 0} where
  abbrev pub queue : DeadLetterEntry Task → ResilienceEngine Task → ResilienceEngine Task
  queue entry e = record e { dlq = Dict.put entry.entry_id entry e.dlq }

  unfoldable pub enqueue_dead_letter :
      Task
      → String
      → ℕ
      → String
      → ℕ
      → ResilienceEngine Task
      → DeadLetterEntry Task × ResilienceEngine Task
  unfolding emit metric put_dead_letter
  enqueue_dead_letter task error attempts eid now e =
      let entry : DeadLetterEntry Task = record {
        entry_id = eid;
        original_task = task;
        error = error;
        attempts = attempts;
        enqueued_at = now;
        last_attempt = none;
        status = pending;
      } in
      (
        entry,
        metric "res.dead_letter_enqueued" none (
            emit (dead_letter_enqueued eid error attempts)
              (with_store (put_dead_letter entry) (queue entry e))),
      )

  -- `self._dlq.get(entry_id)`, and the store's copy where the queue has none.
  unfoldable pub find_entry : String → ResilienceEngine Task → Option (DeadLetterEntry Task)
  unfolding get_dead_letter
  find_entry entry_id e = elim (Dict.get entry_id e.dlq) [
    | some entry ↦ some entry
    | none ↦ elim e.store [ none ↦ none | some s ↦ get_dead_letter entry_id s ]
  ]

  abbrev pub update_row :
      String → DeadLetterStatus → ℕ → ResilienceEngine Task → ResilienceEngine Task
  update_row entry_id status now =
      with_store (λ s. (update_dead_letter_status entry_id status (some now) s).0)

-- The result of a replay: `KeyError`, the value, the exception, or the cancellation.
pub data Replay {ℓ} (A : Type ℓ) : Type ℓ where
  not_found : Replay A
  value : A → Replay A
  failed : Exc → Replay A
  interrupted : Replay A

module _ {Task : Type 0} where
  -- The entry is the queue's own object, so a cancelled replay leaves its new `last_attempt` there.
  stamp : String → DeadLetterEntry Task → ResilienceEngine Task → ResilienceEngine Task
  stamp entry_id entry e = elim (Dict.get entry_id e.dlq) [
    | some _ ↦ record e { dlq = Dict.put entry_id entry e.dlq }
    | none ↦ e
  ]

module _ {Task : Type 0} {A : Type 0} where
  finish_replay :
      String
      → ℕ
      → DeadLetterEntry Task
      → Outcome A
      → ResilienceEngine Task
      → Replay A × ResilienceEngine Task
  unfolding stamp put_dead_letter update_dead_letter_status
  finish_replay entry_id now entry (returned r) e = (
    value r,
    update_row entry_id replayed now
        (record e { dlq = Dict.put entry_id (record entry { status = replayed }) e.dlq }),
  )
  finish_replay entry_id now entry (raised exc) e =
      let entry' = record entry { attempts = entry.attempts + 1 } in
      (
        failed exc,
        with_store (put_dead_letter entry')
            (update_row entry_id pending now (record e { dlq = Dict.put entry_id entry' e.dlq })),
      )
  finish_replay entry_id now entry cancelled e = (interrupted, stamp entry_id entry e)

  unfoldable pub replay_dead_letter :
      String → (Task → Outcome A) → ℕ → ResilienceEngine Task → Replay A × ResilienceEngine Task
  unfolding finish_replay find_entry
  replay_dead_letter entry_id factory now e = elim (find_entry entry_id e) [
    | none ↦ (not_found, e)
    | some entry ↦
        finish_replay entry_id now (record entry { last_attempt = some now })
          (factory entry.original_task) e
  ]

module _ {Task : Type 0} where
  unfoldable pub discard_dead_letter :
      String → ℕ → ResilienceEngine Task → Bool × ResilienceEngine Task
  unfolding find_entry update_dead_letter_status
  discard_dead_letter entry_id now e = elim (find_entry entry_id e) [
    | none ↦ (false, e)
    | some entry ↦ (
      true,
      update_row entry_id discarded now
          (record e { dlq = Dict.put entry_id (record entry { status = discarded }) e.dlq }),
    )
  ]

  unfoldable pub list_dead_letter :
      Option DeadLetterStatus → ResilienceEngine Task → List (DeadLetterEntry Task)
  unfolding Store.list_dead_letter
  list_dead_letter status e = elim e.store [
    | some s ↦ Store.list_dead_letter status s
    | none ↦ with_status status (Dict.values e.dlq)
  ]
