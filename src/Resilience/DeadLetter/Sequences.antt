-- ===== src/Resilience/DeadLetter/Sequences.antt =====
-- Any sequence of dead-letter operations on an engine with a store.
use hermes_kernel_v.Prelude.{ℕ, String, some, arith}
use hermes_kernel_v.Prelude.Dict.{get-empty}
use hermes_kernel_v.Resilience.Domain.{Outcome, DeadLetterEntry}
use hermes_kernel_v.Resilience.Store.{ResilienceStore, empty_store}
use hermes_kernel_v.Resilience.Engine.{Outlets, ResilienceEngine, init}
use hermes_kernel_v.Resilience.DeadLetter.{
  enqueue_dead_letter, replay_dead_letter, discard_dead_letter,
}
use hermes_kernel_v.Resilience.DeadLetter.Mirror.{
  IsMirrored, Mirrored, enqueue-Mirrored, replay-Mirrored, discard-Mirrored,
}

pub data Step {Task : Type 0} : ResilienceEngine Task → ResilienceEngine Task → Type 1 where
  enqueue :
      (task : Task) (error : String) (attempts : ℕ) (eid : String) (now : ℕ)
      (e : ResilienceEngine Task)
      → Step e (enqueue_dead_letter task error attempts eid now e).1
  replay :
      {A : Type 0} (k : String) (factory : Task → Outcome A) (now : ℕ) (e : ResilienceEngine Task)
      → Step e (replay_dead_letter k factory now e).1
  discard :
      (k : String) (now : ℕ) (e : ResilienceEngine Task) → Step e (discard_dead_letter k now e).1

pub data Reach {Task : Type 0} (e : ResilienceEngine Task) : ResilienceEngine Task → Type 1 where
  here : Reach e e
  next : {f g : ResilienceEngine Task} → Reach e f → Step f g → Reach e g

module _ {Task : Type 0} where
  Step-Mirrored : {e f : ResilienceEngine Task} → Step e f → Mirrored e → Mirrored f
  Step-Mirrored (enqueue task error attempts eid now e) m =
      enqueue-Mirrored task error attempts eid now e m
  Step-Mirrored (replay k factory now e) m = replay-Mirrored k factory now e m
  Step-Mirrored (discard k now e) m = discard-Mirrored k now e m

  Reach-Mirrored : {e f : ResilienceEngine Task} → Mirrored e → Reach e f → Mirrored f
  Reach-Mirrored m here = m
  Reach-Mirrored m (next r st) = Step-Mirrored st (Reach-Mirrored m r)

  init-Mirrored : (outlets : Outlets) → Mirrored {Task = Task} (init (some empty_store) outlets)
  init-Mirrored outlets = (
    empty_store,
    record {
      wired = ground arith;
      keyed = λ k a h. grind (arith, get-empty {V = DeadLetterEntry Task} k);
      keyed_rows = λ k a h. grind (arith, get-empty {V = DeadLetterEntry Task} k);
      rows = λ k a h. absurd (grind (arith, get-empty {V = DeadLetterEntry Task} k));
    },
  )

  -- From a new engine with an empty store, after any sequence of enqueued, replayed and discarded
  -- entries, with any outcomes of the replays, the engine still has a store, every entry of the
  -- queue stands under its own id, and the store has a row for it that agrees in the task, the
  -- error, the number of attempts and the status.
  pub queue-mirrors-store :
      (outlets : Outlets) {e : ResilienceEngine Task}
      → Reach (init (some empty_store) outlets) e
      → (s : ResilienceStore Task) × IsMirrored s e
  queue-mirrors-store outlets r = Reach-Mirrored (init-Mirrored outlets) r
