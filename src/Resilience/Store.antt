-- ===== src/Resilience/Store.antt =====
-- kernel/resilience_store.py without a database: the tables that a `ResilienceStore` keeps in
-- memory. The SQLite branches, JSON and ISO timestamps are not modelled.
use hermes_kernel_v.Prelude.{
  ℕ, String, Bool, true, false, List, [], ◌∷◌, ◌++◌, Option, none, some, filterb,
}
use hermes_kernel_v.Prelude.Dict
use hermes_kernel_v.Prelude.Dict.{Dict}
use hermes_kernel_v.Resilience.Domain.{
  CircuitState, CircuitConfig, DeadLetterStatus, pending, replayed, discarded, DeadLetterEntry,
}

pub record CircuitRow : Type 0 where
  pub name : String
  pub state : CircuitState
  pub failure_count : ℕ
  pub last_failure : Option ℕ
  pub config : CircuitConfig

pub record RetryRow : Type 0 where
  pub task_id : String
  pub attempt : ℕ
  pub backoff_ms : ℕ
  pub error : String
  pub timestamp : ℕ

pub record ResilienceStore (Task : Type 0) : Type 0 where
  pub circuits : Dict CircuitRow
  pub retries : List RetryRow
  pub dead_letter : Dict (DeadLetterEntry Task)

module _ {Task : Type 0} where
  abbrev pub empty_store : ResilienceStore Task
  empty_store = record { circuits = []; retries = []; dead_letter = [] }

  unfoldable pub put_circuit : CircuitRow → ResilienceStore Task → ResilienceStore Task
  put_circuit row s = record s { circuits = Dict.put row.name row s.circuits }

  unfoldable pub put_retry : RetryRow → ResilienceStore Task → ResilienceStore Task
  put_retry row s = record s { retries = s.retries ++ row ∷ [] }

  unfoldable pub put_dead_letter :
      DeadLetterEntry Task → ResilienceStore Task → ResilienceStore Task
  put_dead_letter entry s = record s { dead_letter = Dict.put entry.entry_id entry s.dead_letter }

  unfoldable pub get_dead_letter : String → ResilienceStore Task → Option (DeadLetterEntry Task)
  get_dead_letter entry_id s = Dict.get entry_id s.dead_letter

-- `e.status == status`
abbrev pub status_eq : DeadLetterStatus → DeadLetterStatus → Bool
status_eq pending pending = true
status_eq replayed replayed = true
status_eq discarded discarded = true
status_eq _ _ = false

abbrev pub has_status : {Task : Type 0} → DeadLetterStatus → DeadLetterEntry Task → Bool
has_status status e = status_eq e.status status

-- A filter that `None` switches off.
abbrev pub with_status :
    {Task : Type 0}
    → Option DeadLetterStatus
    → List (DeadLetterEntry Task)
    → List (DeadLetterEntry Task)
with_status none entries = entries
with_status (some status) entries = filterb (has_status status) entries

-- COALESCE(?, last_attempt)
abbrev pub coalesce : Option ℕ → Option ℕ → Option ℕ
coalesce none old = old
coalesce (some t) old = some t

module _ {Task : Type 0} where
  unfoldable pub list_dead_letter :
      Option DeadLetterStatus → ResilienceStore Task → List (DeadLetterEntry Task)
  list_dead_letter status s = with_status status (Dict.values s.dead_letter)

  unfoldable pub update_dead_letter_status :
      String → DeadLetterStatus → Option ℕ → ResilienceStore Task → ResilienceStore Task × Bool
  update_dead_letter_status entry_id status last_attempt s =
      elim (Dict.get entry_id s.dead_letter) [
        | none ↦ (s, false)
        | some entry ↦ (
          record s {
            dead_letter =
                Dict.put entry_id
                  (record entry {
                    status = status;
                    last_attempt = coalesce last_attempt entry.last_attempt;
                  })
                  s.dead_letter;
          },
          true,
        )
      ]
