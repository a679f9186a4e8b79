-- ===== src/Health/Queue.antt =====
-- kernel/health.py, `DeadLetterQueue`. The handler of `replay` is its verdict on each entry; the
-- queue is not used by others while it is awaited. Event store and bus show as one journal.
pub mod Replay
use hermes_kernel_v.Prelude.{
  ℕ, zero, suc, ◌+◌, get_elem?, String, Bool, true, false, ◌&&◌, List, [], ◌∷◌, ◌++◌, Option, none,
  some, is_none, length, filterb, take, ◌==◌, if◌then◌else◌,
}

pub record DeadLetterEntry : Type 0 where
  pub entry_id : String
  pub component_id : String
  pub entry_type : String
  pub error : String
  pub retry_count : ℕ
  pub max_retries : ℕ
  pub recovered_at : Option ℕ

pub data QueueEvent : Type 0 where
  dead_letter_appended : String → String → String → ℕ → QueueEvent
  dead_letter_recovered : String → String → QueueEvent

pub record DeadLetterQueue : Type 0 where
  pub entries : List DeadLetterEntry
  pub journal : List QueueEvent

unfoldable pub append : DeadLetterEntry → DeadLetterQueue → DeadLetterQueue
append entry q = record {
  entries = q.entries ++ entry ∷ [];
  journal =
      q.journal
      ++ dead_letter_appended entry.entry_id entry.component_id entry.entry_type entry.retry_count
        ∷ [];
}

abbrev pub of_component : String → DeadLetterEntry → Bool
of_component component_id e = e.component_id == component_id

-- `component_id=None` lists every entry.
unfoldable pub list : Option String → ℕ → DeadLetterQueue → List DeadLetterEntry
list none limit q = take limit q.entries
list (some component_id) limit q = take limit (filterb (of_component component_id) q.entries)

unfoldable pub get : String → List DeadLetterEntry → Option DeadLetterEntry
get entry_id [] = none
get entry_id (e ∷ entries) = if e.entry_id == entry_id then some e else get entry_id entries

-- `entry.recovered_at = _now()` on the first entry with the id, which is the one `get` finds.
mark : String → ℕ → List DeadLetterEntry → List DeadLetterEntry
mark entry_id now [] = []
mark entry_id now (e ∷ entries) =
    if e.entry_id == entry_id
    then record e { recovered_at = some now } ∷ entries
    else e ∷ mark entry_id now entries

unfoldable pub recover : String → ℕ → DeadLetterQueue → Option DeadLetterEntry × DeadLetterQueue
unfolding mark
recover entry_id now q = elim (get entry_id q.entries) [
  | none ↦ (none, q)
  | some e ↦ (
    some (record e { recovered_at = some now }),
    record {
      entries = mark entry_id now q.entries;
      journal = q.journal ++ dead_letter_recovered e.entry_id e.component_id ∷ [];
    },
  )
]

-- Whether `replay` hands the entry to the handler.
abbrev pub is_due : String → DeadLetterEntry → Bool
is_due component_id e = of_component component_id e && is_none e.recovered_at

-- The loop over `list(self._entries)`: the copy holds the queue's own objects, which `recover` may
-- have marked by the time they are reached, so entry `place` is read when its turn comes.
replay_from :
    String
    → (DeadLetterEntry → Bool)
    → ℕ
    → (rounds place recovered : ℕ) → DeadLetterQueue
    → ℕ × DeadLetterQueue
unfolding get recover
replay_from component_id handler now zero place recovered q = (recovered, q)
replay_from component_id handler now (suc rounds) place recovered q =
    elim (get_elem? q.entries place) [
      | none ↦ (recovered, q)
      | some e ↦
          let ok = is_due component_id e && handler e in
          replay_from component_id handler now rounds (place + 1)
            (if ok then recovered + 1 else recovered)
            (if ok then (recover e.entry_id now q).1 else q)
    ]

unfoldable pub replay :
    String → (DeadLetterEntry → Bool) → ℕ → DeadLetterQueue → ℕ × DeadLetterQueue
unfolding replay_from
replay component_id handler now q = replay_from component_id handler now (length q.entries) 0 0 q

unfoldable pub count : Option String → DeadLetterQueue → ℕ
count none q = length q.entries
count (some component_id) q = length (filterb (of_component component_id) q.entries)
