-- ===== src/Health/Queue/Replay.antt =====
-- Replaying the dead letters of a component, where no two entries share an id.
use hermes_kernel_v.Prelude.{
  ℕ, String, ◌≡◌, refl, Bool, true, not, ◌&&◌, List, [], ◌∷◌, map, some, arith, filterb, ◌==◌,
  if◌then◌else◌,
}
use hermes_kernel_v.Health.Queue.{DeadLetterEntry, DeadLetterQueue, recover, is_due}

abbrev pub ids : List DeadLetterEntry → List String
ids [] = []
ids (e ∷ l) = e.entry_id ∷ ids l

abbrev pub fresh : String → List String → Bool
fresh k [] = true
fresh k (j ∷ l) = not (j == k) && fresh k l

abbrev pub unique : List String → Bool
unique [] = true
unique (k ∷ l) = fresh k l && unique l

module _ (component_id : String) (handler : DeadLetterEntry → Bool) (now : ℕ) where
  abbrev pub is_replayed : DeadLetterEntry → Bool
  is_replayed e = is_due component_id e && handler e

  -- An entry after the replay.
  abbrev pub settled : DeadLetterEntry → DeadLetterEntry
  settled e = if is_replayed e then record e { recovered_at = some now } else e

  abbrev after : Bool → DeadLetterEntry → DeadLetterQueue → DeadLetterQueue
  after ok e q = if ok then (recover e.entry_id now q).1 else q

module _ (component_id : String) (handler : DeadLetterEntry → Bool) (first second : ℕ) where
  none_left :
      (l : List DeadLetterEntry)
      → filterb
          (is_replayed component_id handler second)
          (map (settled component_id handler first) l)
        ≡ []
  none_left [] = refl
  none_left (e ∷ l) = ground (arith, none_left l)
