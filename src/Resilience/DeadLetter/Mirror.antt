-- ===== src/Resilience/DeadLetter/Mirror.antt =====
-- The queue in memory and the store's table tell the same story of every entry.
use hermes_kernel_v.Prelude.{
  subst, Bool-cases, ℕ, ◌+◌, String, ◌≡◌, refl, inl, inr, Option, none, some, arith, ◌==◌, eq_iff,
  Option-cases, if◌then◌else◌,
}
use hermes_kernel_v.Prelude.Dict
use hermes_kernel_v.Prelude.Dict.{get-put, dict_laws}
use hermes_kernel_v.Resilience.Domain.{
  Exc, Outcome, returned, raised, cancelled, DeadLetterStatus, pending, replayed, discarded,
  DeadLetterEntry,
}
use hermes_kernel_v.Resilience.Store.{ResilienceStore, put_dead_letter, update_dead_letter_status}
use hermes_kernel_v.Resilience.Engine.{ResilienceEngine}
use hermes_kernel_v.Resilience.DeadLetter.{
  enqueue_dead_letter, find_entry, replay_dead_letter, finish_replay, stamp, discard_dead_letter,
  update_row,
}

module _ {Task : Type 0} where
  -- Two versions of an entry, equal but for `last_attempt`.
  pub record SameEntry (a b : DeadLetterEntry Task) : Type 0 where
    pub same_id : a.entry_id ≡ b.entry_id
    pub same_task : a.original_task ≡ b.original_task
    pub same_error : a.error ≡ b.error
    pub same_attempts : a.attempts ≡ b.attempts
    pub same_status : a.status ≡ b.status

  abbrev pub HasRow : DeadLetterEntry Task → Option (DeadLetterEntry Task) → Type 0
  HasRow entry none = ⊥
  HasRow entry (some row) = SameEntry entry row

  -- Every entry of the queue is keyed by its id and has its row in the store.
  pub record IsMirrored (s : ResilienceStore Task) (e : ResilienceEngine Task) : Type 0 where
    pub wired : e.store ≡ some s
    pub keyed : (k : String) (a : DeadLetterEntry Task) → Dict.get k e.dlq ≡ some a → k ≡ a.entry_id
    pub keyed_rows :
        (k : String) (a : DeadLetterEntry Task) → Dict.get k s.dead_letter ≡ some a → k ≡ a.entry_id
    pub rows :
        (k : String) (a : DeadLetterEntry Task)
        → Dict.get k e.dlq ≡ some a
        → HasRow a (Dict.get k s.dead_letter)

  SameEntry-refl : (a : DeadLetterEntry Task) → SameEntry a a
  SameEntry-refl a = record {
    same_id = refl;
    same_task = refl;
    same_error = refl;
    same_attempts = refl;
    same_status = refl;
  }

  -- The engine `e'` is `e` with entry `a` and row `b` written under `k`.
  record IsWrite (k : String) (a b : DeadLetterEntry Task) (s s' : ResilienceStore Task)
      (e e' : ResilienceEngine Task) : Type 0 where
    wired' : e'.store ≡ some s'
    in_queue : (j : String) → Dict.get j e'.dlq ≡ (if k == j then some a else Dict.get j e.dlq)
    in_store :
        (j : String)
        → Dict.get j s'.dead_letter ≡ (if k == j then some b else Dict.get j s.dead_letter)
    key_a : k ≡ a.entry_id
    key_b : k ≡ b.entry_id
    same : SameEntry a b

  module _ {k : String} {a b : DeadLetterEntry Task} {s s' : ResilienceStore Task}
      {e e' : ResilienceEngine Task} where
    IsWrite-rows :
        IsMirrored s e
        → IsWrite k a b s s' e e'
        → (j : String) (x : DeadLetterEntry Task) → Dict.get j e'.dlq ≡ some x
        → HasRow x (Dict.get j s'.dead_letter)
    IsWrite-rows m w j x h = elim (Bool-cases (k == j)) [
      | inl here ↦
          let q : a ≡ x = ground (arith, w.in_queue j, here) in
          rw (w.in_store j, here) (subst (λ y. SameEntry y b) q w.same)
      | inr other ↦
          let q : Dict.get j e.dlq ≡ some x = ground (arith, w.in_queue j, other) in
          rw (w.in_store j, other) (m.rows j x q)
    ]

    IsWrite-IsMirrored : IsMirrored s e → IsWrite k a b s s' e e' → IsMirrored s' e'
    IsWrite-IsMirrored m w = record {
      wired = w.wired';
      keyed = λ j x h. ground (arith, w.in_queue j, eq_iff k j, m.keyed j x, w.key_a);
      keyed_rows = λ j x h. ground (arith, w.in_store j, eq_iff k j, m.keyed_rows j x, w.key_b);
      rows = IsWrite-rows m w;
    }

  -- What `find_entry` yields has its row.
  record HasTwin (k : String) (a : DeadLetterEntry Task) (s : ResilienceStore Task) : Type 0 where
    row : DeadLetterEntry Task
    stored : Dict.get k s.dead_letter ≡ some row
    key_entry : k ≡ a.entry_id
    key_row : k ≡ row.entry_id
    twins : SameEntry a row

  HasRow-row :
      (a : DeadLetterEntry Task) (o : Option (DeadLetterEntry Task))
      → HasRow a o
      → (row : DeadLetterEntry Task) × (o ≡ some row) × SameEntry a row
  HasRow-row a none h = absurd h
  HasRow-row a (some row) h = (row, refl, h)

  queued-HasTwin :
      (k : String) (a : DeadLetterEntry Task) {s : ResilienceStore Task} {e : ResilienceEngine Task}
      → IsMirrored s e
      → Dict.get k e.dlq ≡ some a
      → HasTwin k a s
  queued-HasTwin k a {s} m h =
      let (row, found, same) = HasRow-row a (Dict.get k s.dead_letter) (m.rows k a h) in
      record {
        row = row;
        stored = found;
        key_entry = m.keyed k a h;
        key_row = m.keyed_rows k row found;
        twins = same;
      }

  stored-HasTwin :
      (k : String) (a : DeadLetterEntry Task) {s : ResilienceStore Task} {e : ResilienceEngine Task}
      → IsMirrored s e
      → Dict.get k s.dead_letter ≡ some a
      → HasTwin k a s
  stored-HasTwin k a m h = record {
    row = a;
    stored = h;
    key_entry = m.keyed_rows k a h;
    key_row = m.keyed_rows k a h;
    twins = SameEntry-refl a;
  }

  find_entry-HasTwin :
      (k : String) (a : DeadLetterEntry Task) {s : ResilienceStore Task} {e : ResilienceEngine Task}
      → IsMirrored s e
      → find_entry k e ≡ some a
      → HasTwin k a s
  unfolding find_entry
  find_entry-HasTwin k a {e = e} m h = elim (Option-cases (Dict.get k e.dlq)) [
    | inr (b, queued) ↦ queued-HasTwin k a m (ground (arith, queued))
    | inl absent ↦ stored-HasTwin k a m (ground (arith, absent, m.wired))
  ]

  -- The engine has a store, and the queue mirrors it.
  abbrev pub Mirrored : ResilienceEngine Task → Type 0
  Mirrored e = (s : ResilienceStore Task) × IsMirrored s e

  pub enqueue-Mirrored :
      (task : Task) (error : String) (attempts : ℕ) (eid : String) (now : ℕ)
      (e : ResilienceEngine Task)
      → Mirrored e
      → Mirrored (enqueue_dead_letter task error attempts eid now e).1
  unfolding enqueue_dead_letter
  enqueue-Mirrored task error attempts eid now e (s, m) =
      let entry = (enqueue_dead_letter task error attempts eid now e).0 in
      (
        put_dead_letter entry s,
        IsWrite-IsMirrored {k = eid} {a = entry} {b = entry} m (record {
          wired' = ground (arith, m.wired);
          in_queue = λ j. get-put eid j entry e.dlq;
          in_store = λ j. get-put eid j entry s.dead_letter;
          key_a = refl;
          key_b = refl;
          same = SameEntry-refl entry;
        }),
      )

  module _ (k : String) (now : ℕ) (status : DeadLetterStatus) where
    updated_row : DeadLetterEntry Task → DeadLetterEntry Task
    updated_row row = record row { status = status; last_attempt = some now }

    get-update :
        (j : String) (row : DeadLetterEntry Task) (s : ResilienceStore Task)
        → Dict.get k s.dead_letter ≡ some row
        → Dict.get j (update_dead_letter_status k status (some now) s).0.dead_letter
          ≡ (if k == j then some (updated_row row) else Dict.get j s.dead_letter)
    unfolding update_dead_letter_status updated_row
    get-update j row s h = rw (h, update_dead_letter_status) (get-put k j _ s.dead_letter)

    -- The queue gets the entry with its new status, and the row is updated alike.
    update-Mirrored :
        (a : DeadLetterEntry Task) (last : Option ℕ) (s : ResilienceStore Task)
        (e : ResilienceEngine Task)
        → IsMirrored s e
        → HasTwin k a s
        → Mirrored (
            update_row k status now (record e {
              dlq = Dict.put k (record a { status = status; last_attempt = last }) e.dlq;
            }))
    unfolding updated_row
    update-Mirrored a last s e m twin =
        let a' : DeadLetterEntry Task = record a { status = status; last_attempt = last } in
        (
          (update_dead_letter_status k status (some now) s).0,
          IsWrite-IsMirrored {k = k} {a = a'} {b = updated_row twin.row} m (record {
            wired' = ground (arith, m.wired);
            in_queue = λ j. get-put k j a' e.dlq;
            in_store = λ j. get-update j twin.row s twin.stored;
            key_a = twin.key_entry;
            key_b = twin.key_row;
            same = record {
              same_id = twin.twins.same_id;
              same_task = twin.twins.same_task;
              same_error = twin.twins.same_error;
              same_attempts = twin.twins.same_attempts;
              same_status = refl;
            };
          }),
        )

  -- A failed replay writes the row twice: first its status, then the whole entry.
  get-put-update :
      (k j : String) (now : ℕ) (status : DeadLetterStatus) (b row : DeadLetterEntry Task)
      (s : ResilienceStore Task)
      → Dict.get k s.dead_letter ≡ some row
      → k ≡ b.entry_id
      → Dict.get j
          (put_dead_letter b (update_dead_letter_status k status (some now) s).0).dead_letter
        ≡ (if k == j then some b else Dict.get j s.dead_letter)
  unfolding put_dead_letter
  get-put-update k j now status b row s h q =
      let s' = (update_dead_letter_status k status (some now) s).0 in
      ground (
        arith,
        get-put b.entry_id j b s'.dead_letter,
        get-update k now status j row s h,
        q,
        eq_iff k j,
        eq_iff b.entry_id j,
      )

  failed-Mirrored :
      (k : String) (now : ℕ) (a : DeadLetterEntry Task) (s : ResilienceStore Task)
      (e : ResilienceEngine Task) (A : Type 0) (exc : Exc)
      → IsMirrored s e
      → HasTwin k a s
      → Mirrored
          (finish_replay {A = A} k now (record a { last_attempt = some now }) (raised exc) e).1
  unfolding finish_replay
  failed-Mirrored k now a s e A exc m twin =
      let a' : DeadLetterEntry Task = record a {
        last_attempt = some now;
        attempts = a.attempts + 1;
      } in
      (
        put_dead_letter a' (update_dead_letter_status k pending (some now) s).0,
        IsWrite-IsMirrored {k = k} {a = a'} {b = a'} m (record {
          wired' = ground (arith, m.wired);
          in_queue = λ j. get-put k j a' e.dlq;
          in_store = λ j. get-put-update k j now pending a' twin.row s twin.stored twin.key_entry;
          key_a = twin.key_entry;
          key_b = twin.key_entry;
          same = SameEntry-refl a';
        }),
      )

  -- A cancelled replay leaves no more than a new `last_attempt` on a queued entry.
  stamp-Mirrored :
      (k : String) (now : ℕ) (a : DeadLetterEntry Task) (s : ResilienceStore Task)
      (e : ResilienceEngine Task)
      → IsMirrored s e
      → HasTwin k a s
      → Mirrored (stamp k (record a { last_attempt = some now }) e)
  unfolding stamp
  stamp-Mirrored k now a s e m twin = elim (Option-cases (Dict.get k e.dlq)) [
    | inl absent ↦ rw (absent, stamp) (s, m)
    | inr (b, queued) ↦
        let a' : DeadLetterEntry Task = record a { last_attempt = some now } in
        rw (queued, stamp)
          (
            s,
            IsWrite-IsMirrored {k = k} {a = a'} {b = twin.row} m (record {
              wired' = m.wired;
              in_queue = λ j. get-put k j a' e.dlq;
              in_store = λ j. ground (arith, twin.stored, eq_iff k j);
              key_a = twin.key_entry;
              key_b = twin.key_row;
              same = record {
                same_id = twin.twins.same_id;
                same_task = twin.twins.same_task;
                same_error = twin.twins.same_error;
                same_attempts = twin.twins.same_attempts;
                same_status = twin.twins.same_status;
              };
            }),
          )
  ]

  finish_replay-Mirrored :
      {A : Type 0} (k : String) (now : ℕ) (a : DeadLetterEntry Task) (outcome : Outcome A)
      (s : ResilienceStore Task) (e : ResilienceEngine Task)
      → IsMirrored s e
      → HasTwin k a s
      → Mirrored (finish_replay k now (record a { last_attempt = some now }) outcome e).1
  unfolding finish_replay
  finish_replay-Mirrored k now a (returned r) s e m twin =
      update-Mirrored k now replayed a (some now) s e m twin
  finish_replay-Mirrored {A} k now a (raised exc) s e m twin =
      failed-Mirrored k now a s e A exc m twin
  finish_replay-Mirrored k now a cancelled s e m twin = stamp-Mirrored k now a s e m twin

  pub replay-Mirrored :
      {A : Type 0} (k : String) (factory : Task → Outcome A) (now : ℕ) (e : ResilienceEngine Task)
      → Mirrored e
      → Mirrored (replay_dead_letter k factory now e).1
  unfolding replay_dead_letter
  replay-Mirrored k factory now e (s, m) = elim (Option-cases (find_entry k e)) [
    | inl absent ↦ rw (absent, replay_dead_letter) (s, m)
    | inr (a, found) ↦
        rw (found, replay_dead_letter)
          (finish_replay-Mirrored k now a (factory a.original_task) s e m
            (find_entry-HasTwin k a m found))
  ]

  pub discard-Mirrored :
      (k : String) (now : ℕ) (e : ResilienceEngine Task)
      → Mirrored e
      → Mirrored (discard_dead_letter k now e).1
  unfolding discard_dead_letter
  discard-Mirrored k now e (s, m) = elim (Option-cases (find_entry k e)) [
    | inl absent ↦ rw (absent, discard_dead_letter) (s, m)
    | inr (a, found) ↦
        rw (found, discard_dead_letter)
          (update-Mirrored k now discarded a a.last_attempt s e m (find_entry-HasTwin k a m found))
  ]
