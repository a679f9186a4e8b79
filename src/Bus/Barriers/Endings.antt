-- ===== src/Bus/Barriers/Endings.antt =====
-- kernel/bus.py: what becomes of a future of `wait_for`.
use hermes_kernel_v.Prelude.{
  ℕ, ◌+◌, ◌≤◌, String, ◌≡◌, refl, sym, ap, subst, ◌∙◌, inl, inr, Bool, true, false, List, [], ◌∷◌,
  ◌++◌, some, length, get_elem?, le→leb, arith, length-append, get_elem?-last,
}
use hermes_kernel_v.Bus.{
  Event, Future, pending, timed_out, cancelled, resolved, EventBus, new_bus, is_done, wait_for,
  resolve_barriers, time_passes, give_up, clear,
}
use hermes_kernel_v.Bus.Barriers.{awaited, ticks, Future-cases}
use hermes_kernel_v.Bus.Barriers.Fresh.{
  IsBelow, awaited-fresh, ticks-fresh, length-resolve, length-fire, length-cancel, length-settle,
  wait_for-IsBelow,
}
use hermes_kernel_v.Bus.Barriers.Lives.{
  Call, waits, resolves, passes, gives_up, clears, exec, run, Barrier, life, lives, waits_in,
  Tracks, life-done, exec-IsBelow, new_bus-IsBelow, run-Tracks,
}

run-append : (cs ds : List Call) (bus : EventBus) → run (cs ++ ds) bus ≡ run ds (run cs bus)
run-append [] ds bus = refl
run-append (c ∷ cs) ds bus = run-append cs ds (exec c bus)

run-IsBelow : (cs : List Call) (bus : EventBus) → IsBelow bus → IsBelow (run cs bus)
run-IsBelow [] bus h = h
run-IsBelow (c ∷ cs) bus h = run-IsBelow cs (exec c bus) (exec-IsBelow c bus h)

length-run :
    (cs : List Call) (bus : EventBus)
    → length (run cs bus).futures ≡ length bus.futures + waits_in cs
unfolding wait_for resolve_barriers time_passes give_up clear
length-run [] bus = omega arith
length-run (waits now types timeout ∷ cs) bus = omega (
  arith,
  length-run cs (wait_for now types timeout bus),
  length-append bus.futures (pending ∷ []),
)
length-run (resolves e ∷ cs) bus =
    omega (arith, length-run cs (resolve_barriers e bus), length-resolve e bus.waiters bus.futures)
length-run (passes now ∷ cs) bus =
    omega (arith, length-run cs (time_passes now bus), length-fire now bus.timers bus.futures)
length-run (gives_up i ∷ cs) bus =
    omega (arith, length-run cs (give_up i bus), length-settle i cancelled bus.futures)
length-run (clears ∷ cs) bus =
    omega (arith, length-run cs (clear bus), length-cancel bus.waiters bus.futures)

awaited-last :
    (n : ℕ) (q : List String → Bool) (ws : List hermes_kernel_v.Bus.Waiter) (types : List String)
    → awaited n q ws ≡ false
    → awaited n q (ws ++ record { types = types; future = n } ∷ []) ≡ q types
awaited-last n q [] types h = ground arith
awaited-last n q (w ∷ ws) types h = ground (arith, awaited-last n q ws types, h)

ticks-last :
    (n : ℕ) (q : ℕ → Bool) (ts : List hermes_kernel_v.Bus.Timer) (due : ℕ)
    → ticks n q ts ≡ false
    → ticks n q (ts ++ record { due = due; future = n } ∷ []) ≡ q due
ticks-last n q [] due h = ground arith
ticks-last n q (t ∷ ts) due h = ground (arith, ticks-last n q ts due, h)

-- The future that `wait_for` makes is kept as its barrier.
wait_for-Tracks :
    (now : ℕ) (types : List String) (timeout : ℕ) (bus : EventBus)
    → IsBelow bus
    → Tracks
        (record { index = length bus.futures; types = types; deadline = now + timeout })
        (wait_for now types timeout bus)
        pending
unfolding wait_for
wait_for-Tracks now types timeout bus h =
    let n = length bus.futures in
    record {
      below = wait_for-IsBelow bus h now types timeout;
      at = get_elem?-last bus.futures pending;
      listed = λ p q. awaited-last n q bus.waiters types (awaited-fresh n q bus.waiters h.waiters);
      timed =
          λ p q. ticks-last n q bus.timers (now + timeout) (ticks-fresh n q bus.timers h.timers);
    }

-- The barrier that a call of `wait_for` after these calls sets up.
abbrev pub barrier : List Call → (now : ℕ) → List String → (timeout : ℕ) → Barrier
barrier before now types timeout = record {
  index = waits_in before;
  types = types;
  deadline = now + timeout;
}

-- Whatever calls come before and after a call of `wait_for`, its future is just what it would be if it
-- were the only one: the first dispatched event of one of its types resolves it, unless its deadline
-- passes, its caller cancels it or the bus is cleared before, and once it is done it does not change.
pub run-lives :
    (before after : List Call) (now : ℕ) (types : List String) (timeout : ℕ)
    → get_elem? (run (before ++ waits now types timeout ∷ after) new_bus).futures (waits_in before)
      ≡ some (lives (barrier before now types timeout) after pending)
run-lives before after now types timeout =
    let bus = run before new_bus in
    let b : Barrier = record {
      index = length bus.futures;
      types = types;
      deadline = now + timeout;
    } in
    let n : length bus.futures ≡ waits_in before = omega (arith, length-run before new_bus) in
    let t =
      run-Tracks b after (wait_for now types timeout bus) pending
        (wait_for-Tracks now types timeout bus (run-IsBelow before new_bus new_bus-IsBelow)) in
    let made = wait_for now types timeout bus in
    let here : get_elem? (run (before ++ waits now types timeout ∷ after) new_bus).futures
          (length bus.futures)
        ≡ some (lives b after pending) =
      ap (λ (r : EventBus). get_elem? r.futures (length bus.futures))
        (run-append before (waits now types timeout ∷ after) new_bus)
      ∙ t.at in
    subst
      (λ (i : ℕ).
        get_elem? (run (before ++ waits now types timeout ∷ after) new_bus).futures i
        ≡ some
            (lives (record { index = i; types = types; deadline = now + timeout }) after pending))
      n here

lives-append :
    (b : Barrier) (cs ds : List Call) (f : Future)
    → lives b (cs ++ ds) f ≡ lives b ds (lives b cs f)
lives-append b [] ds f = refl
lives-append b (c ∷ cs) ds f = lives-append b cs ds (life b c f)

lives-done :
    (b : Barrier) (cs : List Call) (f : Future) → is_done (some f) ≡ true → lives b cs f ≡ f
lives-done b [] f d = refl
lives-done b (c ∷ cs) f d =
    subst (λ (g : Future). lives b cs g ≡ f) (sym (life-done b c f d)) (lives-done b cs f d)

deadline-done :
    (b : Barrier) (now : ℕ) (f : Future)
    → b.deadline ≤ now
    → is_done (some (life b (passes now) f)) ≡ true
deadline-done b now f h = elim (Future-cases f) [
  | inl p ↦ rw (p, le→leb b.deadline now h) refl
  | inr d ↦ rw (life-done b (passes now) f d) d
]

-- Every barrier comes to an end: once the clock has passed its deadline, the future of `wait_for` is
-- resolved, timed out or cancelled, whatever happened before and happens after.
pub run-settles :
    (before between after : List Call) (now : ℕ) (types : List String) (timeout later : ℕ)
    → now + timeout ≤ later
    → (f : Future) × (get_elem?
          (run
            (before ++ waits now types timeout ∷ (between ++ passes later ∷ after))
            new_bus).futures
          (waits_in before)
        ≡ some f)
      × (is_done (some f) ≡ true)
run-settles before between after now types timeout later h =
    let b = barrier before now types timeout in
    let settled = life b (passes later) (lives b between pending) in
    let d = deadline-done b later (lives b between pending) h in
    (
      settled,
      run-lives before (between ++ passes later ∷ after) now types timeout
          ∙ ap some (
              lives-append b between (passes later ∷ after) pending ∙ lives-done b after settled d),
      d,
    )
