-- ===== src/Bus/Barriers/Lives.antt =====
-- kernel/bus.py: each future of `wait_for` has a life of its own, whatever else the bus does.
use hermes_kernel_v.Prelude.{
  ℕ, suc, String, ◌≡◌, refl, sym, ap, subst, ◌∙◌, inl, inr, Bool, true, false, List, [], ◌∷◌, ◌++◌,
  some, length, get_elem?, eqb, eqb_iff, leb, arith, get_elem?-append, get_elem?-lt, Bool-cases,
  if◌then◌else◌,
}
use hermes_kernel_v.Prelude.Texts.{has}
use hermes_kernel_v.Bus.{
  Event, Future, pending, cancelled, timed_out, resolved, Waiter, Timer, EventBus, new_bus, is_done,
  settle, resolve_barriers, wait_for, time_passes, give_up, clear,
}
use hermes_kernel_v.Bus.Barriers.{
  awaited, ticks, Future-cases, settle-keeps, settle_self, settle_other, resolve-keeps,
  resolve-pending, resolve-awaited, fire-keeps, fire-pending, fire-ticks, cancel-keeps,
  cancel-pending,
}
use hermes_kernel_v.Bus.Barriers.Fresh.{
  IsBelow, wait_for-IsBelow, resolve_barriers-IsBelow, time_passes-IsBelow, give_up-IsBelow,
  clear-IsBelow,
}

-- What changes the futures: a call of `wait_for`, the end of an event's dispatch, the clock, a caller
-- that cancels the future with the index, and `clear` or `close`.
pub data Call : Type 0 where
  waits : (now : ℕ) → (types : List String) → (timeout : ℕ) → Call
  resolves : Event → Call
  passes gives_up : ℕ → Call
  clears : Call

abbrev pub exec : Call → EventBus → EventBus
exec (waits now types timeout) bus = wait_for now types timeout bus
exec (resolves e) bus = resolve_barriers e bus
exec (passes now) bus = time_passes now bus
exec (gives_up i) bus = give_up i bus
exec clears bus = clear bus

abbrev pub run : List Call → EventBus → EventBus
run [] bus = bus
run (c ∷ cs) bus = run cs (exec c bus)

-- What a call of `wait_for` is to bring about.
pub record Barrier : Type 0 where
  pub index : ℕ
  pub types : List String
  pub deadline : ℕ

-- The barrier for itself: it takes the first event of its types, unless its time is over or it is
-- cancelled before.
abbrev pub life : Barrier → Call → Future → Future
life b (waits _ _ _) pending = pending
life b (resolves e) pending = if has e.kind b.types then resolved e else pending
life b (passes now) pending = if leb b.deadline now then timed_out else pending
life b (gives_up i) pending = if eqb i b.index then cancelled else pending
life b clears pending = cancelled
life b c timed_out = timed_out
life b c cancelled = cancelled
life b c (resolved e) = resolved e

abbrev pub lives : Barrier → List Call → Future → Future
lives b [] f = f
lives b (c ∷ cs) f = lives b cs (life b c f)

abbrev pub waits_in : List Call → ℕ
waits_in [] = 0
waits_in (waits _ _ _ ∷ cs) = suc (waits_in cs)
waits_in (resolves _ ∷ cs) = waits_in cs
waits_in (passes _ ∷ cs) = waits_in cs
waits_in (gives_up _ ∷ cs) = waits_in cs
waits_in (clears ∷ cs) = waits_in cs

pub life-done : (b : Barrier) (c : Call) (f : Future) → is_done (some f) ≡ true → life b c f ≡ f
life-done b c pending d = absurd (cc d)
life-done b c timed_out d = refl
life-done b c cancelled d = refl
life-done b c (resolved e) d = refl

-- How the bus keeps a barrier.
pub record Tracks (b : Barrier) (bus : EventBus) (f : Future) : Type 0 where
  pub below : IsBelow bus
  pub at : get_elem? bus.futures b.index ≡ some f
  pub listed : f ≡ pending → (q : List String → Bool) → awaited b.index q bus.waiters ≡ q b.types
  pub timed : f ≡ pending → (q : ℕ → Bool) → ticks b.index q bus.timers ≡ q b.deadline

pub new_bus-IsBelow : IsBelow new_bus
new_bus-IsBelow = record { waiters = refl; timers = refl }

pub exec-IsBelow : (c : Call) (bus : EventBus) → IsBelow bus → IsBelow (exec c bus)
exec-IsBelow (waits now types timeout) bus h = wait_for-IsBelow bus h now types timeout
exec-IsBelow (resolves e) bus h = resolve_barriers-IsBelow bus h e
exec-IsBelow (passes now) bus h = time_passes-IsBelow bus h now
exec-IsBelow (gives_up i) bus h = give_up-IsBelow bus h i
exec-IsBelow clears bus h = clear-IsBelow bus h

-- A future that is done is kept.
exec-keeps :
    (i : ℕ) (f : Future) (c : Call) (bus : EventBus)
    → is_done (some f) ≡ true
    → get_elem? bus.futures i ≡ some f
    → get_elem? (exec c bus).futures i ≡ some f
unfolding wait_for resolve_barriers time_passes give_up clear
exec-keeps i f (waits now types timeout) bus d h = get_elem?-append bus.futures (pending ∷ []) i f h
exec-keeps i f (resolves e) bus d h = resolve-keeps i e f bus.waiters bus.futures d h
exec-keeps i f (passes now) bus d h = fire-keeps i now f bus.timers bus.futures d h
exec-keeps i f (gives_up j) bus d h = settle-keeps i j cancelled f bus.futures d h
exec-keeps i f clears bus d h = cancel-keeps i f bus.waiters bus.futures d h

-- A future that is done waits no more.
done-Tracks :
    (b : Barrier) (bus : EventBus) (f : Future)
    → IsBelow bus
    → is_done (some f) ≡ true
    → get_elem? bus.futures b.index ≡ some f
    → Tracks b bus f
done-Tracks b bus f below d h = record {
  below = below;
  at = h;
  listed = λ p. absurd (cc (ap (λ (x : Future). is_done (some x)) p, d));
  timed = λ p. absurd (cc (ap (λ (x : Future). is_done (some x)) p, d));
}

awaited-concat :
    (i : ℕ) (q : List String → Bool) (ws : List Waiter) (w : Waiter)
    → eqb w.future i ≡ false
    → awaited i q (ws ++ w ∷ []) ≡ awaited i q ws
awaited-concat i q [] w h = ground (arith, h)
awaited-concat i q (x ∷ ws) w h = ground (arith, awaited-concat i q ws w h)

ticks-concat :
    (i : ℕ) (q : ℕ → Bool) (ts : List Timer) (t : Timer)
    → eqb t.future i ≡ false
    → ticks i q (ts ++ t ∷ []) ≡ ticks i q ts
ticks-concat i q [] t h = ground (arith, h)
ticks-concat i q (x ∷ ts) t h = ground (arith, ticks-concat i q ts t h)

exec-pending :
    (b : Barrier) (c : Call) (bus : EventBus)
    → Tracks b bus pending
    → Tracks b (exec c bus) (life b c pending)
unfolding wait_for resolve_barriers time_passes give_up clear
exec-pending b (waits now types timeout) bus t =
    let other : eqb (length bus.futures) b.index ≡ false =
      ground (arith, get_elem?-lt bus.futures b.index pending t.at) in
    record {
      below = wait_for-IsBelow bus t.below now types timeout;
      at = get_elem?-append bus.futures (pending ∷ []) b.index pending t.at;
      listed = λ p q. awaited-concat b.index q bus.waiters _ other ∙ t.listed p q;
      timed = λ p q. ticks-concat b.index q bus.timers _ other ∙ t.timed p q;
    }
exec-pending b (resolves e) bus t =
    let below = resolve_barriers-IsBelow bus t.below e in
    let wanted = t.listed refl (λ types. has e.kind types) in
    let after = resolve-pending b.index e bus.waiters bus.futures t.at in
    elim (Bool-cases (has e.kind b.types)) [
      | inl match ↦
          rw match (done-Tracks b _ (resolved e) below refl (rw (wanted ∙ match) at after))
      | inr apart ↦ rw apart (record {
        below = below;
        at = rw (wanted ∙ apart) at after;
        listed = λ p q.
            resolve-awaited b.index e q bus.waiters bus.futures t.at (wanted ∙ apart)
            ∙ t.listed p q;
        timed = t.timed;
      })
    ]
exec-pending b (passes now) bus t =
    let below = time_passes-IsBelow bus t.below now in
    let wanted = t.timed refl (λ due. leb due now) in
    let after = fire-pending b.index now bus.timers bus.futures t.at in
    elim (Bool-cases (leb b.deadline now)) [
      | inl due ↦ rw due (done-Tracks b _ timed_out below refl (rw (wanted ∙ due) at after))
      | inr early ↦ rw early (record {
        below = below;
        at = rw (wanted ∙ early) at after;
        listed = t.listed;
        timed =
            λ p q. fire-ticks b.index now q bus.timers bus.futures (wanted ∙ early) ∙ t.timed p q;
      })
    ]
exec-pending b (gives_up i) bus t =
    let below = give_up-IsBelow bus t.below i in
    elim (Bool-cases (eqb i b.index)) [
      | inl same ↦
          let at : get_elem? (settle i cancelled bus.futures) b.index ≡ some cancelled =
            rw ((eqb_iff i b.index).0 same) (settle_self b.index cancelled bus.futures t.at) in
          rw same (done-Tracks b _ cancelled below refl at)
      | inr other ↦ rw other (record {
        below = below;
        at = settle_other b.index i cancelled bus.futures other ∙ t.at;
        listed = t.listed;
        timed = t.timed;
      })
    ]
exec-pending b clears bus t =
    done-Tracks b _ cancelled (clear-IsBelow bus t.below) refl
      (cancel-pending b.index bus.waiters bus.futures t.at (t.listed refl (λ types. true)))

exec-Tracks :
    (b : Barrier) (c : Call) (bus : EventBus) (f : Future)
    → Tracks b bus f
    → Tracks b (exec c bus) (life b c f)
exec-Tracks b c bus f t = elim (Future-cases f) [
  | inl p ↦
      subst (λ (g : Future). Tracks b (exec c bus) (life b c g)) (sym p)
        (exec-pending b c bus (subst (Tracks b bus) p t))
  | inr d ↦ subst (Tracks b (exec c bus)) (sym (life-done b c f d)) (
      done-Tracks b (exec c bus) f (exec-IsBelow c bus t.below) d
        (exec-keeps b.index f c bus d t.at))
]

pub run-Tracks :
    (b : Barrier) (cs : List Call) (bus : EventBus) (f : Future)
    → Tracks b bus f
    → Tracks b (run cs bus) (lives b cs f)
run-Tracks b [] bus f t = t
run-Tracks b (c ∷ cs) bus f t = run-Tracks b cs (exec c bus) (life b c f) (exec-Tracks b c bus f t)
