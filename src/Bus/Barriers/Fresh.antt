-- ===== src/Bus/Barriers/Fresh.antt =====
-- kernel/bus.py: waiters and timers only name futures that were made.
use hermes_kernel_v.Prelude.{
  ℕ, zero, suc, String, if◌then◌else◌, ◌<◌, ◌≤◌, ◌≡◌, refl, ap, ◌∙◌, inl, inr, Bool, true, false,
  List, [], ◌∷◌, ◌++◌, all, length, get_elem?, set, ltb, leb, arith, length-append, Bool-cases,
  and-both, both-and,
}
use hermes_kernel_v.Prelude.Texts.{has}
use hermes_kernel_v.Bus.{
  Event, Future, pending, cancelled, timed_out, resolved, Waiter, Timer, EventBus, is_done, settle,
  resolve_waiters, fire_timers, cancel_waiters, resolve_barriers, wait_for, time_passes, give_up,
  clear,
}
use hermes_kernel_v.Bus.Barriers.{awaited, ticks}

abbrev pub waiters_below : ℕ → List Waiter → Bool
waiters_below n ws = all (λ (w : Waiter). ltb w.future n) ws

abbrev pub timers_below : ℕ → List Timer → Bool
timers_below n ts = all (λ (t : Timer). ltb t.future n) ts

pub record IsBelow (bus : EventBus) : Type 0 where
  pub waiters : waiters_below (length bus.futures) bus.waiters ≡ true
  pub timers : timers_below (length bus.futures) bus.timers ≡ true

pub awaited-fresh :
    (n : ℕ) (q : List String → Bool) (ws : List Waiter)
    → waiters_below n ws ≡ true
    → awaited n q ws ≡ false
awaited-fresh n q [] h = refl
awaited-fresh n q (w ∷ ws) h = ground (arith, awaited-fresh n q ws, h)

pub ticks-fresh :
    (n : ℕ) (q : ℕ → Bool) (ts : List Timer) → timers_below n ts ≡ true → ticks n q ts ≡ false
ticks-fresh n q [] h = refl
ticks-fresh n q (t ∷ ts) h = ground (arith, ticks-fresh n q ts, h)

waiters_below-more :
    (n m : ℕ) (ws : List Waiter) → n ≤ m → waiters_below n ws ≡ true → waiters_below m ws ≡ true
waiters_below-more n m [] le h = refl
waiters_below-more n m (w ∷ ws) le h = ground (arith, waiters_below-more n m ws le, h, le)

timers_below-more :
    (n m : ℕ) (ts : List Timer) → n ≤ m → timers_below n ts ≡ true → timers_below m ts ≡ true
timers_below-more n m [] le h = refl
timers_below-more n m (t ∷ ts) le h = ground (arith, timers_below-more n m ts le, h, le)

waiters_below-concat :
    (n : ℕ) (ws : List Waiter) (w : Waiter)
    → waiters_below n ws ≡ true
    → w.future < n
    → waiters_below n (ws ++ w ∷ []) ≡ true
waiters_below-concat n [] w h lt = ground (arith, lt)
waiters_below-concat n (x ∷ ws) w h lt = ground (arith, waiters_below-concat n ws w, h, lt)

timers_below-concat :
    (n : ℕ) (ts : List Timer) (t : Timer)
    → timers_below n ts ≡ true
    → t.future < n
    → timers_below n (ts ++ t ∷ []) ≡ true
timers_below-concat n [] t h lt = ground (arith, lt)
timers_below-concat n (x ∷ ts) t h lt = ground (arith, timers_below-concat n ts t, h, lt)

pub length-set {ℓ} : {A : Type ℓ} (xs : List A) (i : ℕ) (v : A) → length (set xs i v) ≡ length xs
length-set [] i v = refl
length-set (x ∷ xs) zero v = refl
length-set (x ∷ xs) (suc i) v = ap suc (length-set xs i v)

pub length-settle : (i : ℕ) (f : Future) (fs : List Future) → length (settle i f fs) ≡ length fs
length-settle i f fs = elim (Bool-cases (is_done (get_elem? fs i))) [
  | inl done ↦ ap (λ (b : Bool). length (if b then fs else set fs i f)) done
  | inr alive ↦ ap (λ (b : Bool). length (if b then fs else set fs i f)) alive ∙ length-set fs i f
]

pub length-resolve :
    (e : Event) (ws : List Waiter) (fs : List Future)
    → length (resolve_waiters e ws fs).1 ≡ length fs
unfolding resolve_waiters
length-resolve e [] fs = refl
length-resolve e (w ∷ ws) fs = elim (Bool-cases (is_done (get_elem? fs w.future))) [
  | inl done ↦ rw (done, resolve_waiters) (length-resolve e ws fs)
  | inr alive ↦ elim (Bool-cases (has e.kind w.types)) [
    | inl match ↦
        rw (alive, match, resolve_waiters)
          (length-resolve e ws (set fs w.future (resolved e)) ∙ length-set fs w.future (resolved e))
    | inr apart ↦ rw (alive, apart, resolve_waiters) (length-resolve e ws fs)
  ]
]

resolve-below :
    (n : ℕ) (e : Event) (ws : List Waiter) (fs : List Future)
    → waiters_below n ws ≡ true
    → waiters_below n (resolve_waiters e ws fs).0 ≡ true
unfolding resolve_waiters
resolve-below n e [] fs h = refl
resolve-below n e (w ∷ ws) fs h =
    let (here, later) = and-both (ltb w.future n) (waiters_below n ws) h in
    elim (Bool-cases (is_done (get_elem? fs w.future))) [
      | inl done ↦ rw (done, resolve_waiters) (resolve-below n e ws fs later)
      | inr alive ↦ elim (Bool-cases (has e.kind w.types)) [
        | inl match ↦
            rw (alive, match, resolve_waiters)
              (resolve-below n e ws (set fs w.future (resolved e)) later)
        | inr apart ↦
            rw (alive, apart, resolve_waiters) (both-and _ _ here (resolve-below n e ws fs later))
      ]
    ]

pub length-fire :
    (now : ℕ) (ts : List Timer) (fs : List Future) → length (fire_timers now ts fs).1 ≡ length fs
unfolding fire_timers
length-fire now [] fs = refl
length-fire now (t ∷ ts) fs = elim (Bool-cases (leb t.due now)) [
  | inl due ↦
      rw (due, fire_timers)
        (length-fire now ts (settle t.future timed_out fs) ∙ length-settle t.future timed_out fs)
  | inr early ↦ rw (early, fire_timers) (length-fire now ts fs)
]

fire-below :
    (n now : ℕ) (ts : List Timer) (fs : List Future)
    → timers_below n ts ≡ true
    → timers_below n (fire_timers now ts fs).0 ≡ true
unfolding fire_timers
fire-below n now [] fs h = refl
fire-below n now (t ∷ ts) fs h =
    let (here, later) = and-both (ltb t.future n) (timers_below n ts) h in
    elim (Bool-cases (leb t.due now)) [
      | inl due ↦ rw (due, fire_timers) (fire-below n now ts (settle t.future timed_out fs) later)
      | inr early ↦ rw (early, fire_timers) (both-and _ _ here (fire-below n now ts fs later))
    ]

pub length-cancel :
    (ws : List Waiter) (fs : List Future) → length (cancel_waiters ws fs) ≡ length fs
unfolding cancel_waiters
length-cancel [] fs = refl
length-cancel (w ∷ ws) fs =
    length-cancel ws (settle w.future cancelled fs) ∙ length-settle w.future cancelled fs

module _ (bus : EventBus) (h : IsBelow bus) where
  pub wait_for-IsBelow :
      (now : ℕ) (types : List String) (timeout : ℕ) → IsBelow (wait_for now types timeout bus)
  unfolding wait_for
  wait_for-IsBelow now types timeout =
      let n = length bus.futures in
      let grown : length (bus.futures ++ pending ∷ []) ≡ suc n =
        omega (arith, length-append bus.futures (pending ∷ [])) in
      let more : n ≤ suc n = omega arith in
      let fresh : n < suc n = omega arith in
      record {
        waiters = rw grown (
            waiters_below-concat (suc n) bus.waiters _
              (waiters_below-more n (suc n) bus.waiters more h.waiters) fresh);
        timers = rw grown (
            timers_below-concat (suc n) bus.timers _
              (timers_below-more n (suc n) bus.timers more h.timers) fresh);
      }

  pub resolve_barriers-IsBelow : (e : Event) → IsBelow (resolve_barriers e bus)
  unfolding resolve_barriers
  resolve_barriers-IsBelow e = record {
    waiters =
        rw (length-resolve e bus.waiters bus.futures)
          (resolve-below (length bus.futures) e bus.waiters bus.futures h.waiters);
    timers = rw (length-resolve e bus.waiters bus.futures) h.timers;
  }

  pub time_passes-IsBelow : (now : ℕ) → IsBelow (time_passes now bus)
  unfolding time_passes
  time_passes-IsBelow now = record {
    waiters = rw (length-fire now bus.timers bus.futures) h.waiters;
    timers =
        rw (length-fire now bus.timers bus.futures)
          (fire-below (length bus.futures) now bus.timers bus.futures h.timers);
  }

  pub give_up-IsBelow : (i : ℕ) → IsBelow (give_up i bus)
  unfolding give_up
  give_up-IsBelow i = record {
    waiters = rw (length-settle i cancelled bus.futures) h.waiters;
    timers = rw (length-settle i cancelled bus.futures) h.timers;
  }

  pub clear-IsBelow : IsBelow (clear bus)
  unfolding clear
  clear-IsBelow = record {
    waiters = refl;
    timers = rw (length-cancel bus.waiters bus.futures) h.timers;
  }
