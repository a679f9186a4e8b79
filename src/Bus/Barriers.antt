-- ===== src/Bus/Barriers.antt =====
-- The barriers of kernel/bus.py one by one: what each operation does to one future.
pub mod Lives
mod Fresh
pub mod Endings
use hermes_kernel_v.Prelude.{
  ℕ, zero, suc, ◌+◌, ◌<◌, String, ◌≡◌, ◌≢◌, refl, sym, ap, ◌∙◌, ◌⊎◌, inl, inr, Bool, true, false,
  ◌&&◌, ◌||◌, List, [], ◌∷◌, ◌++◌, Option, none, some, any, length, get_elem?, set, eqb, leb,
  eqb_iff, arith, get_elem?-set_self, get_elem?-set_ne, get_elem?-lt, Bool-cases, or-neither, subst,
  if◌then◌else◌,
}
use hermes_kernel_v.Prelude.Texts.{has}
use hermes_kernel_v.Bus.{
  Event, Future, pending, timed_out, cancelled, resolved, Waiter, Timer, is_done, settle,
  resolve_waiters, fire_timers, cancel_waiters,
}

-- Some waiter of the future is for types that pass the test.
abbrev pub awaited : ℕ → (List String → Bool) → List Waiter → Bool
awaited i q [] = false
awaited i q (w ∷ ws) = (eqb w.future i && q w.types) || awaited i q ws

abbrev pub ticks : ℕ → (ℕ → Bool) → List Timer → Bool
ticks i q [] = false
ticks i q (t ∷ ts) = (eqb t.future i && q t.due) || ticks i q ts

pub Future-cases : (f : Future) → (f ≡ pending) ⊎ (is_done (some f) ≡ true)
Future-cases pending = inl refl
Future-cases timed_out = inr refl
Future-cases cancelled = inr refl
Future-cases (resolved e) = inr refl

module _ (i : ℕ) where
  set-keeps :
      (j : ℕ) (f s : Future) (fs : List Future)
      → is_done (get_elem? fs j) ≡ false
      → is_done (some s) ≡ true
      → get_elem? fs i ≡ some s
      → get_elem? (set fs j f) i ≡ some s
  set-keeps j f s fs alive d e = elim (Bool-cases (eqb j i)) [
    | inl same ↦
        let q : j ≡ i = (eqb_iff j i).0 same in
        absurd (cc (subst (λ (n : ℕ). is_done (get_elem? fs n) ≡ false) q alive, ap is_done e, d))
    | inr other ↦ get_elem?-set_ne fs j i f (λ q. cc ((eqb_iff j i).1 q, other)) ∙ e
  ]

  pub settle-keeps :
      (j : ℕ) (f s : Future) (fs : List Future)
      → is_done (some s) ≡ true
      → get_elem? fs i ≡ some s
      → get_elem? (settle j f fs) i ≡ some s
  settle-keeps j f s fs d e = elim (Bool-cases (is_done (get_elem? fs j))) [
    | inl done ↦ rw done e
    | inr alive ↦ rw alive (set-keeps j f s fs alive d e)
  ]

  pub settle_self :
      (f : Future) (fs : List Future)
      → get_elem? fs i ≡ some pending
      → get_elem? (settle i f fs) i ≡ some f
  settle_self f fs e = rw (ap is_done e) (get_elem?-set_self fs i f (get_elem?-lt fs i pending e))

  pub settle_other :
      (j : ℕ) (f : Future) (fs : List Future)
      → eqb j i ≡ false
      → get_elem? (settle j f fs) i ≡ get_elem? fs i
  settle_other j f fs other = elim (Bool-cases (is_done (get_elem? fs j))) [
    | inl done ↦ rw done refl
    | inr alive ↦ rw alive (get_elem?-set_ne fs j i f (λ q. cc ((eqb_iff j i).1 q, other)))
  ]

  -- A future that is done stays as it is.
  pub resolve-keeps :
      (e : Event) (s : Future) (ws : List Waiter) (fs : List Future)
      → is_done (some s) ≡ true
      → get_elem? fs i ≡ some s
      → get_elem? (resolve_waiters e ws fs).1 i ≡ some s
  unfolding resolve_waiters
  resolve-keeps e s [] fs d h = h
  resolve-keeps e s (w ∷ ws) fs d h = elim (Bool-cases (is_done (get_elem? fs w.future))) [
    | inl done ↦ rw (done, resolve_waiters) (resolve-keeps e s ws fs d h)
    | inr alive ↦ elim (Bool-cases (has e.kind w.types)) [
      | inl match ↦
          rw (alive, match, resolve_waiters)
            (resolve-keeps e s ws (set fs w.future (resolved e)) d
              (set-keeps w.future (resolved e) s fs alive d h))
      | inr apart ↦ rw (alive, apart, resolve_waiters) (resolve-keeps e s ws fs d h)
    ]
  ]

  -- A waiter whose future is done waits for another one than a pending one.
  pub not_own :
      (j : ℕ) (fs : List Future)
      → is_done (get_elem? fs j) ≡ true
      → get_elem? fs i ≡ some pending
      → eqb j i ≡ false
  not_own j fs done h = elim (Bool-cases (eqb j i)) [
    | inl same ↦ absurd (
        cc (
          subst (λ (n : ℕ). is_done (get_elem? fs n) ≡ true) ((eqb_iff j i).0 same) done,
          ap is_done h,
        ))
    | inr other ↦ other
  ]

  -- A pending one gets the event if one of its waiters is for it.
  pub resolve-pending :
      (e : Event) (ws : List Waiter) (fs : List Future)
      → get_elem? fs i ≡ some pending
      → get_elem? (resolve_waiters e ws fs).1 i
        ≡ some (if awaited i (λ types. has e.kind types) ws then resolved e else pending)
  unfolding resolve_waiters
  resolve-pending e [] fs h = h
  resolve-pending e (w ∷ ws) fs h = elim (Bool-cases (is_done (get_elem? fs w.future))) [
    | inl done ↦
        let other = not_own w.future fs done h in
        rw (done, other, resolve_waiters) (resolve-pending e ws fs h)
    | inr alive ↦ elim (Bool-cases (has e.kind w.types)) [
      | inl match ↦ elim (Bool-cases (eqb w.future i)) [
        | inl same ↦
            let q : w.future ≡ i = (eqb_iff w.future i).0 same in
            let now : get_elem? (set fs w.future (resolved e)) i ≡ some (resolved e) =
              rw q (get_elem?-set_self fs i (resolved e) (get_elem?-lt fs i pending h)) in
            rw (alive, match, same, resolve_waiters)
              (resolve-keeps e (resolved e) ws (set fs w.future (resolved e)) refl now)
        | inr other ↦
            rw (alive, match, other, resolve_waiters)
              (resolve-pending e ws (set fs w.future (resolved e)) (
                get_elem?-set_ne fs w.future i (resolved e)
                  (λ q. cc ((eqb_iff w.future i).1 q, other))
                ∙ h))
      ]
      | inr apart ↦
          let none_here : (eqb w.future i && false) ≡ false = ground arith in
          rw (alive, apart, none_here, resolve_waiters) (resolve-pending e ws fs h)
    ]
  ]

  -- One that stays pending has the same waiters.
  pub resolve-awaited :
      (e : Event) (q : List String → Bool) (ws : List Waiter) (fs : List Future)
      → get_elem? fs i ≡ some pending
      → awaited i (λ types. has e.kind types) ws ≡ false
      → awaited i q (resolve_waiters e ws fs).0 ≡ awaited i q ws
  unfolding resolve_waiters
  resolve-awaited e q [] fs h n = refl
  resolve-awaited e q (w ∷ ws) fs h n =
      let (here, later) =
        or-neither (eqb w.future i && has e.kind w.types) (awaited i (λ types. has e.kind types) ws)
          n in
      elim (Bool-cases (is_done (get_elem? fs w.future))) [
        | inl done ↦
            rw (done, not_own w.future fs done h, resolve_waiters)
              (resolve-awaited e q ws fs h later)
        | inr alive ↦ elim (Bool-cases (has e.kind w.types)) [
          | inl match ↦
              let other : eqb w.future i ≡ false = ground (arith, here, match) in
              rw (alive, match, other, resolve_waiters)
                (resolve-awaited e q ws (set fs w.future (resolved e))
                  (get_elem?-set_ne fs w.future i (resolved e)
                      (λ r. cc ((eqb_iff w.future i).1 r, other))
                    ∙ h)
                  later)
          | inr apart ↦
              rw (alive, apart, resolve_waiters)
                (ap (λ b. (eqb w.future i && q w.types) || b) (resolve-awaited e q ws fs h later))
        ]
      ]

  pub fire-keeps :
      (now : ℕ) (s : Future) (ts : List Timer) (fs : List Future)
      → is_done (some s) ≡ true
      → get_elem? fs i ≡ some s
      → get_elem? (fire_timers now ts fs).1 i ≡ some s
  unfolding fire_timers
  fire-keeps now s [] fs d h = h
  fire-keeps now s (t ∷ ts) fs d h = elim (Bool-cases (leb t.due now)) [
    | inl due ↦
        rw (due, fire_timers)
          (fire-keeps now s ts (settle t.future timed_out fs) d
            (settle-keeps t.future timed_out s fs d h))
    | inr early ↦ rw (early, fire_timers) (fire-keeps now s ts fs d h)
  ]

  pub fire-pending :
      (now : ℕ) (ts : List Timer) (fs : List Future)
      → get_elem? fs i ≡ some pending
      → get_elem? (fire_timers now ts fs).1 i
        ≡ some (if ticks i (λ due. leb due now) ts then timed_out else pending)
  unfolding fire_timers
  fire-pending now [] fs h = h
  fire-pending now (t ∷ ts) fs h = elim (Bool-cases (leb t.due now)) [
    | inl due ↦ elim (Bool-cases (eqb t.future i)) [
      | inl same ↦
          let q : t.future ≡ i = (eqb_iff t.future i).0 same in
          let fired : get_elem? (settle t.future timed_out fs) i ≡ some timed_out =
            rw q (settle_self timed_out fs h) in
          rw (due, same, fire_timers)
            (fire-keeps now timed_out ts (settle t.future timed_out fs) refl fired)
      | inr other ↦
          rw (due, other, fire_timers)
            (fire-pending now ts (settle t.future timed_out fs)
              (settle_other t.future timed_out fs other ∙ h))
    ]
    | inr early ↦
        let none_here : (eqb t.future i && false) ≡ false = ground arith in
        rw (early, none_here, fire_timers) (fire-pending now ts fs h)
  ]

  pub fire-ticks :
      (now : ℕ) (q : ℕ → Bool) (ts : List Timer) (fs : List Future)
      → ticks i (λ due. leb due now) ts ≡ false
      → ticks i q (fire_timers now ts fs).0 ≡ ticks i q ts
  unfolding fire_timers
  fire-ticks now q [] fs n = refl
  fire-ticks now q (t ∷ ts) fs n =
      let (here, later) =
        or-neither (eqb t.future i && leb t.due now) (ticks i (λ due. leb due now) ts) n in
      elim (Bool-cases (leb t.due now)) [
        | inl due ↦
            let other : eqb t.future i ≡ false = ground (arith, here, due) in
            rw (due, other, fire_timers) (fire-ticks now q ts (settle t.future timed_out fs) later)
        | inr early ↦
            rw (early, fire_timers)
              (ap (λ b. (eqb t.future i && q t.due) || b) (fire-ticks now q ts fs later))
      ]

  pub cancel-keeps :
      (s : Future) (ws : List Waiter) (fs : List Future)
      → is_done (some s) ≡ true
      → get_elem? fs i ≡ some s
      → get_elem? (cancel_waiters ws fs) i ≡ some s
  unfolding cancel_waiters
  cancel-keeps s [] fs d h = h
  cancel-keeps s (w ∷ ws) fs d h =
      cancel-keeps s ws (settle w.future cancelled fs) d (settle-keeps w.future cancelled s fs d h)

  pub cancel-pending :
      (ws : List Waiter) (fs : List Future)
      → get_elem? fs i ≡ some pending
      → awaited i (λ types. true) ws ≡ true
      → get_elem? (cancel_waiters ws fs) i ≡ some cancelled
  unfolding cancel_waiters
  cancel-pending [] fs h a = absurd (cc a)
  cancel-pending (w ∷ ws) fs h a = elim (Bool-cases (eqb w.future i)) [
    | inl same ↦
        let q : w.future ≡ i = (eqb_iff w.future i).0 same in
        cancel-keeps cancelled ws (settle w.future cancelled fs) refl
          (rw q (settle_self cancelled fs h))
    | inr other ↦
        cancel-pending ws (settle w.future cancelled fs)
          (settle_other w.future cancelled fs other ∙ h) (rw other at a)
  ]
