-- ===== src/Resilience/Retry/Attempts.antt =====
-- Which attempt decides a retried call, what the call ends in, and how long it slept.
use native.Mathlib.Decide.{ℕ_discrete}
use hermes_kernel_v.Prelude.{
  ◌∙◌, ap, subst, ℕ, zero, suc, ◌+◌, ◌-◌, ◌≤◌, ◌<◌, String, ◌≡◌, refl, ◌⊎◌, inl, inr, Bool, true,
  false, not, ◌||◌, List, [], ◌∷◌, ◌++◌, arith, leb, Bool-cases, if◌then◌else◌,
}
use hermes_kernel_v.Resilience.Domain.{
  Exc, Outcome, returned, raised, cancelled, describe, RetryPolicy, backoff_for, is_retryable,
}
use hermes_kernel_v.Resilience.Engine.{
  Effect, sleep_ms, append, publish, record_metric, ResilienceEngine,
}
use hermes_kernel_v.Resilience.Retry.{
  RetryResult, done, exhausted, interrupted, give_up, back_off, attempt_from, retry,
}

-- The milliseconds slept in a journal.
abbrev pub slept : List Effect → ℕ
slept [] = 0
slept (sleep_ms n ∷ l) = n + slept l
slept (append ev ∷ l) = slept l
slept (publish ev ∷ l) = slept l
slept (record_metric name label ∷ l) = slept l

slept-append : (xs ys : List Effect) → slept (xs ++ ys) ≡ slept xs + slept ys
slept-append [] ys = omega arith
slept-append (sleep_ms n ∷ l) ys = omega (arith, slept-append l ys)
slept-append (append ev ∷ l) ys = slept-append l ys
slept-append (publish ev ∷ l) ys = slept-append l ys
slept-append (record_metric name label ∷ l) ys = slept-append l ys

-- backoff_for 1 + … + backoff_for n
abbrev pub total_backoff : RetryPolicy → ℕ → ℕ
total_backoff pol zero = 0
total_backoff pol (suc n) = total_backoff pol n + backoff_for pol (suc n)

module _ {Task : Type 0} (A : Type 0) (pol : RetryPolicy) (tid : String) where
  slept-give_up :
      (n : ℕ) (exc : Exc) (e : ResilienceEngine Task)
      → slept (give_up {A = A} pol tid n exc e).1.journal ≡ slept e.journal
  unfolding give_up
  slept-give_up n exc e = simp slept-append (ground arith)

  result-give_up :
      (n : ℕ) (exc : Exc) (e : ResilienceEngine Task)
      → (give_up {A = A} pol tid n exc e).0 ≡ exhausted n (describe exc)
  unfolding give_up
  result-give_up n exc e = refl

module _ {Task : Type 0} (pol : RetryPolicy) (tid : String) where
  slept-back_off :
      (now n : ℕ) (exc : Exc) (e : ResilienceEngine Task)
      → slept (back_off pol tid now n exc e).journal ≡ slept e.journal + backoff_for pol n
  unfolding back_off
  slept-back_off now n exc e = simp slept-append (ground arith)

module _ {A : Type 0} (pol : RetryPolicy) (factory : ℕ → Outcome A) where
  -- The attempt raised, and its exception is one to retry.
  abbrev pub IsTransient : ℕ → Type 0
  IsTransient n = (exc : Exc) × (factory n ≡ raised exc) × (is_retryable pol exc ≡ true)

  abbrev pub EarlierTransient : ℕ → Type 0
  EarlierTransient n = (j : ℕ) → 1 ≤ j → j < n → IsTransient j

  -- The attempt is not tried again: it did not raise, or not what is retried, or it was the last.
  abbrev IsFinal : ℕ → Outcome A → Type 0
  IsFinal n (returned a) = Unit
  IsFinal n cancelled = Unit
  IsFinal n (raised exc) = (is_retryable pol exc ≡ false) ⊎ (n ≡ pol.max_attempts)

  extend : (n : ℕ) → EarlierTransient n → IsTransient n → EarlierTransient (n + 1)
  extend n earlier t j p q = elim (ℕ_discrete j n) [
    | yes e ↦ rw e t
    | no ne ↦ earlier j p (omega arith)
  ]

module _ (pol : RetryPolicy) (n : ℕ) where
  again : Exc → Bool
  again exc = not (not (is_retryable pol exc) || leb pol.max_attempts n)

  again-false :
      (exc : Exc)
      → again exc ≡ false
      → n ≤ pol.max_attempts
      → (is_retryable pol exc ≡ false) ⊎ (n ≡ pol.max_attempts)
  unfolding again
  again-false exc h q = ground arith

  again-true :
      (exc : Exc) → again exc ≡ true → (is_retryable pol exc ≡ true) × (n < pol.max_attempts)
  unfolding again
  again-true exc h = ground arith

  total_backoff-next :
      1 ≤ n → total_backoff pol (n + 1 - 1) ≡ total_backoff pol (n - 1) + backoff_for pol n
  total_backoff-next h =
      let e : n + 1 - 1 ≡ suc (n - 1) = omega arith in
      let e' : suc (n - 1) ≡ n = omega arith in
      rw e (ap (λ k. total_backoff pol (n - 1) + backoff_for pol k) e')

-- What the caller gets from the deciding attempt.
abbrev pub verdict : {A : Type 0} → ℕ → Outcome A → RetryResult A
verdict n (returned a) = done a
verdict n cancelled = interrupted
verdict n (raised exc) = exhausted n (describe exc)

Outcome-cases :
    {A : Type 0} (o : Outcome A)
    → ((exc : Exc) × (o ≡ raised exc)) ⊎ (((a : A) × (o ≡ returned a)) ⊎ (o ≡ cancelled))
Outcome-cases (raised exc) = inl (exc, refl)
Outcome-cases (returned a) = inr (inl (a, refl))
Outcome-cases cancelled = inr (inr refl)

module _ {Task : Type 0} {A : Type 0} (pol : RetryPolicy) (tid : String) (factory : ℕ → Outcome A)
    (clock : ℕ → ℕ) where
  -- Attempt `n` decides: all before it raised what is retried, and it does not go on itself.
  pub record Decides (start : ResilienceEngine Task) (end : RetryResult A × ResilienceEngine Task)
      (n : ℕ) : Type 0 where
    pub positive : 1 ≤ n
    pub in_budget : n ≤ pol.max_attempts
    pub earlier : EarlierTransient pol factory n
    pub final : IsFinal pol factory n (factory n)
    pub result : end.0 ≡ verdict n (factory n)
    pub waited : slept end.1.journal ≡ slept start.journal + total_backoff pol (n - 1)

  module _ (rounds attempt : ℕ) (last : String) (e : ResilienceEngine Task) where
    abbrev looped : RetryResult A × ResilienceEngine Task
    looped = attempt_from pol tid factory clock (suc rounds) attempt last e

    abbrev next_round : Exc → RetryResult A × ResilienceEngine Task
    next_round exc =
        attempt_from pol tid factory clock rounds (attempt + 1) (describe exc)
          (back_off pol tid (clock attempt) attempt exc e)

    looped-returned : (a : A) → factory attempt ≡ returned a → looped ≡ (done a, e)
    unfolding attempt_from
    looped-returned a h = rw (h, attempt_from)

    looped-cancelled : factory attempt ≡ cancelled → looped ≡ (interrupted, e)
    unfolding attempt_from
    looped-cancelled h = rw (h, attempt_from)

    looped-raised :
        (exc : Exc)
        → factory attempt ≡ raised exc
        → looped ≡ (if again pol attempt exc then next_round exc else give_up pol tid attempt exc e)
    unfolding attempt_from again
    looped-raised exc h =
        rw (h, attempt_from)
          (elim (Bool-cases (not (is_retryable pol exc) || leb pol.max_attempts attempt)) [
            | inl b ↦ rw b
            | inr b ↦ rw b
          ])

    module _ (start : ResilienceEngine Task) (p : 1 ≤ attempt) (q : attempt ≤ pol.max_attempts)
        (earlier : EarlierTransient pol factory attempt)
        (w : slept e.journal ≡ slept start.journal + total_backoff pol (attempt - 1)) where
      stops :
          (end : RetryResult A × ResilienceEngine Task)
          → looped ≡ end
          → IsFinal pol factory attempt (factory attempt)
          → end.0 ≡ verdict attempt (factory attempt)
          → slept end.1.journal ≡ slept e.journal
          → Decides start looped attempt
      stops end l f r s = record {
        positive = p;
        in_budget = q;
        earlier = earlier;
        final = f;
        result = ap (λ x. x.0) l ∙ r;
        waited = ap (λ x. slept x.1.journal) l ∙ s ∙ w;
      }

      -- Either the loop stops with this attempt, or it goes on to the next.
      stop_or_go :
          Decides start looped attempt
          ⊎ ((exc : Exc) × (looped ≡ next_round exc)
              × IsTransient pol factory attempt
              × (attempt < pol.max_attempts))
      stop_or_go = elim (Outcome-cases (factory attempt)) [
        | inr (inl (a, h)) ↦ inl (stops (done a, e) (looped-returned a h) (rw h tt) (rw h) refl)
        | inr (inr h) ↦ inl (stops (interrupted, e) (looped-cancelled h) (rw h tt) (rw h) refl)
        | inl (exc, h) ↦ elim (Bool-cases (again pol attempt exc)) [
          | inl go ↦
              let (t, lt) = again-true pol attempt exc go in
              inr (exc, looped-raised exc h ∙ rw go, (exc, h, t), lt)
          | inr stop ↦ inl (
              stops (give_up pol tid attempt exc e) (looped-raised exc h ∙ rw stop)
                (rw h (again-false pol attempt exc stop q))
                (rw h (result-give_up A pol tid attempt exc e))
                (slept-give_up A pol tid attempt exc e))
        ]
      ]

  attempt_from-Decides :
      (rounds attempt : ℕ) (last : String) (start e : ResilienceEngine Task)
      → 1 ≤ attempt
      → attempt + rounds ≡ pol.max_attempts
      → EarlierTransient pol factory attempt
      → slept e.journal ≡ slept start.journal + total_backoff pol (attempt - 1)
      → (n : ℕ) × Decides start (looped rounds attempt last e) n
  attempt_from-Decides zero attempt last start e p q earlier w =
      elim (stop_or_go zero attempt last e start p (omega arith) earlier w) [
        | inl d ↦ (attempt, d)
        | inr (exc, l, t, lt) ↦ absurd (omega arith)
      ]
  attempt_from-Decides (suc rounds) attempt last start e p q earlier w =
      elim (stop_or_go (suc rounds) attempt last e start p (omega arith) earlier w) [
        | inl d ↦ (attempt, d)
        | inr (exc, l, t, lt) ↦
            let (n, d) =
              attempt_from-Decides rounds (attempt + 1) (describe exc) start
                (back_off pol tid (clock attempt) attempt exc e) (omega arith) (omega arith)
                (extend pol factory attempt earlier t)
                (omega (
                  arith,
                  slept-back_off pol tid (clock attempt) attempt exc e,
                  total_backoff-next pol attempt p,
                  w,
                )) in
            (n, rw l d)
      ]

  -- With at least one attempt allowed, a retried call is decided by one attempt within the budget:
  -- every earlier one raised an exception that the policy retries, and this one returned, was
  -- cancelled, or raised what is not retried or with the budget used up. The caller gets its value,
  -- the cancellation, or `RetryExhaustedError` with its number and its error, and the call has slept
  -- exactly the backoff of every earlier attempt.
  pub retry-Decides :
      (e : ResilienceEngine Task)
      → 1 ≤ pol.max_attempts
      → (n : ℕ) × Decides e (retry pol tid factory clock e) n
  unfolding retry
  retry-Decides e h =
      let (n, d) =
        attempt_from-Decides (pol.max_attempts - 1) 1 "" e e (omega arith) (omega arith)
          (λ j p q. absurd (omega arith)) (omega arith) in
      let m : suc (pol.max_attempts - 1) ≡ pol.max_attempts = omega arith in
      (n, subst (λ k. Decides e (attempt_from pol tid factory clock k 1 "" e) n) m d)
