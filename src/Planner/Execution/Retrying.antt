-- ===== src/Planner/Execution/Retrying.antt =====
-- How a step is retried.
use mathlib.Core.List.{append_assoc}
use native.Mathlib.Nat.{two-pow-succ}
use hermes_kernel_v.Prelude.{
  ℕ, zero, suc, ◌+◌, ◌^◌, ◌≤◌, ◌≡◌, refl, ap, ◌∙◌, Bool, true, false, not, ◌&&◌, List, [], ◌∷◌,
  ◌++◌, Option, some, arith, if◌then◌else◌, and-both,
}
use hermes_kernel_v.Planner.Domain.{Plan, PlanStep, success}
use hermes_kernel_v.Planner.Execution.{
  Effect, step_executed, slept, plan_adapted, Planner, World, is_success, call_executor,
  record_outcome, emit, attempt, execute_step_with_retry, plan_created, step_planned,
  replan_triggered,
}

-- The next calls of the executor for the step all fail.
abbrev pub all_fail : World → PlanStep → (calls : ℕ) → ℕ → Bool
all_fail w step calls zero = true
all_fail w step calls (suc k) =
    not (is_success (w.perform calls step).status) && all_fail w step (suc calls) k

-- What the failing calls leave behind, each with a pause twice as long as the one before.
abbrev pub retries : World → Plan → PlanStep → (calls retry : ℕ) → ℕ → List Effect
retries w plan step calls retry zero = []
retries w plan step calls retry (suc k) =
    step_executed plan.plan_id step.step_id (w.perform calls step).status (suc retry)
    ∷ slept (2 ^ retry)
    ∷ retries w plan step (suc calls) (suc retry) k

abbrev pub paused_for : List Effect → ℕ
paused_for [] = 0
paused_for (slept s ∷ es) = s + paused_for es
paused_for (plan_created _ _ _ _ ∷ es) = paused_for es
paused_for (step_planned _ _ _ _ _ ∷ es) = paused_for es
paused_for (step_executed _ _ _ _ ∷ es) = paused_for es
paused_for (replan_triggered _ _ _ ∷ es) = paused_for es
paused_for (plan_adapted _ _ _ ∷ es) = paused_for es

paused_for-retries :
    (w : World) (plan : Plan) (step : PlanStep) (calls retry k : ℕ)
    → paused_for (retries w plan step calls retry k) + 2 ^ retry ≡ 2 ^ (retry + k)
paused_for-retries w plan step calls retry zero =
    let e : retry + 0 ≡ retry = omega arith in omega (arith, ap (λ (n : ℕ). 2 ^ n) e)
paused_for-retries w plan step calls retry (suc k) =
    let e : suc retry + k ≡ retry + suc k = omega arith in
    omega (
      arith,
      paused_for-retries w plan step (suc calls) (suc retry) k,
      two-pow-succ retry,
      ap (λ (n : ℕ). 2 ^ n) e,
    )

zero_plus : (k : ℕ) → 0 + k ≡ k
zero_plus k = omega arith

-- The run ends with the step's success.
pub record Succeeds (w : World) (plan : Plan) (step : PlanStep) (retry k : ℕ) (p : Planner)
    (o : Option Planner) : Type 0 where
  pub end : Planner
  pub returned : o ≡ some end
  pub called : end.calls ≡ p.calls + k + 1
  pub effects :
      end.effects
      ≡ p.effects
        ++ (retries w plan step p.calls retry k
            ++ step_executed plan.plan_id step.step_id success (retry + k) ∷ [])
  pub same_plans : end.plans ≡ p.plans

-- The executor's call succeeds: the effects end with it.
Succeeds-now :
    (w : World) (plan : Plan) (step : PlanStep) (retry : ℕ) (p : Planner) (others : Option Planner)
    → is_success (w.perform p.calls step).status ≡ true
    → Succeeds w plan step retry 0 p (
        if is_success (call_executor w step retry p).0.status
        then some (
            emit
              (step_executed plan.plan_id step.step_id success retry)
              (call_executor w step retry p).1)
        else others)
unfolding call_executor record_outcome
Succeeds-now w plan step retry p others g = rw g (record {
  end = _;
  returned = refl;
  called = omega arith;
  effects =
      ap (λ r. p.effects ++ step_executed plan.plan_id step.step_id success r ∷ []) (omega arith);
  same_plans = refl;
})

-- One more failing call before a success.
fails_first :
    (w : World) (plan : Plan) (step : PlanStep) (retry k : ℕ) (p p' : Planner) (o : Option Planner)
    → p'.effects
      ≡ p.effects
        ++ (step_executed plan.plan_id step.step_id (w.perform p.calls step).status (suc retry)
            ∷ slept (2 ^ retry)
            ∷ [])
    → p'.calls ≡ suc p.calls
    → p'.plans ≡ p.plans
    → Succeeds w plan step (suc retry) k p' o
    → Succeeds w plan step retry (suc k) p o
fails_first w plan step retry k p p' o es cs ps h = record {
  end = h.end;
  returned = h.returned;
  called = omega (arith, h.called, cs);
  effects =
      let e : suc retry + k ≡ retry + suc k = omega arith in
      h.effects
      ∙ rw (es, cs, e)
          (append_assoc p.effects
            (step_executed plan.plan_id step.step_id (w.perform p.calls step).status (suc retry)
              ∷ slept (2 ^ retry)
              ∷ [])
            (retries w plan step (suc p.calls) (suc retry) k
              ++ step_executed plan.plan_id step.step_id success (retry + suc k) ∷ []));
  same_plans = h.same_plans ∙ ps;
}

attempt-Succeeds :
    (w : World) (plan : Plan) (step : PlanStep) (budget retry k : ℕ) (p : Planner)
    → k ≤ budget
    → all_fail w step p.calls k ≡ true
    → is_success (w.perform (p.calls + k) step).status ≡ true
    → Succeeds w plan step retry k p (attempt w plan step budget retry p)
unfolding attempt call_executor
attempt-Succeeds w plan step zero retry zero p h f g =
    let now : p.calls + 0 ≡ p.calls = omega arith in
    Succeeds-now w plan step retry p _ (rw now at g)
attempt-Succeeds w plan step zero retry (suc k) p h f g = absurd (omega arith)
attempt-Succeeds w plan step (suc budget) retry zero p h f g =
    let now : p.calls + 0 ≡ p.calls = omega arith in
    Succeeds-now w plan step retry p _ (rw now at g)
attempt-Succeeds w plan step (suc budget) retry (suc k) p h f g =
    let (first, others) =
      and-both (not (is_success (w.perform p.calls step).status)) (all_fail w step (suc p.calls) k)
        f in
    let failing : is_success (w.perform p.calls step).status ≡ false = ground (arith, first) in
    let e : p.calls + suc k ≡ suc p.calls + k = omega arith in
    rw failing (
      fails_first w plan step retry k p _ _ refl refl refl
        (attempt-Succeeds w plan step budget (suc retry) k _ (omega arith) others (rw e at g)))

-- Where the first k calls of the executor for a step fail, within its retry budget, and the next one
-- succeeds, the step is run just k + 1 times, after a failing call the run pauses twice as long as
-- after the one before, 2 ^ k - 1 in all, and the step's success is the last thing announced; no plan
-- is touched.
pub execute_step_with_retry-Succeeds :
    (w : World) (plan : Plan) (step : PlanStep) (k : ℕ) (p : Planner)
    → k ≤ step.retry_budget
    → all_fail w step p.calls k ≡ true
    → is_success (w.perform (p.calls + k) step).status ≡ true
    → Succeeds w plan step 0 k p (execute_step_with_retry w plan step p)
      × (paused_for (retries w plan step p.calls 0 k) + 1 ≡ 2 ^ k)
unfolding execute_step_with_retry
execute_step_with_retry-Succeeds w plan step k p h f g = (
  attempt-Succeeds w plan step step.retry_budget 0 k p h f g,
  omega (arith, paused_for-retries w plan step p.calls 0 k, ap (λ (n : ℕ). 2 ^ n) (zero_plus k)),
)
