-- ===== src/Workflow/Attempts.antt =====
-- The attempts of one step come to an end.
use hermes_kernel_v.Prelude.{
  ℕ, zero, suc, ◌+◌, ◌≤◌, ◌<◌, ◌≡◌, refl, inl, inr, true, false, not, ◌&&◌, List, Option, some,
  arith, eqb, ltb, Bool-cases,
}
use text.Mathlib.Text.{starts_with}
use hermes_kernel_v.Prelude.Dict
use hermes_kernel_v.Prelude.Dict.{get_or-put_self}
use hermes_kernel_v.Workflow.Domain.{
  Engine, WorkflowStep, WorkflowInstance, failed, Run, Effect, Ending, produced, denied, raised,
  cancelled,
}
use hermes_kernel_v.Workflow.Compensation.{compensate}
use hermes_kernel_v.Workflow.{
  settle, attempt_from, attempt_of, counted, complete, exhaust, next_after,
}
use hermes_kernel_v.Workflow.Approval.{goes_on, is_running, is_cancelled}

exhaust-failed :
    (eng : Engine) (steps : List WorkflowStep) (step : WorkflowStep) (attempt : ℕ)
    (inst : WorkflowInstance)
    → (exhaust eng steps step attempt inst).0.status ≡ failed
unfolding exhaust compensate
exhaust-failed eng steps step attempt inst = ground arith

-- Where a call returns a run after which the workflow goes on, it goes on with the next step.
pub record IsStepped (steps : List WorkflowStep) (step : WorkflowStep) (o : Option Run)
    : Type 0 where
  pub run : Run
  pub returned : o ≡ some run
  pub onward : goes_on run ≡ true → run.instance.current_step_id ≡ next_after step.id steps

pub stopped : (r : Run) → is_running r.instance.status ≡ false → goes_on r ≡ false
stopped r h = ground arith

cancelled_stops : (r : Run) → is_cancelled r.answer ≡ true → goes_on r ≡ false
cancelled_stops r h = ground arith

-- A run after which the workflow does not go on is one of any step.
halted-IsStepped :
    (steps : List WorkflowStep) (step : WorkflowStep) (r : Run)
    → goes_on r ≡ false
    → IsStepped steps step (some r)
halted-IsStepped steps step r h = record { run = r; returned = refl; onward = λ g. cc (h, g) }

stopped-IsStepped :
    (steps : List WorkflowStep) (step : WorkflowStep) (r : Run)
    → is_running r.instance.status ≡ false
    → IsStepped steps step (some r)
stopped-IsStepped steps step r h = halted-IsStepped steps step r (stopped r h)

cancelled-IsStepped :
    (steps : List WorkflowStep) (step : WorkflowStep) (r : Run)
    → is_cancelled r.answer ≡ true
    → IsStepped steps step (some r)
cancelled-IsStepped steps step r h = halted-IsStepped steps step r (cancelled_stops r h)

module _ (eng : Engine) (steps : List WorkflowStep) (step : WorkflowStep) where
  settle-IsStepped :
      (attempt : ℕ) (inst : WorkflowInstance) (effects : List Effect)
      (again : List Effect → Option Run) (ending : Ending)
      → (attempt < step.retry_policy.max_attempts
          → (so_far : List Effect) → IsStepped steps step (again so_far))
      → IsStepped steps step (settle eng steps step attempt inst effects again ending)
  unfolding settle complete
  settle-IsStepped attempt inst effects again (produced a) h = record {
    run = _;
    returned = refl;
    onward = λ g. refl;
  }
  settle-IsStepped attempt inst effects again denied h = stopped-IsStepped steps step _ refl
  settle-IsStepped attempt inst effects again cancelled h = cancelled-IsStepped steps step _ refl
  settle-IsStepped attempt inst effects again (raised text) h =
      elim (Bool-cases (ltb attempt step.retry_policy.max_attempts)) [
        | inl more ↦ rw (more, settle) (h (ground arith) _)
        | inr over ↦
            rw (over, settle)
              (stopped-IsStepped steps step _
                (rw (exhaust-failed eng steps step attempt inst) refl))
      ]

  pub attempt_from-IsStepped :
      (fuel : ℕ) (inst : WorkflowInstance) (effects : List Effect)
      → 0 < fuel
      → step.retry_policy.max_attempts ≤ Dict.get_or step.id 0 inst.step_attempts + fuel
      → IsStepped steps step (attempt_from fuel eng steps step inst effects)
  unfolding attempt_from
  attempt_from-IsStepped zero inst effects some_fuel enough = absurd (omega arith)
  attempt_from-IsStepped (suc fuel) inst effects some_fuel enough =
      let attempt = attempt_of step inst in
      let inst' = counted step inst in
      let count = get_or-put_self step.id 0 attempt inst.step_attempts in
      elim (Bool-cases (step.requires_approval && eqb attempt 1)) [
        | inl gate ↦ rw (gate, attempt_from) (stopped-IsStepped steps step _ refl)
        | inr open_gate ↦
            elim (Bool-cases (starts_with step.capability "mcp:" && not eng.has_mcp)) [
              | inl unwired ↦
                  rw (open_gate, unwired, attempt_from) (stopped-IsStepped steps step _ refl)
              | inr wired ↦
                  rw (open_gate, wired, attempt_from)
                    (settle-IsStepped attempt inst' _ _ (eng.perform step.id attempt)
                      (λ more so_far.
                        attempt_from-IsStepped fuel inst' so_far (omega arith)
                          (omega (arith, count))))
            ]
      ]
