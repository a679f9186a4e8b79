-- ===== src/Workflow/Driving.antt =====
-- An approved workflow is driven to an end.
use hermes_kernel_v.Prelude.{
  ℕ, zero, suc, ◌<◌, String, ◌≡◌, refl, sym, ap, subst, ◌∙◌, inl, inr, true, false, List, [], ◌++◌,
  Option, none, some, arith, length, Bool-cases, Option-cases,
}
use hermes_kernel_v.Workflow.Domain.{Engine, WorkflowStep, WorkflowInstance, paused, Run}
use hermes_kernel_v.Workflow.Compensation.{step_by_id}
use hermes_kernel_v.Workflow.{next_after, current_step, execute_step, execute_current, finished}
use hermes_kernel_v.Workflow.Approval.{goes_on, drive, approve, resumed, Approval, resume}
use hermes_kernel_v.Workflow.Positions.{distinct, left, left-length, left-next_after, step_by_id-id}
use hermes_kernel_v.Workflow.Attempts.{IsStepped, attempt_from-IsStepped, stopped}

-- A loop that ends, and has nothing more to do then.
pub record IsSettled (o : Option Run) : Type 0 where
  pub run : Run
  pub returned : o ≡ some run
  pub halted : goes_on run ≡ false

-- Enough rounds are left for the steps that are to come.
abbrev HasRounds : ℕ → List WorkflowStep → Run → Type 0
HasRounds fuel steps r =
    goes_on r ≡ true → (id : String) → r.instance.current_step_id ≡ some id → left id steps < fuel

nothing_stops : (r : Run) → r.instance.current_step_id ≡ none → goes_on r ≡ false
nothing_stops r h = ground arith

goes_on-current :
    (r : Run) → goes_on r ≡ true → (id : String) × (r.instance.current_step_id ≡ some id)
goes_on-current r h = elim (Option-cases r.instance.current_step_id) [
  | inl nothing ↦ absurd (cc (nothing_stops r nothing, h))
  | inr (id, e) ↦ (id, e)
]

current_step-found :
    (steps : List WorkflowStep) (inst : WorkflowInstance) (id : String)
    → inst.current_step_id ≡ some id
    → current_step steps inst ≡ step_by_id id steps
current_step-found steps inst id e = rw e refl

execute_step-current :
    (eng : Engine) (steps : List WorkflowStep) (inst : WorkflowInstance) (id : String)
    (found : Option WorkflowStep)
    → inst.current_step_id ≡ some id
    → step_by_id id steps ≡ found
    → execute_step eng steps inst ≡ execute_current eng steps inst found
unfolding execute_step
execute_step-current eng steps inst id found e h =
    ap (execute_current eng steps inst) (current_step-found steps inst id e ∙ h)

module _ (eng : Engine) (steps : List WorkflowStep) where
  -- The run after one more round.
  abbrev joined : Run → Run → Run
  joined r r' = record r' { effects = r.effects ++ r'.effects }

  drive-round :
      (fuel : ℕ) (r r' : Run)
      → goes_on r ≡ true
      → execute_step eng steps r.instance ≡ some r'
      → drive (suc fuel) eng steps r ≡ drive fuel eng steps (joined r r')
  unfolding drive
  drive-round fuel r r' more ran = rw (more, ran, drive) refl

  drive-over : (fuel : ℕ) (r : Run) → goes_on r ≡ false → IsSettled (drive fuel eng steps r)
  unfolding drive
  drive-over zero r over = rw (over, drive) (record { run = r; returned = refl; halted = over })
  drive-over (suc fuel) r over =
      rw (over, drive) (record { run = r; returned = refl; halted = over })

  HasRounds-next :
      (fuel : ℕ) (r r' : Run) (id : String) (step : WorkflowStep)
      → distinct steps ≡ true
      → left id steps < suc fuel
      → step.id ≡ id
      → (goes_on r' ≡ true → r'.instance.current_step_id ≡ next_after step.id steps)
      → HasRounds fuel steps (joined r r')
  HasRounds-next fuel r r' id step d few own onward on id' e' =
      let next : next_after id steps ≡ some id' =
        subst (λ q. next_after q steps ≡ some id') own (sym (onward on) ∙ e') in
      omega (arith, few, left-next_after id id' steps d next)

  drive-IsSettled :
      (fuel : ℕ) (r : Run)
      → distinct steps ≡ true
      → HasRounds fuel steps r
      → IsSettled (drive fuel eng steps r)
  drive-IsSettled zero r d h = elim (Bool-cases (goes_on r)) [
    | inl more ↦ let (id, e) = goes_on-current r more in absurd (omega (arith, h more id e))
    | inr over ↦ drive-over zero r over
  ]
  drive-IsSettled (suc fuel) r d h = elim (Bool-cases (goes_on r)) [
    | inl more ↦
        let (id, e) = goes_on-current r more in
        elim (Option-cases (step_by_id id steps)) [
          | inl unknown ↦
              let last : Run = finished r.instance in
              let ran = execute_step-current eng steps r.instance id none e unknown in
              subst IsSettled (sym (drive-round fuel r last more ran))
                (drive-over fuel (joined r last) (stopped (joined r last) refl))
          | inr (step, found) ↦
              let i =
                attempt_from-IsStepped eng steps step (suc step.retry_policy.max_attempts)
                  r.instance [] (omega arith) (omega arith) in
              let ran =
                execute_step-current eng steps r.instance id (some step) e found ∙ i.returned in
              subst IsSettled (sym (drive-round fuel r i.run more ran)) (
                drive-IsSettled fuel (joined r i.run) d (
                  HasRounds-next fuel r i.run id step d (h more id e)
                    (step_by_id-id id steps step found) i.onward))
        ]
    | inr over ↦ drive-over (suc fuel) r over
  ]

-- What approving a paused workflow ends in.
pub data IsResumed : Option Approval → Type 0 where
  ends : (r : Run) → goes_on r ≡ false → IsResumed (some (resumed r))

-- Where no two steps share an id, approving a paused workflow comes to an end, whatever the steps
-- end in and however often they are retried: there is no step left, the workflow is no longer
-- running (it is completed, failed or paused for another approval), or it was cancelled.
pub approve-IsResumed :
    (eng : Engine) (steps : List WorkflowStep) (inst : WorkflowInstance) (step_id : String)
    → distinct steps ≡ true
    → inst.status ≡ paused
    → IsResumed (approve eng steps inst step_id true)
unfolding approve
approve-IsResumed eng steps inst step_id d h =
    let i =
      drive-IsSettled eng steps (suc (length steps)) (resume inst) d
        (λ on id e. omega (arith, left-length id steps)) in
    rw (h, i.returned, approve) (ends i.run i.halted)

-- One call of `execute_step` on a step of the workflow comes to an end, whatever its attempts end
-- in, and if the workflow goes on after it, it goes on with the following step.
pub execute_step-IsStepped :
    (eng : Engine) (steps : List WorkflowStep) (inst : WorkflowInstance) (id : String)
    (step : WorkflowStep)
    → inst.current_step_id ≡ some id
    → step_by_id id steps ≡ some step
    → IsStepped steps step (execute_step eng steps inst)
execute_step-IsStepped eng steps inst id step e found =
    subst (IsStepped steps step) (sym (execute_step-current eng steps inst id (some step) e found))
      (attempt_from-IsStepped eng steps step (suc step.retry_policy.max_attempts) inst []
        (omega arith) (omega arith))
