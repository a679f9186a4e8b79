-- ===== src/Workflow/Positions.antt =====
-- Where a step stands among the steps of a workflow.
use hermes_kernel_v.Prelude.{
  ℕ, ◌≤◌, ◌<◌, String, ◌≡◌, sym, ap, subst, ◌∙◌, inl, inr, Bool, true, false, not, ◌&&◌, ◌==◌,
  eq_iff, List, [], ◌∷◌, Option, none, some, arith, length, Bool-cases, if◌then◌else◌, and-both,
}
use hermes_kernel_v.Workflow.Domain.{WorkflowStep}
use hermes_kernel_v.Workflow.Compensation.{step_by_id}
use hermes_kernel_v.Workflow.{head_id, next_after}
use hermes_kernel_v.Workflow.Compensation.Undoing.{has_id}

-- No two steps share an id.
abbrev pub distinct : List WorkflowStep → Bool
distinct [] = true
distinct (s ∷ steps) = not (has_id s.id steps) && distinct steps

-- How many steps stand after the first one with this id.
abbrev pub left : String → List WorkflowStep → ℕ
left id [] = 0
left id (s ∷ steps) = if s.id == id then length steps else left id steps

pub left-length : (id : String) (steps : List WorkflowStep) → left id steps ≤ length steps
left-length id [] = omega arith
left-length id (s ∷ steps) = ground (arith, left-length id steps)

head_id-has_id :
    (id : String) (steps : List WorkflowStep) → head_id steps ≡ some id → has_id id steps ≡ true
head_id-has_id id [] h = ground arith
head_id-has_id id (s ∷ steps) h = ground (arith, h, eq_iff s.id id)

next_after-has_id :
    (id next : String) (steps : List WorkflowStep)
    → next_after id steps ≡ some next
    → has_id next steps ≡ true
unfolding next_after
next_after-has_id id next [] h = ground arith
next_after-has_id id next (s ∷ steps) h = elim (Bool-cases (s.id == id)) [
  | inl same ↦ ground (arith, head_id-has_id next steps (rw same at h))
  | inr other ↦ ground (arith, next_after-has_id id next steps (rw other at h))
]

left-head :
    (next : String) (steps : List WorkflowStep)
    → head_id steps ≡ some next
    → left next steps < length steps
left-head next [] h = ground arith
left-head next (s ∷ steps) h = ground (arith, h, eq_iff s.id next)

absent-left :
    (s : WorkflowStep) (next : String) (steps : List WorkflowStep)
    → distinct (s ∷ steps) ≡ true
    → has_id next steps ≡ true
    → (s.id == next) ≡ false
absent-left s next steps d h = elim (Bool-cases (s.id == next)) [
  | inl same ↦
      let there : has_id s.id steps ≡ true =
        subst (λ q. has_id q steps ≡ true) (sym ((eq_iff s.id next).0 same)) h in
      ground (arith, there, d)
  | inr other ↦ other
]

pub left-next_after :
    (id next : String) (steps : List WorkflowStep)
    → distinct steps ≡ true
    → next_after id steps ≡ some next
    → left next steps < left id steps
unfolding next_after
left-next_after id next [] d h = ground arith
left-next_after id next (s ∷ steps) d h = elim (Bool-cases (s.id == id)) [
  | inl same ↦
      let h' : head_id steps ≡ some next = rw same at h in
      let ne = absent-left s next steps d (head_id-has_id next steps h') in
      ground (arith, same, ne, left-head next steps h')
  | inr other ↦
      let h' : next_after id steps ≡ some next = rw other at h in
      let ne = absent-left s next steps d (next_after-has_id id next steps h') in
      ground (
        arith,
        other,
        ne,
        left-next_after id next steps (and-both (not (has_id s.id steps)) (distinct steps) d).1 h',
      )
]

abbrev id_of : Option WorkflowStep → String
id_of none = ""
id_of (some s) = s.id

pub step_by_id-id :
    (id : String) (steps : List WorkflowStep) (s : WorkflowStep)
    → step_by_id id steps ≡ some s
    → s.id ≡ id
unfolding step_by_id
step_by_id-id id [] s h = ground arith
step_by_id-id id (t ∷ steps) s h = elim (Bool-cases (t.id == id)) [
  | inl same ↦ let e : some t ≡ some s = rw same at h in sym (ap id_of e) ∙ (eq_iff t.id id).0 same
  | inr other ↦ step_by_id-id id steps s (rw other at h)
]
