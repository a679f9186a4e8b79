-- ===== src/Swarm/Delegation/Choice.antt =====
-- Whom a task is handed to.
use hermes_kernel_v.Prelude.{
  ◌≤◌, String, ◌≡◌, refl, sym, subst, inl, inr, Bool, true, false, ◌==◌, eq_refl, List, [], ◌∷◌,
  Option, none, some, arith, filterb, any, All, Bool-cases, text_leb_refl, text_leb_trans,
  text_leb-total,
}
use hermes_kernel_v.Prelude.Dict
use hermes_kernel_v.Swarm.Domain.{SwarmMember, Swarm, Task, TaskDelegation}
use hermes_kernel_v.Swarm.State.{Coordinator, publish, put_delegation}
use hermes_kernel_v.Swarm.Delegation.{
  is_eligible, load_of, was_last, comes_before, first_sorted, choose, hand_over, delegate_task,
  complete_delegation, Delegated, handed_over, is_refused, no_eligible_member,
}

pub delegate_task-swarms :
    (delegation_id k : String) (task : Task) (from_agent : String) (c : Coordinator)
    → (delegate_task delegation_id k task from_agent c).1.swarms ≡ c.swarms
unfolding delegate_task hand_over publish put_delegation
delegate_task-swarms delegation_id k task from_agent c = ground arith

pub complete_delegation-swarms :
    (delegation_id result_summary : String) (c : Coordinator)
    → (complete_delegation delegation_id result_summary c).1.swarms ≡ c.swarms
unfolding complete_delegation publish put_delegation
complete_delegation-swarms delegation_id result_summary c = ground arith

module _ (swarm_id : String) (c : Coordinator) where
  comes_before_trans :
      (a b d : SwarmMember)
      → comes_before swarm_id c a b ≡ true
      → comes_before swarm_id c b d ≡ true
      → comes_before swarm_id c a d ≡ true
  unfolding comes_before
  comes_before_trans a b d h k = ground (
    arith,
    text_leb_trans d.agent_id a.agent_id b.agent_id,
    text_leb-total b.agent_id a.agent_id,
    text_leb-total d.agent_id b.agent_id,
    h,
    k,
  )

  comes_before_irrefl : (a : SwarmMember) → comes_before swarm_id c a a ≡ false
  unfolding comes_before
  comes_before_irrefl a = ground (arith, text_leb_refl a.agent_id)

  -- No one of them comes before `best`, so that sorting would put `best` first.
  abbrev pub IsFirst : SwarmMember → List SwarmMember → Type 0
  IsFirst best ms = All (λ m. comes_before swarm_id c m best ≡ false) ms

  first_sorted-better :
      (best n : SwarmMember) (ms : List SwarmMember)
      → comes_before swarm_id c n best ≡ true
      → first_sorted swarm_id c best (n ∷ ms) ≡ first_sorted swarm_id c n ms
  unfolding first_sorted
  first_sorted-better best n ms better = rw (better, first_sorted) refl

  first_sorted-worse :
      (best n : SwarmMember) (ms : List SwarmMember)
      → comes_before swarm_id c n best ≡ false
      → first_sorted swarm_id c best (n ∷ ms) ≡ first_sorted swarm_id c best ms
  unfolding first_sorted
  first_sorted-worse best n ms worse = rw (worse, first_sorted) refl

  -- What is not before `best` is not before what is before `best`.
  not_before-better :
      (m n best : SwarmMember)
      → comes_before swarm_id c m best ≡ false
      → comes_before swarm_id c n best ≡ true
      → comes_before swarm_id c m n ≡ false
  not_before-better m n best h better = elim (Bool-cases (comes_before swarm_id c m n)) [
    | inl up ↦ cc (comes_before_trans m n best up better, h)
    | inr down ↦ down
  ]

  first_sorted-keeps :
      (m best : SwarmMember) (ms : List SwarmMember)
      → comes_before swarm_id c m best ≡ false
      → comes_before swarm_id c m (first_sorted swarm_id c best ms) ≡ false
  unfolding first_sorted
  first_sorted-keeps m best [] h = h
  first_sorted-keeps m best (n ∷ ms) h = elim (Bool-cases (comes_before swarm_id c n best)) [
    | inl better ↦
        rw (better, first_sorted) (first_sorted-keeps m n ms (not_before-better m n best h better))
    | inr worse ↦ rw (worse, first_sorted) (first_sorted-keeps m best ms h)
  ]

  before→not_after :
      (a b : SwarmMember) → comes_before swarm_id c a b ≡ true → comes_before swarm_id c b a ≡ false
  before→not_after a b h = not_before-better b a b (comes_before_irrefl b) h

  first_sorted-IsFirst :
      (best : SwarmMember) (ms : List SwarmMember)
      → IsFirst (first_sorted swarm_id c best ms) (best ∷ ms)
  unfolding first_sorted
  first_sorted-IsFirst best [] = (comes_before_irrefl best, tt)
  first_sorted-IsFirst best (n ∷ ms) = elim (Bool-cases (comes_before swarm_id c n best)) [
    | inl better ↦
        let ih = first_sorted-IsFirst n ms in
        subst (λ r. IsFirst r (best ∷ n ∷ ms)) (sym (first_sorted-better best n ms better))
          (first_sorted-keeps best n ms (before→not_after n best better), (ih.0, ih.1))
    | inr worse ↦
        let ih = first_sorted-IsFirst best ms in
        subst (λ r. IsFirst r (best ∷ n ∷ ms)) (sym (first_sorted-worse best n ms worse))
          (ih.0, (first_sorted-keeps n best ms worse, ih.1))
  ]

  first_sorted-any :
      (p : SwarmMember → Bool) (best : SwarmMember) (ms : List SwarmMember)
      → p (first_sorted swarm_id c best ms) ≡ true
      → any p (best ∷ ms) ≡ true
  unfolding first_sorted
  first_sorted-any p best [] h = ground arith
  first_sorted-any p best (n ∷ ms) h = elim (Bool-cases (comes_before swarm_id c n best)) [
    | inl better ↦
        let ih =
          first_sorted-any p n ms
            (subst (λ r. p r ≡ true) (first_sorted-better best n ms better) h) in
        ground (arith, ih)
    | inr worse ↦
        let ih =
          first_sorted-any p best ms
            (subst (λ r. p r ≡ true) (first_sorted-worse best n ms worse) h) in
        ground (arith, ih)
  ]

  -- `m` has no greater load than `k`; where it has had the last task and `k` has the same load, `k`
  -- has had it, too.
  abbrev pub IsFair : SwarmMember → SwarmMember → Type 0
  IsFair m k =
      (load_of c m ≤ load_of c k)
      × (was_last swarm_id c m ≡ true → load_of c k ≡ load_of c m → was_last swarm_id c k ≡ true)

  not_before→IsFair : (m k : SwarmMember) → comes_before swarm_id c k m ≡ false → IsFair m k
  unfolding comes_before
  not_before→IsFair m k h = (ground arith, λ last same. ground arith)

  IsFirst→IsFair : (m : SwarmMember) (ms : List SwarmMember) → IsFirst m ms → All (IsFair m) ms
  IsFirst→IsFair m [] h = tt
  IsFirst→IsFair m (k ∷ ms) h = (not_before→IsFair m k h.0, IsFirst→IsFair m ms h.1)

  -- What a delegation answers, told from the eligible members alone.
  pub data IsHanded (ms : List SwarmMember) : Delegated → Type 0 where
    nobody : ms ≡ [] → IsHanded ms (is_refused no_eligible_member)
    somebody :
        (m : SwarmMember) (d : TaskDelegation) (task : Task)
        → any (λ k. k.agent_id == m.agent_id) ms ≡ true
        → All (IsFair m) ms
        → d.to_agent ≡ m.agent_id
        → task.assigned_to ≡ some m.agent_id
        → IsHanded ms (handed_over d task)

  first_of : List SwarmMember → Option SwarmMember
  first_of ms = elim ms [ [] ↦ none | m ∷ ms' ↦ some (first_sorted swarm_id c m ms') ]

  answer : String → Task → String → Option SwarmMember → Delegated × Coordinator
  answer delegation_id task from_agent o = elim o [
    | none ↦ (is_refused no_eligible_member, c)
    | some chosen ↦ hand_over delegation_id swarm_id task from_agent chosen c
  ]

  -- In a known swarm a task is refused just where no member is eligible, and else handed to an
  -- eligible member with the least load, which has had the swarm's last task only where every other
  -- one with that load has.
  pub delegate_task-IsHanded :
      (delegation_id : String) (s : Swarm) (task : Task) (from_agent : String)
      → Dict.get swarm_id c.swarms ≡ some s
      → IsHanded
          (filterb (is_eligible from_agent task.capability) (Dict.values s.members))
          (delegate_task delegation_id swarm_id task from_agent c).0
  unfolding delegate_task choose hand_over first_of answer
  delegate_task-IsHanded delegation_id s task from_agent found =
      rw (found, delegate_task)
        (go (filterb (is_eligible from_agent task.capability) (Dict.values s.members)))
    where
      go :
          (ms : List SwarmMember)
          → IsHanded ms (answer delegation_id task from_agent (first_of ms)).0
      go [] = nobody refl
      go (m ∷ ms) =
          let best = first_sorted swarm_id c m ms in
          somebody best _ _
            (first_sorted-any (λ k. k.agent_id == best.agent_id) m ms (eq_refl best.agent_id))
            (IsFirst→IsFair best (m ∷ ms) (first_sorted-IsFirst m ms)) refl refl
