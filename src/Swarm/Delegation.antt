-- ===== src/Swarm/Delegation.antt =====
-- Handing a task to the least loaded member that can do it.
pub mod Choice
use hermes_kernel_v.Prelude.{
  ℕ, String, Bool, true, false, not, ◌&&◌, ◌||◌, ◌==◌, List, [], ◌∷◌, Option, none, some, filterb,
  any, ltb, eqb, if◌then◌else◌, text_leb,
}
use hermes_kernel_v.Prelude.Dict
use hermes_kernel_v.Swarm.Domain.{
  SwarmMember, Swarm, is_unhealthy, TaskDelegation, pending, completed, Task,
}
use hermes_kernel_v.Swarm.State.{
  task_delegated, task_completed, Coordinator, publish, put_delegation,
}
use hermes_kernel_v.Swarm.Election.{same_id}

-- `cap is None or cap in m.capabilities`
abbrev pub can_do : Option String → SwarmMember → Bool
can_do none m = true
can_do (some cap) m = any (λ k. k == cap) m.capabilities

-- Not the sender, healthy or suspected, and able.
unfoldable pub is_eligible : String → Option String → SwarmMember → Bool
is_eligible from_agent cap m =
    not (m.agent_id == from_agent) && (not (is_unhealthy m.health) && can_do cap m)

abbrev pub load_of : Coordinator → SwarmMember → ℕ
load_of c m = Dict.get_or m.agent_id 0 c.load

-- `self._rr.get(swarm_id) == m.agent_id`
abbrev pub was_last : String → Coordinator → SwarmMember → Bool
was_last swarm_id c m = same_id (Dict.get swarm_id c.rr) (some m.agent_id)

-- The tuples `(load, was last, agent_id)` in their order, `False` before `True`: is `m` before `k`?
unfoldable pub comes_before : String → Coordinator → SwarmMember → SwarmMember → Bool
comes_before swarm_id c m k =
    if ltb (load_of c m) (load_of c k)
    then true
    else if not (eqb (load_of c m) (load_of c k))
    then false
    else if was_last swarm_id c m
    then if was_last swarm_id c k then not (text_leb k.agent_id m.agent_id) else false
    else if was_last swarm_id c k
    then true
    else not (text_leb k.agent_id m.agent_id)

-- The head of the sorted list: the sort is stable, so a later member wins only by a lesser key.
unfoldable pub first_sorted : String → Coordinator → SwarmMember → List SwarmMember → SwarmMember
unfolding comes_before
first_sorted swarm_id c best [] = best
first_sorted swarm_id c best (m ∷ ms) =
    let next = if comes_before swarm_id c m best then m else best in first_sorted swarm_id c next ms

pub data DelegationError : Type 0 where
  swarm_not_found no_eligible_member : DelegationError

pub data Delegated : Type 0 where
  is_refused : DelegationError → Delegated
  handed_over : TaskDelegation → Task → Delegated

unfoldable pub choose : String → Option String → String → Coordinator → Swarm → Option SwarmMember
unfolding first_sorted is_eligible
choose swarm_id cap from_agent c swarm =
    elim (filterb (is_eligible from_agent cap) (Dict.values swarm.members)) [
      | [] ↦ none
      | m ∷ ms ↦ some (first_sorted swarm_id c m ms)
    ]

hand_over : String → String → Task → String → SwarmMember → Coordinator → Delegated × Coordinator
unfolding put_delegation publish
hand_over delegation_id swarm_id task from_agent chosen c =
    let d : TaskDelegation = record {
      delegation_id = delegation_id;
      task_id = task.id;
      from_agent = from_agent;
      to_agent = chosen.agent_id;
      swarm_id = swarm_id;
      status = pending;
    } in
    (
      handed_over d (record task { assigned_to = some chosen.agent_id }),
      publish (task_delegated delegation_id task.id from_agent chosen.agent_id swarm_id ∷ []) (
          put_delegation d (record c {
            rr = Dict.put swarm_id chosen.agent_id c.rr;
            delegations = Dict.put delegation_id d c.delegations;
          })),
    )

unfoldable pub delegate_task :
    String → String → Task → String → Coordinator → Delegated × Coordinator
unfolding choose hand_over
delegate_task delegation_id swarm_id task from_agent c = elim (Dict.get swarm_id c.swarms) [
  | none ↦ (is_refused swarm_not_found, c)
  | some swarm ↦ elim (choose swarm_id task.capability from_agent c swarm) [
    | none ↦ (is_refused no_eligible_member, c)
    | some chosen ↦ hand_over delegation_id swarm_id task from_agent chosen c
  ]
]

-- `KeyError` is `none`. The delegation object is the one that the store holds, too.
unfoldable pub complete_delegation :
    String → String → Coordinator → Option TaskDelegation × Coordinator
unfolding put_delegation publish
complete_delegation delegation_id result_summary c = elim (Dict.get delegation_id c.delegations) [
  | none ↦ (none, c)
  | some d ↦
      let d' = record d { status = completed } in
      (
        some d',
        publish (task_completed delegation_id d.task_id result_summary ∷ []) (
            put_delegation d' (record c { delegations = Dict.put delegation_id d' c.delegations })),
      )
]
