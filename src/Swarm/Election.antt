-- ===== src/Swarm/Election.antt =====
-- Leadership of one swarm, and the heartbeat checks that may change it.
pub mod Highest
use hermes_kernel_v.Prelude.{
  ℕ, ◌+◌, ◌-◌, ◌*◌, ◌/◌, String, Bool, true, false, not, ◌&&◌, ◌||◌, ◌==◌, List, [], ◌∷◌, ◌++◌,
  Option, none, some, filterb, leb, if◌then◌else◌, text_leb,
}
use hermes_kernel_v.Prelude.Dict
use hermes_kernel_v.Prelude.Dict.{Dict}
use hermes_kernel_v.Swarm.Domain.{
  SwarmMember, healthy, suspected, unhealthy, Swarm, is_healthy, is_unhealthy,
}
use hermes_kernel_v.Swarm.State.{
  SwarmEvent, leader_elected, node_partitioned, heartbeat_missed, Coordinator, publish, put_swarm,
}

abbrev pub healthy_members : Dict SwarmMember → List SwarmMember
healthy_members members = filterb (λ m. is_healthy m.health) (Dict.values members)

-- `sorted(candidates, key=agent_id)[-1]`: the last of those with the greatest id.
unfoldable pub last_sorted : SwarmMember → List SwarmMember → SwarmMember
last_sorted best [] = best
last_sorted best (m ∷ ms) =
    let next = if text_leb best.agent_id m.agent_id then m else best in last_sorted next ms

unfoldable pub new_leader : Dict SwarmMember → Option String
unfolding last_sorted
new_leader members = elim (healthy_members members) [
  | [] ↦ none
  | m ∷ ms ↦ some (last_sorted m ms).agent_id
]

abbrev pub same_id : Option String → Option String → Bool
same_id none none = true
same_id (some a) (some b) = a == b
same_id _ _ = false

-- `_run_election` on the swarm object that it looks up.
unfoldable pub elect : Swarm → Swarm × List SwarmEvent
unfolding new_leader
elect swarm =
    let leader = new_leader swarm.members in
    if same_id leader swarm.leader_id then (swarm, []) else (
      record swarm { leader_id = leader },
      leader_elected swarm.swarm_id leader swarm.leader_id ∷ [],
    )

unfoldable pub run_election : String → Coordinator → Option String × Coordinator
unfolding elect put_swarm publish
run_election swarm_id c = elim (Dict.get swarm_id c.swarms) [
  | none ↦ (none, c)
  | some swarm ↦
      let (swarm', events) = elect swarm in (swarm'.leader_id, publish events (put_swarm swarm' c))
]

abbrev pub get_leader : String → Coordinator → Option String
get_leader swarm_id c = elim (Dict.get swarm_id c.swarms) [
  | none ↦ none
  | some swarm ↦ swarm.leader_id
]

abbrev pub on_node : String → SwarmMember → Bool
on_node node_id m = m.node_id == node_id

agents_on : String → Dict SwarmMember → List String
agents_on node_id [] = []
agents_on node_id ((agent_id, m) ∷ members) =
    let rest = agents_on node_id members in if on_node node_id m then agent_id ∷ rest else rest

-- The time since the last heartbeat, which counts as 0 where there was none.
abbrev pub age_of : ℕ → String → Dict ℕ → ℕ
age_of now agent_id last_beat = now - Dict.get_or agent_id 0 last_beat

-- The two timeouts and the heartbeats, which a check reads.
pub record Watch : Type 0 where
  pub now : ℕ
  pub suspicion : ℕ
  pub failure : ℕ
  pub last_beat : Dict ℕ

-- `m.health = health`
abbrev pub with_health : String → SwarmMember → Swarm → Swarm
with_health agent_id m swarm = record swarm { members = Dict.put agent_id m swarm.members }

abbrev pub add_event : SwarmEvent → Swarm × List SwarmEvent → Swarm × List SwarmEvent
add_event event (swarm, events) = (swarm, event ∷ events)

-- A member that has failed; a leader that fails is replaced.
unfoldable pub fail_member : String → SwarmMember → Swarm → Swarm × List SwarmEvent
unfolding elect agents_on
fail_member agent_id m swarm =
    let swarm' = with_health agent_id (record m { health = unhealthy }) swarm in
    let partitioned = node_partitioned m.node_id (agents_on m.node_id swarm'.members) in
    if same_id swarm.leader_id (some agent_id)
    then add_event partitioned (elect (record swarm' { leader_id = none }))
    else (swarm', partitioned ∷ [])

-- One turn of the inner loop: whether the member is partitioned now, the swarm and the events.
unfoldable pub check_found : Watch → String → SwarmMember → Swarm → Bool × (Swarm × List SwarmEvent)
unfolding fail_member
check_found w agent_id m swarm =
    let age = age_of w.now agent_id w.last_beat in
    if leb w.failure age && not (is_unhealthy m.health)
    then (true, fail_member agent_id m swarm)
    else if leb w.suspicion age && is_healthy m.health
    then (
      false,
      (
        with_health agent_id (record m { health = suspected }) swarm,
        heartbeat_missed m.node_id agent_id (age / w.suspicion) ∷ [],
      ),
    )
    else (false, (swarm, []))

unfoldable pub check_member : Watch → String → Swarm → Bool × (Swarm × List SwarmEvent)
unfolding check_found
check_member w agent_id swarm = elim (Dict.get agent_id swarm.members) [
  | none ↦ (false, (swarm, []))
  | some m ↦ check_found w agent_id m swarm
]

-- The inner loop, over the members' ids at its start.
unfoldable pub check_members : Watch → List String → Swarm → List String × (Swarm × List SwarmEvent)
unfolding check_member
check_members w [] swarm = ([], (swarm, []))
check_members w (agent_id ∷ ids) swarm =
    let (hit, (swarm', events)) = check_member w agent_id swarm in
    let (hits, (swarm'', more)) = check_members w ids swarm' in
    (if hit then agent_id ∷ hits else hits, (swarm'', events ++ more))

abbrev pub ids_of : Dict SwarmMember → List String
ids_of [] = []
ids_of ((agent_id, m) ∷ members) = agent_id ∷ ids_of members

unfoldable pub check_swarms : Watch → Dict Swarm → List String × (Dict Swarm × List SwarmEvent)
unfolding check_members
check_swarms w [] = ([], ([], []))
check_swarms w ((swarm_id, swarm) ∷ swarms) =
    let (hits, (swarm', events)) = check_members w (ids_of swarm.members) swarm in
    let (hits', (swarms', events')) = check_swarms w swarms in
    (hits ++ hits', ((swarm_id, swarm') ∷ swarms', events ++ events'))

abbrev pub watch : ℕ → Coordinator → Watch
watch now c = record {
  now = now;
  suspicion = c.suspicion_timeout_ms * 1000;
  failure = c.failure_timeout_ms * 1000;
  last_beat = c.last_beat;
}

unfoldable pub check_partitions : ℕ → Coordinator → List String × Coordinator
unfolding check_swarms publish
check_partitions now c =
    let (hits, (swarms, events)) = check_swarms (watch now c) c.swarms in
    (hits, publish events (record c { swarms = swarms }))
