-- ===== src/Examples/Swarm.antt =====
-- The swarm coordinator at concrete inputs.
use hermes_kernel_v.Prelude.{String, ◌≡◌, refl, true, [], ◌∷◌, none, some, filterb}
use hermes_kernel_v.Prelude.Dict
use hermes_kernel_v.Swarm.Domain.{
  SwarmMember, Swarm, healthy, leader_worker, Task, is_leader_worker,
}
use hermes_kernel_v.Swarm.State.{Coordinator, init, put_swarm, publish}
use hermes_kernel_v.Swarm.Election.{
  elect, run_election, get_leader, healthy_members, new_leader, last_sorted,
}
use hermes_kernel_v.Swarm.Election.Highest.{IsElected, run_election-highest}
use hermes_kernel_v.Swarm.Membership.{create_swarm, join_swarm, find_swarm, join}
use hermes_kernel_v.Swarm.Membership.Leaders.{serves}
use hermes_kernel_v.Swarm.Membership.Soundness.{Step, Reach, reachable-leader}
use hermes_kernel_v.Swarm.Delegation.{is_eligible, delegate_task}
use hermes_kernel_v.Swarm.Delegation.Choice.{IsHanded, delegate_task-IsHanded}

abbrev worker : String → SwarmMember
worker id = record {
  agent_id = id;
  node_id = "n1";
  role = "worker";
  health = healthy;
  capabilities = "search" ∷ [];
}

abbrev team : Swarm
team = record {
  swarm_id = "s1";
  topology = leader_worker;
  members = ("a", worker "a") ∷ ("b", worker "b") ∷ [];
  leader_id = some "a";
}

abbrev coordinated : Coordinator
coordinated = record (init 3000 10000) { swarms = ("s1", team) ∷ [] }

team_there : Dict.get "s1" coordinated.swarms ≡ some team
unfolding Dict.get
team_there = refl

run_election-highest_example :
    let r = run_election "s1" coordinated in
    IsElected (healthy_members team.members) r.0
    × ((get_leader "s1" r.1 ≡ r.0)
        × ((s' : Swarm) → Dict.get "s1" r.1.swarms ≡ some s' → s'.members ≡ team.members))
run_election-highest_example = run_election-highest "s1" team coordinated team_there refl

abbrev joined : Coordinator
joined = join_swarm "s1" "a" "n1" "worker" ("search" ∷ []) 7 (init 3000 10000)

abbrev alone : Swarm
alone = record {
  swarm_id = "s1";
  topology = leader_worker;
  members = ("a", worker "a") ∷ [];
  leader_id = some "a";
}

joined_state : Dict.get "s1" joined.swarms ≡ some alone
unfolding join_swarm find_swarm create_swarm join put_swarm publish run_election elect new_leader
    last_sorted Dict.get Dict.put
joined_state = refl

reachable-leader_example : serves "a" alone.members ≡ true
reachable-leader_example =
    reachable-leader 3000 10000 "s1"
      (Reach.next Reach.here (Step.joins "s1" "a" "n1" "worker" ("search" ∷ []) 7)) joined_state
      refl

found_topology : is_leader_worker (find_swarm "s1" coordinated).0.topology ≡ true
unfolding find_swarm Dict.get
found_topology = refl

found_id : (find_swarm "s1" coordinated).0.swarm_id ≡ "s1"
unfolding find_swarm Dict.get
found_id = refl

abbrev errand : Task
errand = record { id = "t1"; capability = some "search"; assigned_to = none }

delegate_task-IsHanded_example :
    IsHanded "s1" coordinated
      (filterb (is_eligible "a" (some "search")) (Dict.values team.members))
      (delegate_task "d1" "s1" errand "a" coordinated).0
delegate_task-IsHanded_example =
    delegate_task-IsHanded "s1" coordinated "d1" team errand "a" team_there
