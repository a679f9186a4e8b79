-- ===== src/Swarm/Membership.antt =====
-- Creating, joining and leaving a swarm, and heartbeats.
pub mod Leaders
pub mod Joining
pub mod Soundness
use hermes_kernel_v.Prelude.{
  ℕ, String, Bool, true, false, not, ◌&&◌, ◌||◌, ◌==◌, List, [], ◌∷◌, ◌++◌, Option, none, some,
  is_none, is_some, any, if◌then◌else◌,
}
use hermes_kernel_v.Prelude.Dict
use hermes_kernel_v.Prelude.Dict.{Dict}
use hermes_kernel_v.Swarm.Domain.{
  SwarmTopology, leader_worker, SwarmMember, healthy, Swarm, is_leader_worker,
}
use hermes_kernel_v.Swarm.State.{
  agent_joined, agent_left, heartbeat_received, NodeEntry, Coordinator, publish, put_swarm,
}
use hermes_kernel_v.Swarm.Election.{run_election, on_node, same_id}

abbrev pub fresh_swarm : String → SwarmTopology → Swarm
fresh_swarm swarm_id topology = record {
  swarm_id = swarm_id;
  topology = topology;
  members = [];
  leader_id = none;
}

-- `swarm_id in self._store.list()` compares a text with `Swarm` objects, to which no text is equal.
equals_swarm : String → Swarm → Bool
equals_swarm swarm_id swarm = false

unfoldable pub create_swarm : String → SwarmTopology → Coordinator → Swarm × Coordinator
unfolding equals_swarm put_swarm
create_swarm swarm_id topology c =
    let fresh = fresh_swarm swarm_id topology in
    if any (equals_swarm swarm_id) (Dict.values c.swarms)
    then elim (Dict.get swarm_id c.swarms) [ none ↦ (fresh, c) | some swarm ↦ (swarm, c) ]
    else (fresh, put_swarm fresh c)

-- The swarm behind an id: a new one, of the default topology, where there is none.
unfoldable pub find_swarm : String → Coordinator → Swarm × Coordinator
unfolding create_swarm
find_swarm swarm_id c = elim (Dict.get swarm_id c.swarms) [
  | none ↦ create_swarm swarm_id leader_worker c
  | some swarm ↦ (swarm, c)
]

unfoldable pub join : String → SwarmMember → ℕ → Swarm × Coordinator → Coordinator
unfolding put_swarm publish run_election
join swarm_id member now (swarm, c) =
    let swarm' = record swarm { members = Dict.put member.agent_id member swarm.members } in
    let c' =
      publish
        (agent_joined swarm_id member.agent_id member.node_id member.role member.capabilities ∷ [])
        (put_swarm swarm' (record c { last_beat = Dict.put member.agent_id now c.last_beat })) in
    if is_leader_worker swarm'.topology && is_none swarm'.leader_id
    then (run_election swarm_id c').1
    else c'

-- The member that is returned is the argument; it is healthy.
unfoldable pub join_swarm :
    String → (agent_id node_id role : String) → List String → ℕ → Coordinator → Coordinator
unfolding find_swarm join
join_swarm swarm_id agent_id node_id role capabilities now c =
    join swarm_id
      (record {
        agent_id = agent_id;
        node_id = node_id;
        role = role;
        health = healthy;
        capabilities = capabilities;
      })
      now (find_swarm swarm_id c)

leave : String → String → String → Swarm → Coordinator → Coordinator
unfolding put_swarm publish run_election
leave swarm_id agent_id reason swarm c =
    let swarm' = record swarm { members = Dict.pop agent_id swarm.members } in
    let c' = publish (agent_left swarm_id agent_id reason ∷ []) (put_swarm swarm' c) in
    if same_id swarm.leader_id (some agent_id)
    then (run_election swarm_id (put_swarm (record swarm' { leader_id = none }) c')).1
    else c'

unfoldable pub leave_swarm : String → String → String → Coordinator → Coordinator
unfolding leave
leave_swarm swarm_id agent_id reason c = elim (Dict.get swarm_id c.swarms) [
  | none ↦ c
  | some swarm ↦ elim (Dict.get agent_id swarm.members) [
    | none ↦ c
    | some member ↦ leave swarm_id agent_id reason swarm c
  ]
]

unfoldable pub track_node : String → List String → ℕ → Coordinator → Coordinator
track_node node_id capabilities now c = record c {
  nodes =
      Dict.put node_id
        (record {
          node_id = node_id;
          capabilities = capabilities;
          load_score = 0;
          last_seen = now;
          agent_ids = [];
        })
        c.nodes;
}

-- A heartbeat that comes from the member's own node makes it healthy.
unfoldable pub beat_swarm : String → String → Swarm → Swarm
beat_swarm node_id agent_id swarm = elim (Dict.get agent_id swarm.members) [
  | none ↦ swarm
  | some m ↦
      if on_node node_id m
      then record swarm {
        members = Dict.put agent_id (record m { health = healthy }) swarm.members;
      }
      else swarm
]

unfoldable pub beat_swarms : String → String → Dict Swarm → Dict Swarm
unfolding beat_swarm
beat_swarms node_id agent_id [] = []
beat_swarms node_id agent_id ((swarm_id, swarm) ∷ swarms) =
    (swarm_id, beat_swarm node_id agent_id swarm) ∷ beat_swarms node_id agent_id swarms

abbrev pub mentions : String → List String → Bool
mentions agent_id ids = any (λ a. a == agent_id) ids

beat_node : String → ℕ → ℕ → NodeEntry → NodeEntry
beat_node agent_id load_score now node = record node {
  last_seen = now;
  load_score = load_score;
  agent_ids =
      if mentions agent_id node.agent_ids then node.agent_ids else node.agent_ids ++ agent_id ∷ [];
}

unfoldable pub handle_heartbeat : String → String → ℕ → ℕ → Coordinator → Coordinator
unfolding beat_swarms beat_node publish
handle_heartbeat node_id agent_id load_score now c =
    publish (heartbeat_received node_id agent_id now load_score ∷ []) (record c {
      swarms = beat_swarms node_id agent_id c.swarms;
      nodes = elim (Dict.get node_id c.nodes) [
        | none ↦ c.nodes
        | some node ↦ Dict.put node_id (beat_node agent_id load_score now node) c.nodes
      ];
      load = Dict.put agent_id load_score c.load;
      last_beat = Dict.put agent_id now c.last_beat;
    })
