-- ===== src/Cluster.antt =====
-- kernel/cluster.py, `ClusterManager`. The clock's time and `node_timeout` are in microseconds, loads
-- in whole units, the sends of `broadcast` are collected. Event bus and event store show as one journal.
pub mod Leader
pub mod Pruning
use hermes_kernel_v.Prelude.{
  ℕ, ◌-◌, String, Bool, true, false, not, ◌==◌, List, [], ◌∷◌, ◌++◌, Option, none, some, is_none,
  any, ltb, if◌then◌else◌,
}
use hermes_kernel_v.Prelude.Dict
use hermes_kernel_v.Prelude.Dict.{Dict}

pub record NodeInfo : Type 0 where
  pub node_id : String
  pub address : String
  pub capabilities : List String
  pub last_heartbeat : ℕ
  pub load : ℕ

pub data ClusterEvent : Type 0 where
  node_joined : String → String → List String → ClusterEvent
  node_left : String → String → ClusterEvent

pub record ClusterManager : Type 0 where
  pub nodes : Dict NodeInfo
  pub leader : Option String
  pub node_timeout : ℕ
  pub journal : List ClusterEvent

abbrev pub init : ℕ → ClusterManager
init node_timeout = record { nodes = []; leader = none; node_timeout = node_timeout; journal = [] }

-- `min` keeps the first of those with the earliest heartbeat.
unfoldable pub earliest : NodeInfo → List NodeInfo → NodeInfo
earliest best [] = best
earliest best (n ∷ ns) =
    let next = if ltb n.last_heartbeat best.last_heartbeat then n else best in earliest next ns

unfoldable pub oldest : Dict NodeInfo → Option String
unfolding earliest
oldest nodes = elim (Dict.values nodes) [ [] ↦ none | n ∷ ns ↦ some (earliest n ns).node_id ]

unfoldable pub elect_leader : ClusterManager → ClusterManager
unfolding oldest
elect_leader m = record m { leader = oldest m.nodes }

unfoldable pub emit : ClusterEvent → ClusterManager → ClusterManager
emit event m = record m { journal = m.journal ++ event ∷ [] }

unfoldable pub join_cluster : String → String → List String → ℕ → ClusterManager → ClusterManager
unfolding elect_leader emit
join_cluster node_id address capabilities now m =
    let node : NodeInfo = record {
      node_id = node_id;
      address = address;
      capabilities = capabilities;
      last_heartbeat = now;
      load = 0;
    } in
    let m' = record m { nodes = Dict.put node_id node m.nodes } in
    emit (node_joined node_id address capabilities)
      (if is_none m'.leader then elect_leader m' else m')

abbrev pub leads : String → Option String → Bool
leads node_id none = false
leads node_id (some leader) = leader == node_id

unfoldable pub leave_cluster : String → String → ClusterManager → Bool × ClusterManager
unfolding elect_leader emit
leave_cluster node_id reason m = elim (Dict.get node_id m.nodes) [
  | none ↦ (false, m)
  | some node ↦
      let m' = record m { nodes = Dict.pop node_id m.nodes } in
      (
        true,
        emit (node_left node_id reason) (if leads node_id m'.leader then elect_leader m' else m'),
      )
]

unfoldable pub heartbeat : String → ℕ → ClusterManager → ClusterManager
heartbeat node_id now m = elim (Dict.get node_id m.nodes) [
  | none ↦ m
  | some node ↦ record m { nodes = Dict.put node_id (record node { last_heartbeat = now }) m.nodes }
]

abbrev pub is_timed_out : ℕ → ℕ → NodeInfo → Bool
is_timed_out now node_timeout n = ltb node_timeout (now - n.last_heartbeat)

-- The loop over a copy of the nodes: the ids dropped, and the nodes without them.
unfoldable pub prune_from : ℕ → ℕ → Dict NodeInfo → Dict NodeInfo → List String × Dict NodeInfo
prune_from now node_timeout [] nodes = ([], nodes)
prune_from now node_timeout ((nid, n) ∷ rest) nodes =
    let late = is_timed_out now node_timeout n in
    let (dropped, nodes') =
      prune_from now node_timeout rest (if late then Dict.pop nid nodes else nodes) in
    (if late then nid ∷ dropped else dropped, nodes')

-- `self._leader_id() in dropped`
abbrev pub lost_leader : Option String → List String → Bool
lost_leader leader dropped = any (λ nid. leads nid leader) dropped

unfoldable pub prune_timed_out : ℕ → ClusterManager → List String × ClusterManager
unfolding prune_from elect_leader
prune_timed_out now m =
    let (dropped, nodes) = prune_from now m.node_timeout m.nodes m.nodes in
    let m' = record m { nodes = nodes } in
    (dropped, if lost_leader m'.leader dropped then elect_leader m' else m')

abbrev pub ids_of : Dict NodeInfo → List String
ids_of [] = []
ids_of ((nid, n) ∷ nodes) = nid ∷ ids_of nodes

-- The ids that `broadcast` sends to and returns.
unfoldable pub broadcast : ClusterManager → List String
broadcast m = ids_of m.nodes
