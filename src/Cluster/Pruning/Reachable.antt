-- ===== src/Cluster/Pruning/Reachable.antt =====
-- What holds of a cluster after any operations.
use hermes_kernel_v.Prelude.{
  ℕ, String, ◌≡◌, refl, inl, inr, true, false, eq_iff, List, [], ◌∷◌, arith, Bool-cases,
  Option-cases, and-both,
}
use hermes_kernel_v.Prelude.Dict
use hermes_kernel_v.Prelude.Dict.{Dict, all_entries}
use hermes_kernel_v.Cluster.{
  NodeInfo, ClusterManager, init, elect_leader, emit, join_cluster, leave_cluster, heartbeat,
  prune_from, prune_timed_out, is_timed_out,
}
use hermes_kernel_v.Cluster.Leader.{
  elect_leader-is_valid, is_own, has_node, is_led, is_valid, has_node-put, join_cluster-is_valid,
  leave_cluster-is_valid, heartbeat-is_valid,
}
use hermes_kernel_v.Cluster.Pruning.{
  is_dict, prune_timed_out-is_valid, prune_timed_out-nodes, survivor, prune_timed_out-survivor,
}

-- One operation of a cluster manager.
pub data Step (m : ClusterManager) : ClusterManager → Type 0 where
  joins :
      (node_id address : String) (capabilities : List String) (now : ℕ)
      → Step m (join_cluster node_id address capabilities now m)
  leaves : (node_id reason : String) → Step m (leave_cluster node_id reason m).1
  beats : (node_id : String) (now : ℕ) → Step m (heartbeat node_id now m)
  elects : Step m (elect_leader m)
  prunes : (now : ℕ) → Step m (prune_timed_out now m).1

pub data Reach (m : ClusterManager) : ClusterManager → Type 0 where
  here : Reach m m
  next : {m' m'' : ClusterManager} → Reach m m' → Step m' m'' → Reach m m''

Step-is_valid : {m m' : ClusterManager} → Step m m' → is_valid m ≡ true → is_valid m' ≡ true
Step-is_valid {m} (joins node_id address capabilities now) v =
    join_cluster-is_valid node_id address capabilities now m v
Step-is_valid {m} (leaves node_id reason) v = leave_cluster-is_valid node_id reason m v
Step-is_valid {m} (beats node_id now) v = heartbeat-is_valid node_id now m v
Step-is_valid {m} elects v = elect_leader-is_valid m (and-both (all_entries is_own m.nodes) _ v).0
Step-is_valid {m} (prunes now) v = prune_timed_out-is_valid now m v

Reach-is_valid : {m m' : ClusterManager} → is_valid m ≡ true → Reach m m' → is_valid m' ≡ true
Reach-is_valid v here = v
Reach-is_valid v (next r st) = Step-is_valid st (Reach-is_valid v r)

-- After any operations on a new cluster, a leader is one of the cluster's nodes, and there is none
-- only while there are no nodes.
pub reachable-is_led :
    (node_timeout : ℕ) {m : ClusterManager}
    → Reach (init node_timeout) m
    → is_led m.leader m.nodes ≡ true
reachable-is_led node_timeout {m} r =
    (and-both (all_entries is_own m.nodes) _ (Reach-is_valid refl r)).1

is_dict-put :
    (k : String) (n : NodeInfo) (d : Dict NodeInfo)
    → is_dict d ≡ true
    → is_dict (Dict.put k n d) ≡ true
unfolding Dict.put
is_dict-put k n [] h = refl
is_dict-put k n ((j, o) ∷ d) h =
    ground (arith, is_dict-put k n d, has_node-put k j n d, eq_iff j k, eq_iff k j, h)

has_node-pop :
    (k l : String) (d : Dict NodeInfo) → has_node l d ≡ false → has_node l (Dict.pop k d) ≡ false
unfolding Dict.pop
has_node-pop k l [] h = refl
has_node-pop k l ((j, o) ∷ d) h = ground (arith, has_node-pop k l d, h)

is_dict-pop : (k : String) (d : Dict NodeInfo) → is_dict d ≡ true → is_dict (Dict.pop k d) ≡ true
unfolding Dict.pop
is_dict-pop k [] h = refl
is_dict-pop k ((j, o) ∷ d) h = ground (arith, is_dict-pop k d, has_node-pop k j d, h)

is_dict-prune_from :
    (now node_timeout : ℕ) (rest nodes : Dict NodeInfo)
    → is_dict nodes ≡ true
    → is_dict (prune_from now node_timeout rest nodes).1 ≡ true
unfolding prune_from
is_dict-prune_from now node_timeout [] nodes h = h
is_dict-prune_from now node_timeout ((k, n) ∷ rest) nodes h =
    elim (Bool-cases (is_timed_out now node_timeout n)) [
      | inl late ↦
          rw (late, prune_from)
            (is_dict-prune_from now node_timeout rest (Dict.pop k nodes) (is_dict-pop k nodes h))
      | inr fine ↦ rw (fine, prune_from) (is_dict-prune_from now node_timeout rest nodes h)
    ]

Step-is_dict :
    {m m' : ClusterManager} → Step m m' → is_dict m.nodes ≡ true → is_dict m'.nodes ≡ true
unfolding join_cluster leave_cluster heartbeat elect_leader emit
Step-is_dict {m} (joins node_id address capabilities now) h = ground (
  arith,
  is_dict-put node_id
      (record {
        node_id = node_id;
        address = address;
        capabilities = capabilities;
        last_heartbeat = now;
        load = 0;
      })
      m.nodes h,
)
Step-is_dict {m} (leaves node_id reason) h = ground (arith, is_dict-pop node_id m.nodes h, h)
Step-is_dict {m} (beats node_id now) h = elim (Option-cases (Dict.get node_id m.nodes)) [
  | inl unknown ↦ rw (unknown, heartbeat) h
  | inr (n, found) ↦ rw (found, heartbeat) (is_dict-put node_id _ m.nodes h)
]
Step-is_dict {m} elects h = h
Step-is_dict {m} (prunes now) h =
    rw (prune_timed_out-nodes now m) (is_dict-prune_from now m.node_timeout m.nodes m.nodes h)

Reach-is_dict :
    {m m' : ClusterManager} → is_dict m.nodes ≡ true → Reach m m' → is_dict m'.nodes ≡ true
Reach-is_dict h here = h
Reach-is_dict h (next r st) = Step-is_dict st (Reach-is_dict h r)

-- In a cluster that operations on a new one have led to, a pruning takes away exactly the nodes
-- whose last heartbeat is older than the timeout, leaves every other node as it is, and the leader
-- is again one of the nodes that are left, if any is.
pub reachable-prune :
    (node_timeout now : ℕ) (k : String) {m : ClusterManager}
    → Reach (init node_timeout) m
    → let m' = (prune_timed_out now m).1 in
      (Dict.get k m'.nodes ≡ survivor now m.node_timeout (Dict.get k m.nodes))
      × (is_led m'.leader m'.nodes ≡ true)
reachable-prune node_timeout now k {m} r = (
  prune_timed_out-survivor now k m (Reach-is_dict refl r),
  reachable-is_led node_timeout (next r (prunes now)),
)
