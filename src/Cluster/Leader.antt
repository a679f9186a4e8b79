-- ===== src/Cluster/Leader.antt =====
-- A cluster has a leader just while it has nodes, and the leader is one of them.
use hermes_kernel_v.Prelude.{
  ℕ, String, ◌≡◌, refl, sym, subst, inl, inr, Bool, true, false, ◌&&◌, ◌||◌, ◌==◌, eq_iff, eq_refl,
  List, [], ◌∷◌, Option, none, some, arith, Bool-cases, Option-cases, ltb, and-both, both-and,
}
use hermes_kernel_v.Prelude.Dict
use hermes_kernel_v.Prelude.Dict.{
  Dict, all_entries, all_entries-put, all_entries-pop, all_entries-get,
}
use hermes_kernel_v.Cluster.{
  NodeInfo, ClusterManager, earliest, oldest, elect_leader, emit, join_cluster, leave_cluster,
  heartbeat, leads,
}

-- A node is kept under its own id.
abbrev pub is_own : String → NodeInfo → Bool
is_own k n = n.node_id == k

abbrev pub has_node : String → Dict NodeInfo → Bool
has_node k [] = false
has_node k ((j, n) ∷ d) = (j == k) || has_node k d

abbrev pub is_vacant : Dict NodeInfo → Bool
is_vacant [] = true
is_vacant ((k, n) ∷ d) = false

-- Nobody leads an empty cluster, and one of the nodes any other.
abbrev pub is_led : Option String → Dict NodeInfo → Bool
is_led none nodes = is_vacant nodes
is_led (some leader) nodes = has_node leader nodes

abbrev pub is_valid : ClusterManager → Bool
is_valid m = all_entries is_own m.nodes && is_led m.leader m.nodes

earliest-older :
    (best n : NodeInfo) (ns : List NodeInfo)
    → ltb n.last_heartbeat best.last_heartbeat ≡ true
    → earliest best (n ∷ ns) ≡ earliest n ns
unfolding earliest
earliest-older best n ns h = rw (h, earliest) refl

earliest-younger :
    (best n : NodeInfo) (ns : List NodeInfo)
    → ltb n.last_heartbeat best.last_heartbeat ≡ false
    → earliest best (n ∷ ns) ≡ earliest best ns
unfolding earliest
earliest-younger best n ns h = rw (h, earliest) refl

abbrev has_first : NodeInfo → Dict NodeInfo → String → Bool
has_first best d k = (best.node_id == k) || has_node k d

earliest-has_first :
    (best : NodeInfo) (d : Dict NodeInfo)
    → all_entries is_own d ≡ true
    → has_first best d (earliest best (Dict.values d)).node_id ≡ true
unfolding earliest
earliest-has_first best [] own = ground (arith, eq_refl best.node_id)
earliest-has_first best ((k, n) ∷ d) own =
    let (same, rest) = and-both (is_own k n) _ own in
    let q = (eq_iff n.node_id k).0 same in
    elim (Bool-cases (ltb n.last_heartbeat best.last_heartbeat)) [
      | inl older ↦
          let ih = earliest-has_first n d rest in
          subst (λ e. has_first best ((k, n) ∷ d) e.node_id ≡ true)
            (sym (earliest-older best n (Dict.values d) older))
            (ground (
              arith,
              subst
                  (λ r.
                    ((r == (earliest n (Dict.values d)).node_id)
                      || has_node (earliest n (Dict.values d)).node_id d)
                    ≡ true)
                  q ih,
            ))
      | inr younger ↦
          let ih = earliest-has_first best d rest in
          subst (λ e. has_first best ((k, n) ∷ d) e.node_id ≡ true)
            (sym (earliest-younger best n (Dict.values d) younger)) (ground (arith, ih))
    ]

pub has_node-put :
    (k l : String) (n : NodeInfo) (d : Dict NodeInfo)
    → has_node l (Dict.put k n d) ≡ ((k == l) || has_node l d)
unfolding Dict.put
has_node-put k l n [] = ground arith
has_node-put k l n ((j, o) ∷ d) =
    ground (arith, has_node-put k l n d, eq_iff j k, eq_iff k l, eq_iff j l)

pub has_node-pop_ne :
    (k l : String) (d : Dict NodeInfo) → (k == l) ≡ false → has_node l (Dict.pop k d) ≡ has_node l d
unfolding Dict.pop
has_node-pop_ne k l [] h = refl
has_node-pop_ne k l ((j, o) ∷ d) h =
    ground (arith, has_node-pop_ne k l d h, eq_iff j k, eq_iff k l, eq_iff j l)

oldest-is_led : (d : Dict NodeInfo) → all_entries is_own d ≡ true → is_led (oldest d) d ≡ true
unfolding oldest
oldest-is_led [] own = refl
oldest-is_led ((k, n) ∷ d) own =
    let (same, rest) = and-both (is_own k n) _ own in
    subst
      (λ q.
        ((q == (earliest n (Dict.values d)).node_id)
          || has_node (earliest n (Dict.values d)).node_id d)
        ≡ true)
      ((eq_iff n.node_id k).0 same) (earliest-has_first n d rest)

is_led-put :
    (o : Option String) (k : String) (n old : NodeInfo) (d : Dict NodeInfo)
    → Dict.get k d ≡ some old
    → is_led o d ≡ true
    → is_led o (Dict.put k n d) ≡ true
unfolding Dict.get
is_led-put none k n old [] found h = ground (arith, found)
is_led-put none k n old ((j, m) ∷ d) found h = ground arith
is_led-put (some l) k n old d found h = rw (has_node-put k l n d) (ground (arith, h))

is_led-pop_ne :
    (o : Option String) (k : String) (old : NodeInfo) (d : Dict NodeInfo)
    → leads k o ≡ false
    → Dict.get k d ≡ some old
    → is_led o d ≡ true
    → is_led o (Dict.pop k d) ≡ true
unfolding Dict.get
is_led-pop_ne none k old [] ne found h = ground (arith, found)
is_led-pop_ne none k old ((j, m) ∷ d) ne found h = ground arith
is_led-pop_ne (some l) k old d ne found h =
    rw (has_node-pop_ne k l d (ground (arith, ne, eq_iff k l, eq_iff l k))) h

pub elect_leader-is_valid :
    (m : ClusterManager) → all_entries is_own m.nodes ≡ true → is_valid (elect_leader m) ≡ true
unfolding elect_leader
elect_leader-is_valid m own = both-and _ _ own (oldest-is_led m.nodes own)

pub join_cluster-is_valid :
    (node_id address : String) (capabilities : List String) (now : ℕ) (m : ClusterManager)
    → is_valid m ≡ true
    → is_valid (join_cluster node_id address capabilities now m) ≡ true
unfolding join_cluster emit
join_cluster-is_valid node_id address capabilities now m v =
    let (own, led) = and-both (all_entries is_own m.nodes) _ v in
    let node : NodeInfo = record {
      node_id = node_id;
      address = address;
      capabilities = capabilities;
      last_heartbeat = now;
      load = 0;
    } in
    let m' : ClusterManager = record m { nodes = Dict.put node_id node m.nodes } in
    let own' = all_entries-put is_own node_id node m.nodes own (eq_refl node_id) in
    elim (Option-cases m.leader) [
      | inl vacant ↦ rw (vacant, join_cluster) (elect_leader-is_valid m' own')
      | inr (l, leading) ↦
          let old : has_node l m.nodes ≡ true = rw leading at led in
          rw (leading, join_cluster)
            (both-and _ _ own' (rw (has_node-put node_id l _ m.nodes) (ground (arith, old))))
    ]

pub leave_cluster-is_valid :
    (node_id reason : String) (m : ClusterManager)
    → is_valid m ≡ true
    → is_valid (leave_cluster node_id reason m).1 ≡ true
unfolding leave_cluster emit
leave_cluster-is_valid node_id reason m v =
    let (own, led) = and-both (all_entries is_own m.nodes) _ v in
    let m' : ClusterManager = record m { nodes = Dict.pop node_id m.nodes } in
    let own' = all_entries-pop is_own node_id m.nodes own in
    elim (Option-cases (Dict.get node_id m.nodes)) [
      | inl unknown ↦ rw (unknown, leave_cluster) v
      | inr (n, found) ↦
          rw (found, leave_cluster)
            (elim (Bool-cases (leads node_id m.leader)) [
              | inl leader ↦ rw leader (elect_leader-is_valid m' own')
              | inr follower ↦
                  rw follower (
                    both-and _ _ own' (is_led-pop_ne m.leader node_id n m.nodes follower found led))
            ])
    ]

pub heartbeat-is_valid :
    (node_id : String) (now : ℕ) (m : ClusterManager)
    → is_valid m ≡ true
    → is_valid (heartbeat node_id now m) ≡ true
unfolding heartbeat
heartbeat-is_valid node_id now m v =
    let (own, led) = and-both (all_entries is_own m.nodes) _ v in
    elim (Option-cases (Dict.get node_id m.nodes)) [
      | inl unknown ↦ rw (unknown, heartbeat) v
      | inr (n, found) ↦
          rw (found, heartbeat)
            (both-and _ _
              (all_entries-put is_own node_id _ m.nodes own
                (all_entries-get is_own node_id n m.nodes own found))
              (is_led-put m.leader node_id (record n { last_heartbeat = now }) n m.nodes found led))
    ]
