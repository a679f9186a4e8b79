-- ===== src/Cluster/Pruning.antt =====
-- Which nodes time out, and what is left of the cluster then.
pub mod Reachable
use hermes_kernel_v.Prelude.{
  ℕ, ◌-◌, String, ◌≡◌, refl, sym, ap, subst, ◌∙◌, inl, inr, Bool, true, false, not, ◌&&◌, ◌||◌,
  ◌==◌, eq_iff, eq_refl, List, [], ◌∷◌, ◌++◌, Option, none, some, is_none, is_some, any, arith,
  Bool-cases, Option-cases, if◌then◌else◌, ltb, and-both, both-and,
}
use hermes_kernel_v.Prelude.Dict
use hermes_kernel_v.Prelude.Dict.{Dict, all_entries, all_entries-pop, get-pop}
use hermes_kernel_v.Cluster.{
  NodeInfo, ClusterManager, elect_leader, leads, is_timed_out, prune_from, lost_leader,
  prune_timed_out,
}
use hermes_kernel_v.Cluster.Leader.{
  is_own, has_node, is_led, is_valid, is_vacant, has_node-pop_ne, elect_leader-is_valid,
}

-- No two entries of a Python dict have one key.
abbrev pub is_dict : Dict NodeInfo → Bool
is_dict [] = true
is_dict ((k, n) ∷ d) = not (has_node k d) && is_dict d

module _ (now node_timeout : ℕ) where
  prune_from-own :
      (rest nodes : Dict NodeInfo)
      → all_entries is_own nodes ≡ true
      → all_entries is_own (prune_from now node_timeout rest nodes).1 ≡ true
  unfolding prune_from
  prune_from-own [] nodes h = h
  prune_from-own ((k, n) ∷ rest) nodes h = elim (Bool-cases (is_timed_out now node_timeout n)) [
    | inl late ↦
        rw (late, prune_from)
          (prune_from-own rest (Dict.pop k nodes) (all_entries-pop is_own k nodes h))
    | inr fine ↦ rw (fine, prune_from) (prune_from-own rest nodes h)
  ]

  prune_from-late :
      (k : String) (n : NodeInfo) (rest nodes : Dict NodeInfo)
      → is_timed_out now node_timeout n ≡ true
      → prune_from now node_timeout ((k, n) ∷ rest) nodes ≡ (
        k ∷ (prune_from now node_timeout rest (Dict.pop k nodes)).0,
        (prune_from now node_timeout rest (Dict.pop k nodes)).1,
      )
  unfolding prune_from
  prune_from-late k n rest nodes h = rw (h, prune_from) refl

  prune_from-fine :
      (k : String) (n : NodeInfo) (rest nodes : Dict NodeInfo)
      → is_timed_out now node_timeout n ≡ false
      → prune_from now node_timeout ((k, n) ∷ rest) nodes ≡ prune_from now node_timeout rest nodes
  unfolding prune_from
  prune_from-fine k n rest nodes h = rw (h, prune_from) refl

  vacant-pop :
      (k : String) (d : Dict NodeInfo) → is_vacant d ≡ true → is_vacant (Dict.pop k d) ≡ true
  unfolding Dict.pop
  vacant-pop k [] h = refl
  vacant-pop k ((j, n) ∷ d) h = ground (arith, h)

  pop-is_led :
      (o : Option String) (k : String) (d : Dict NodeInfo)
      → leads k o ≡ false
      → is_led o d ≡ true
      → is_led o (Dict.pop k d) ≡ true
  pop-is_led none k d ne h = vacant-pop k d h
  pop-is_led (some l) k d ne h =
      rw (has_node-pop_ne k l d (ground (arith, ne, eq_iff k l, eq_iff l k))) h

  prune_from-is_led :
      (o : Option String) (rest nodes : Dict NodeInfo)
      → lost_leader o (prune_from now node_timeout rest nodes).0 ≡ false
      → is_led o nodes ≡ true
      → is_led o (prune_from now node_timeout rest nodes).1 ≡ true
  unfolding prune_from
  prune_from-is_led o [] nodes lost h = h
  prune_from-is_led o ((k, n) ∷ rest) nodes lost h =
      elim (Bool-cases (is_timed_out now node_timeout n)) [
        | inl late ↦
            let e = prune_from-late k n rest nodes late in
            let lost' : (leads k o
                  || lost_leader o (prune_from now node_timeout rest (Dict.pop k nodes)).0)
                ≡ false =
              subst (λ r. lost_leader o r.0 ≡ false) e lost in
            subst (λ r. is_led o r.1 ≡ true) (sym e)
              (prune_from-is_led o rest (Dict.pop k nodes) (ground (arith, lost'))
                (pop-is_led o k nodes (ground (arith, lost')) h))
        | inr fine ↦
            let e = prune_from-fine k n rest nodes fine in
            subst (λ r. is_led o r.1 ≡ true) (sym e)
              (prune_from-is_led o rest nodes (subst (λ r. lost_leader o r.0 ≡ false) e lost) h)
      ]

pub prune_timed_out-is_valid :
    (now : ℕ) (m : ClusterManager) → is_valid m ≡ true → is_valid (prune_timed_out now m).1 ≡ true
unfolding prune_timed_out
prune_timed_out-is_valid now m v =
    let (own, led) = and-both (all_entries is_own m.nodes) _ v in
    let r = prune_from now m.node_timeout m.nodes m.nodes in
    let own' = prune_from-own now m.node_timeout m.nodes m.nodes own in
    elim (Bool-cases (lost_leader m.leader r.0)) [
      | inl lost ↦
          rw (lost, prune_timed_out) (elect_leader-is_valid (record m { nodes = r.1 }) own')
      | inr led_still ↦
          rw (led_still, prune_timed_out)
            (both-and _ _ own'
              (prune_from-is_led now m.node_timeout m.leader m.nodes m.nodes led_still led))
    ]

module _ (now node_timeout : ℕ) where
  -- Whether an entry under `k` has timed out.
  abbrev late_under : String → Dict NodeInfo → Bool
  late_under k [] = false
  late_under k ((j, n) ∷ d) = (is_timed_out now node_timeout n && (j == k)) || late_under k d

  get-prune_from :
      (k : String) (rest nodes : Dict NodeInfo)
      → Dict.get k (prune_from now node_timeout rest nodes).1
        ≡ (if late_under k rest then none else Dict.get k nodes)
  unfolding prune_from
  get-prune_from k [] nodes = refl
  get-prune_from k ((j, n) ∷ rest) nodes = elim (Bool-cases (is_timed_out now node_timeout n)) [
    | inl late ↦
        subst
          (λ r. Dict.get k r.1 ≡ (if late_under k ((j, n) ∷ rest) then none else Dict.get k nodes))
          (sym (prune_from-late now node_timeout j n rest nodes late))
          (get-prune_from k rest (Dict.pop j nodes) ∙ ground (arith, late, get-pop j k nodes))
    | inr fine ↦
        subst
          (λ r. Dict.get k r.1 ≡ (if late_under k ((j, n) ∷ rest) then none else Dict.get k nodes))
          (sym (prune_from-fine now node_timeout j n rest nodes fine))
          (get-prune_from k rest nodes ∙ ground (arith, fine))
  ]

  absent-late_under :
      (k : String) (d : Dict NodeInfo) → has_node k d ≡ false → late_under k d ≡ false
  absent-late_under k [] h = refl
  absent-late_under k ((j, n) ∷ d) h = ground (arith, absent-late_under k d, h)

  -- What is under the key of an entry that times out, or not.
  abbrev pub survivor : Option NodeInfo → Option NodeInfo
  survivor none = none
  survivor (some n) = if is_timed_out now node_timeout n then none else some n

  late_under-survivor :
      (k : String) (d : Dict NodeInfo)
      → is_dict d ≡ true
      → (if late_under k d then none else Dict.get k d) ≡ survivor (Dict.get k d)
  unfolding Dict.get
  late_under-survivor k [] h = refl
  late_under-survivor k ((j, n) ∷ d) h = elim (Bool-cases (j == k)) [
    | inl same ↦
        let q : late_under k d ≡ false =
          absent-late_under k d
            (subst (λ r. has_node r d ≡ false) ((eq_iff j k).0 same) (ground (arith, h))) in
        ground (arith, q, same)
    | inr other ↦ ground (arith, late_under-survivor k d, h, other)
  ]

prune_timed_out-nodes :
    (now : ℕ) (m : ClusterManager)
    → (prune_timed_out now m).1.nodes ≡ (prune_from now m.node_timeout m.nodes m.nodes).1
unfolding prune_timed_out elect_leader
prune_timed_out-nodes now m = ground arith

-- A pruning takes away exactly the nodes whose last heartbeat is older than the timeout, and leaves
-- every other node as it is.
pub prune_timed_out-survivor :
    (now : ℕ) (k : String) (m : ClusterManager)
    → is_dict m.nodes ≡ true
    → Dict.get k (prune_timed_out now m).1.nodes ≡ survivor now m.node_timeout (Dict.get k m.nodes)
prune_timed_out-survivor now k m h = rw (prune_timed_out-nodes now m) (
    get-prune_from now m.node_timeout k m.nodes m.nodes
    ∙ late_under-survivor now m.node_timeout k m.nodes h)
