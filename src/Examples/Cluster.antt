-- ===== src/Examples/Cluster.antt =====
-- The cluster manager at concrete inputs.
use hermes_kernel_v.Prelude.{◌≡◌, true, []}
use hermes_kernel_v.Prelude.Dict
use hermes_kernel_v.Cluster.{ClusterManager, init, join_cluster, prune_timed_out}
use hermes_kernel_v.Cluster.Leader.{is_led}
use hermes_kernel_v.Cluster.Pruning.{survivor}
use hermes_kernel_v.Cluster.Pruning.Reachable.{Step, Reach, reachable-prune}

abbrev two_nodes : ClusterManager
two_nodes = join_cluster "n2" "inproc" [] 9 (join_cluster "n1" "inproc" [] 1 (init 5))

abbrev path : Reach (init 5) two_nodes
path =
    Reach.next (Reach.next Reach.here (Step.joins "n1" "inproc" [] 1))
      (Step.joins "n2" "inproc" [] 9)

reachable-prune_example :
    let m' = (prune_timed_out 10 two_nodes).1 in
    (Dict.get "n1" m'.nodes ≡ survivor 10 two_nodes.node_timeout (Dict.get "n1" two_nodes.nodes))
    × (is_led m'.leader m'.nodes ≡ true)
reachable-prune_example = reachable-prune 5 10 "n1" path
