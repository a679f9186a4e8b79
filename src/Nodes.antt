-- ===== src/Nodes.antt =====
-- kernel/distributed_health.py, `DistributedHealthMonitor`: which nodes are heard of. The monotonic
-- clock counts microseconds; the beat loop is a sequence of `send_heartbeat`. The wall-clock stamp
-- `last_seen` of a node, which no operation reads, is left out.
pub mod Ages
use hermes_kernel_v.Prelude.{
  ℕ, ◌+◌, ◌-◌, String, List, [], ◌∷◌, ◌++◌, Option, none, some, ltb, if◌then◌else◌,
}
use hermes_kernel_v.Prelude.Dict
use hermes_kernel_v.Prelude.Dict.{Dict}

pub record NodeInfo : Type 0 where
  pub node_id : String
  pub capabilities : List String
  pub load_score : ℕ

pub data NodeHealth : Type 0 where
  unknown healthy suspected unhealthy : NodeHealth

-- `HeartbeatReceived`, in the event store and on the bus.
pub record Heartbeat : Type 0 where
  pub node_id : String
  pub timestamp : ℕ
  pub load_score : ℕ

pub record DistributedHealthMonitor : Type 0 where
  pub node_id : String
  pub nodes : Dict NodeInfo
  pub last_seen_ts : Dict ℕ
  pub beat_count : ℕ
  pub journal : List Heartbeat

unfoldable pub track_node :
    String → List String → ℕ → DistributedHealthMonitor → DistributedHealthMonitor
track_node node_id capabilities now m = record m {
  nodes =
      Dict.put node_id (record { node_id = node_id; capabilities = capabilities; load_score = 0 })
        m.nodes;
  last_seen_ts = Dict.put node_id now m.last_seen_ts;
}

-- The age in milliseconds is compared with 10000 and 3000.
unfoldable pub health_at : ℕ → NodeHealth
health_at age =
    if ltb 10000000 age then unhealthy else if ltb 3000000 age then suspected else healthy

unfoldable pub get_node_health : String → ℕ → DistributedHealthMonitor → NodeHealth
unfolding health_at
get_node_health node_id now m = elim (Dict.get node_id m.nodes) [
  | none ↦ unknown
  | some info ↦ health_at (now - Dict.get_or node_id 0 m.last_seen_ts)
]

set_load : String → ℕ → ℕ → NodeInfo → DistributedHealthMonitor → DistributedHealthMonitor
set_load node_id load_score now info m = record m {
  nodes = Dict.put node_id (record info { load_score = load_score }) m.nodes;
  last_seen_ts = Dict.put node_id now m.last_seen_ts;
}

unfoldable pub record_heartbeat :
    String → ℕ → ℕ → DistributedHealthMonitor → DistributedHealthMonitor
unfolding track_node set_load
record_heartbeat node_id load_score now m = elim (Dict.get node_id m.nodes) [
  | none ↦
      set_load node_id load_score now
        (record { node_id = node_id; capabilities = []; load_score = 0 })
        (track_node node_id [] now m)
  | some info ↦ set_load node_id load_score now info m
]

unfoldable pub send_heartbeat : ℕ → ℕ → DistributedHealthMonitor → DistributedHealthMonitor
unfolding record_heartbeat
send_heartbeat load_score now m =
    let m' =
      record_heartbeat m.node_id load_score now (record m { beat_count = m.beat_count + 1 }) in
    record m' {
      journal =
          m'.journal
          ++ record { node_id = m.node_id; timestamp = now; load_score = load_score } ∷ [];
    }
