-- ===== src/Nodes/Ages.antt =====
-- A node's health tells how long ago it was last heard of.
use hermes_kernel_v.Prelude.{
  ℕ, ◌+◌, String, ◌==◌, List, [], ◌∷◌, Option, none, some, if◌then◌else◌, leb,
}
use hermes_kernel_v.Prelude.Dict
use hermes_kernel_v.Prelude.Dict.{get-put_self, get_or-put_self}
use hermes_kernel_v.Nodes.{NodeInfo, DistributedHealthMonitor, NodeHealth, record_heartbeat}

-- Heartbeats of several nodes at their times.
abbrev pub record_all : List (String × ℕ) → DistributedHealthMonitor → DistributedHealthMonitor
record_all [] m = m
record_all ((n, t) ∷ beats) m = record_all beats (record_heartbeat n 0 t m)

-- The time of the node's last heartbeat among them.
abbrev pub last_beat : String → List (String × ℕ) → Option ℕ → Option ℕ
last_beat node_id [] seen = seen
last_beat node_id ((n, t) ∷ beats) seen =
    last_beat node_id beats (if n == node_id then some t else seen)

abbrev pub health_since : ℕ → Option ℕ → NodeHealth
health_since now none = NodeHealth.unknown
health_since now (some t) =
    if leb now (t + 3000000)
    then NodeHealth.healthy
    else if leb now (t + 10000000)
    then NodeHealth.suspected
    else NodeHealth.unhealthy

-- What the monitor knows of a node: when it was last heard of, if ever.
abbrev pub seen_at : String → DistributedHealthMonitor → Option ℕ
seen_at node_id m = elim (Dict.get node_id m.nodes) [
  | none ↦ none
  | some info ↦ some (Dict.get_or node_id 0 m.last_seen_ts)
]

abbrev seen_in : Option NodeInfo → Option ℕ → Option ℕ
seen_in none o = none
seen_in (some info) none = some 0
seen_in (some info) (some t) = some t
