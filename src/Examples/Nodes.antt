-- ===== src/Examples/Nodes.antt =====
-- The distributed health monitor at concrete inputs.
use hermes_kernel_v.Prelude.{ℕ, String, List, [], ◌∷◌}
use hermes_kernel_v.Nodes.{DistributedHealthMonitor}

abbrev quiet : DistributedHealthMonitor
quiet = record { node_id = "n1"; nodes = []; last_seen_ts = []; beat_count = 0; journal = [] }

abbrev beats : List (String × ℕ)
beats = ("n1", 1000000) ∷ ("n2", 2000000) ∷ ("n1", 3000000) ∷ []
