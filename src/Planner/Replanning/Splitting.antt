-- ===== src/Planner/Replanning/Splitting.antt =====
-- A failed step is split in two, and what depended on it is left with a dependency that is gone.
use Prim.Native.String.{◌++◌ as concat}
use hermes_kernel_v.Prelude.{String, ◌++◌}
