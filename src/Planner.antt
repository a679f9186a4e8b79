-- ===== src/Planner.antt =====
-- kernel/dynamic_planner.py, `DynamicPlanner`.
pub mod Domain
pub mod Ordering
pub mod Replanning
pub mod Execution
pub mod Risk
