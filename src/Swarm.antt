-- ===== src/Swarm.antt =====
-- kernel/swarm.py, `SwarmCoordinator`, over kernel/swarm_store.py without a database. The monotonic
-- clock in microseconds and new delegation ids are arguments, loads are whole numbers of a unit.
-- An operation runs to its end before the next. Event bus and event store show as one journal.
pub mod Domain
pub mod State
pub mod Election
pub mod Membership
pub mod Delegation
