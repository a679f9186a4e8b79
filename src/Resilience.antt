-- ===== src/Resilience.antt =====
-- The execution-resilience layer: kernel/resilience_domain.py, kernel/resilience_store.py and
-- kernel/resilience.py. The definitions stand in Domain, Store, Engine, Circuit, Retry and
-- DeadLetter; the other modules prove.
pub mod Domain
pub mod Store
pub mod Engine
pub mod Circuit
pub mod Retry
pub mod DeadLetter
