-- ===== src/Health.antt =====
-- The health and recovery layer: kernel/health.py and its models in kernel/domain.py. One module
-- for each of the four classes.
pub mod Breaker
pub mod Monitor
pub mod Queue
pub mod Recovery
