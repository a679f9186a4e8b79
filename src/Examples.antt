-- ===== src/Examples.antt =====
-- The theorems at concrete inputs.
mod Resilience
mod Health
mod Guard
mod Swarm
mod Cluster
mod Executor
mod Chunker
mod Nodes
mod Vault
mod Access
mod Runtime
mod Workflow
mod Bus
mod Knowledge
mod Planner
