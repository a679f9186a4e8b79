-- ===== src/Lib.antt =====
-- Hermes Kernel: the parts of the kernel that decide, modelled and proved correct.
--
-- The kernel is an asyncio program. Its fault handling (kernel/resilience.py, kernel/health.py), its
-- plugin sandbox (kernel/capability_guard.py), its coordination of agents and nodes
-- (kernel/swarm.py, kernel/cluster.py, kernel/distributed_health.py), its task executor
-- (kernel/executor.py), its workflow engine (kernel/workflow.py), its planner
-- (kernel/dynamic_planner.py), its knowledge graph (kernel/knowledge_graph.py), in which agents
-- (kernel/agent.py) remember facts, its access control (kernel/auth.py, kernel/rbac.py) and its configuration vault
-- (kernel/config_vault.py) are state
-- machines that the rest of the kernel calls. They share the event bus (kernel/bus.py), which delivers
-- what they announce, and the event store, to which they only write. The chunker (kernel/chunker.py)
-- cuts texts.
--
-- Files and what they model:
--   Prelude            lists, options, dicts in insertion order, the order of texts.
--   Resilience         kernel/resilience.py, kernel/resilience_domain.py, kernel/resilience_store.py:
--                      `Circuit` is the breaker (`_maybe_recover` is `maybe_recover`,
--                      `call_with_circuit` is `enter` and `leave`), `Retry` is `retry`,
--                      `DeadLetter` the dead-letter queue, `Store` the tables in memory.
--   Health             kernel/health.py: `Monitor` is `HealthMonitor`, `Breaker` `CircuitBreaker`,
--                      `Queue` `DeadLetterQueue`, `Recovery` `RecoveryEngine`.
--   Guard              kernel/capability_guard.py, kernel/security_domain.py,
--                      kernel/security_store.py: `_pre` is `enter`, `__aexit__` is `leave`.
--   Swarm              kernel/swarm.py, kernel/swarm_store.py: `Election` has `_run_election` and
--                      `check_partitions`, `Membership` joining, leaving and heartbeats,
--                      `Delegation` `delegate_task`.
--   Cluster            kernel/cluster.py: membership, leader and timeouts.
--   Executor           kernel/executor.py and `CapabilityRegistry` of kernel/capability.py.
--   Planner            kernel/dynamic_planner.py: `Ordering` is `_toposort`, `Replanning` the rules,
--                      `Execution` runs plans (`attempt` is the loop of
--                      `_execute_step_with_retry`), `Risk` is `risk_assess`.
--   Bus                kernel/bus.py: `dispatch` is `_dispatch`, whose second loop is
--                      `resolve_barriers`; `Barriers` follows the futures of `wait_for`.
--   Knowledge          kernel/knowledge_graph.py, kernel/semantic_graph.py: `Paths` is `find_path`,
--                      `Inference` `run_inference`, `Integrity` what all operations keep.
--   Vault              kernel/config_vault.py, kernel/config_domain.py, kernel/config_store.py:
--                      `ckey` is `_ckey`, `sealed` and `marker` what `set_secret` and
--                      `rotate_secret` write; `Reading`, `Secrets` and `Deleting` the properties.
--   Access             kernel/auth.py, kernel/rbac.py: users, passwords, roles and permissions.
--   Runtime            kernel/agent.py: `remember`, which composes operations of `Knowledge`.
--   Workflow           kernel/workflow.py: `attempt_from` is `execute_step` from its attempt on,
--                      `Compensation` has `compensate`, `Approval` has `approve`; a step's run is a
--                      parameter.
--   Chunker            kernel/chunker.py: the sliding window of `chunk`.
--   Nodes              kernel/distributed_health.py: which nodes are heard of.
--   Examples           the theorems at concrete inputs.
-- A component's own file has its state and operations, its child modules the properties.
--
-- How the code is read. State is passed explicitly: an operation takes the object's record and
-- returns the next one. Where two names reach one mutable object (a circuit, a breaker's state), the
-- objects stand in a heap and names are addresses. A call that awaits code of others is split in two
-- operations, before and after it, so that other calls come in between; what the awaited code ends
-- in is an argument, a cancellation (which `except Exception` does not catch) included. Clock times,
-- new ids and random draws are arguments. Times are natural numbers of microseconds, durations that
-- the code keeps in milliseconds are natural numbers of milliseconds, and Python's integers need no
-- wrap-around. Loads are natural numbers of some unit. A raised error is a value: `none` for the one
-- error that an operation has, else a constructor.
-- Loops are structural recursion over the list that Python iterates over, or over the number of
-- attempts that `range` gives. The window loop of `Chunker` runs on fuel, one round for each
-- character, which is enough: its result covers the whole text. `execute_step` has fuel
-- for one attempt more than the retry policy allows, and the loop of `approve` for one round more
-- than there are steps; where no two steps share an id that is enough, too. The ordering of a plan has
-- fuel for one step more than the plan has, the search for a path for two rounds more than relations
-- have ends, and the reading back of the path for one more than the entries that the search made.
--
-- Not modelled: the SQLite branches of the stores and their JSON; event payloads that no operation
-- reads; the background tasks that only repeat an operation; `rebalance_load` and its variance over
-- floats; of the workflow engine the starting of workflows, the planner's waves, the sandbox and
-- input mappings; the static planner; of the knowledge graph its store, the similarity over floats
-- and the dispatch of queries; of the agent runtime all but what agents remember; the rest of the
-- knowledge pipeline, the MCP servers, the marketplace, the registries and the plugins.
pub mod Prelude
pub mod Resilience
pub mod Health
pub mod Guard
pub mod Swarm
pub mod Cluster
pub mod Executor
pub mod Planner
pub mod Knowledge
pub mod Bus
pub mod Vault
pub mod Access
pub mod Runtime
pub mod Workflow
pub mod Chunker
pub mod Nodes
pub mod Examples
