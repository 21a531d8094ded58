-- ===== src/Agent.antt =====
-- deaddit/agents: what an agent may do (registry.py), and how a tool call is guarded (executor.py).
pub mod Registry
pub mod Offering
pub mod Similarity
pub mod Guards
pub mod Repeats
pub mod Executor
pub mod Enforcement
pub mod Audit
pub mod Permits
pub mod Caps
pub mod Stuck
mod Scenarios
