-- ===== src/Workflow.antt =====
-- src/orchestration/workflow.rs: the task workflow.
pub mod Types
pub mod Builder
pub mod Ledger
pub mod Executor
pub mod Coordinator
pub mod AgentTask
pub mod Moves
mod Examples
