-- ===== src/Agent.antt =====
-- The agent platform, backend/app/agent.
pub mod RunStatus
pub mod TaskStatus
pub mod RunState
pub mod Registry
pub mod Plan
pub mod Recovery
pub mod Tools
pub mod Approvals
pub mod TaskState
pub mod Manager
pub mod Memory
pub mod Verifier
