-- ===== src/SharedState.antt =====
-- The task state that the agents share: backend/app/services/agent_shared_state.py, with the phases
-- and records of backend/app/schemas/agent_state.py.
pub mod Phase
pub mod Access
pub mod Types
pub mod Manager
pub mod Updates
pub mod Guarantees
pub mod Views
pub mod Examples
