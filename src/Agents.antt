-- ===== src/Agents.antt =====
-- What an agent may do: backend/app/services/agent_tool_registry.py, and the loop in which it does it,
-- backend/app/services/agent_runtime.py.
pub mod Registry
pub mod Runtime
pub mod Decider
pub mod Controller
pub mod Examples
