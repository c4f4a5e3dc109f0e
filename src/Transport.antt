-- ===== src/Transport.antt =====
-- The messages between agents: backend/app/services/agent_protocol.py, which says what may be sent
-- between whom, and backend/app/services/agent_transport.py, which delivers it.
pub mod Protocol
pub mod Memory
pub mod Worker
mod Examples
