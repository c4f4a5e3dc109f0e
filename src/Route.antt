-- ===== src/Route.antt =====
-- Routes between the candidates of a plan's tasks: backend/app/services/route_optimizer.py, with the
-- models of backend/app/schemas/ai_intent.py that it reads.
pub mod Types
pub mod Orders
pub mod Visits
pub mod Evaluation
pub mod Enumeration
pub mod Beam
pub mod Optimizer
pub mod Samples
mod Examples
