-- ===== src/RuntimeStore.antt =====
-- backend/app/infrastructure/runtime_store.py, the in-memory store: its parts, each over the
-- attributes of `InMemoryRuntimeStore` that it uses.
pub mod Cache
pub mod JsonStore
pub mod Counters
pub mod Locks
pub mod Queues
mod Examples
