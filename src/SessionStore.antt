-- ===== src/SessionStore.antt =====
-- src/session_store.py: link sessions, link scopes, launch bootstraps and webhook deliveries, as
-- one process keeps them in memory (`Memory`) and as they stand in Redis (`Shared`).
pub mod Evict
pub mod Memory
pub mod Shared
mod Tests
