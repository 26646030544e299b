-- ===== src/LinkSessions.antt =====
-- src/routers/link_sessions.py: the hosted link page's sessions. They are kept by src/session_store.py,
-- as `SessionStore/Memory` models it.
pub mod Sanitize
pub mod Origin
pub mod Create
pub mod Exchange
pub mod Events
pub mod Browser
pub mod Clean
pub mod Reconcile
pub mod Updates
pub mod Following
pub mod Announced
pub mod Status
mod Tests
