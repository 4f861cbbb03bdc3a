-- ===== src/EditSession.antt =====
-- internal/editsession: the locks of the sessions that edit configuration files.
pub mod Locks
mod Tests
