-- ===== src/State.antt =====
-- internal/state: the cache of entity states, projected from the event log.
pub mod Cache
mod Tests
