-- ===== src/EventStore.antt =====
-- internal/eventstore: the event log, its projectors, the replay at a start, and subscriptions.
pub mod Event
pub mod Projector
pub mod Query
pub mod Store
pub mod Batch
pub mod Replay
pub mod Subscription
pub mod CacheProjector
pub mod CacheReads
mod Tests
