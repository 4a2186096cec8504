-- ===== src/Events.antt =====
-- internal/server/events.go: the collector of the upstream event stream.
pub mod Frames
pub mod Collector
pub mod Conserves
pub mod Bounds
pub mod Statuses
pub mod Listing
pub mod Tests
