-- ===== src/Push.antt =====
-- internal/push: messages to the connected clients.
pub mod Message
pub mod Hub
mod Tests
