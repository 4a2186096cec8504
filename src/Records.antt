-- ===== src/Records.antt =====
-- internal/store: the tables beside those of tasks and rules.
pub mod Site
pub mod Settings
pub mod Tokens
pub mod WebSessions
pub mod Events
pub mod Archives
pub mod Audit
pub mod Stats
pub mod Handlers
pub mod Tests
