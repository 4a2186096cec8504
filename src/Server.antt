-- ===== src/Server.antt =====
-- internal/server: the HTTP handlers over tasks, the scheduler of planned tasks and the login
-- limiter.
pub mod RateLimit
pub mod Reply
pub mod Tasks
pub mod Batch
pub mod Scheduler
pub mod Cancel
pub mod Fire
pub mod Create
pub mod Projects
pub mod Rules
pub mod Tests
