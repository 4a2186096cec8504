-- ===== src/Executor.antt =====
-- internal/tasks: the executor that runs claimed tasks.
pub mod World
pub mod Upstream
pub mod Execute
pub mod Gates
pub mod Outcomes
pub mod Waiting
pub mod Answered
pub mod Worker
pub mod Tests
