-- ===== src/Store.antt =====
-- internal/store: the tables and the methods of `sqlStore`.
pub mod Db
pub mod Task
pub mod Tasks
pub mod Consistency
pub mod Tables
pub mod Answers
pub mod Calm
pub mod Calls
pub mod Lookup
pub mod Claim
pub mod Changes
pub mod Purge
pub mod Dependents
pub mod Rules
pub mod Executions
pub mod Rebind
pub mod Tests
