-- ===== src/Automation.antt =====
-- internal/automation: cron expressions and the rule engine.
pub mod Text
pub mod Cron
pub mod Engine
pub mod Tests
