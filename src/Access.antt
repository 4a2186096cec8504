-- ===== src/Access.antt =====
-- internal/auth/auth.go and the parts of internal/server that decide who may call: server.go,
-- handlers.go and clientKey of ratelimit.go.
pub mod Passwords
pub mod Manager
pub mod Door
pub mod Handlers
pub mod Tests
