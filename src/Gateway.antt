-- ===== src/Gateway.antt =====
-- The gateway: `cmd/gateway/main.go`.
pub mod Model
pub mod Calls
pub mod ToolCalls
pub mod Execution
pub mod RateLimiter
pub mod Wired
