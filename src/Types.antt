-- ===== src/Types.antt =====
-- The data that the services share: the package `pkg/types`.
pub mod ToolCall
pub mod Errors
pub mod Policy
