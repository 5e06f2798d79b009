-- ===== src/Approvals.antt =====
-- Approval requests, grants and notifications: the package `pkg/approvals`.
pub mod Model
pub mod Store
pub mod Notifier
pub mod Webhooks
pub mod SecretRefs
pub mod Deliveries
pub mod Authorizer
pub mod Handlers
