-- ===== src/Approvals/Store.antt =====
-- `pkg/approvals/store.go`. Times, fresh ids and the failures of the driver are arguments; a
-- transaction that fails leaves the tables as they were.
pub mod Requests
pub mod Pending
pub mod Grants
pub mod Outbox
pub mod Rows
pub mod Outcomes
pub mod Lifecycle
pub mod Decisions
pub mod Accepted
pub mod Candidates
pub mod Uses
pub mod Counts
pub mod Expiry
