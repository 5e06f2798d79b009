-- ===== src/Evidence/Store.antt =====
-- `pkg/evidence/store.go` over the tables of `migrations/001_initial.sql`. An operation takes the
-- failures of the driver and the tables, and returns its result and the new tables. The
-- transaction of an operation that fails is rolled back: the tables stay as they were.
pub mod Tables
pub mod Write
pub mod Read
pub mod Rows
pub mod Appended
pub mod Chains
pub mod Later
pub mod Idempotency
pub mod Links
pub mod Refused
