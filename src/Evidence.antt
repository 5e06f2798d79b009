-- ===== src/Evidence.antt =====
-- Canonicalization, hashing and storage of the audit evidence: the package `pkg/evidence`.
pub mod Canonical
pub mod HashChain
pub mod Store
