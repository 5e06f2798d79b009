-- ===== src/Approvals/Store/Outbox/Claims.antt =====
-- Two claims never return the same notification.
use open_clause.Approvals.Model
