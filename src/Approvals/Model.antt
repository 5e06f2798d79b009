-- ===== src/Approvals/Model.antt =====
-- The data of `pkg/approvals/types.go` and the tables that hold them.
use open_clause.Base.{ℕ, List, Text}
use open_clause.Base.Int.{ℤ}
use open_clause.Types.ToolCall.{Time}
use open_clause.Types.Policy.{PolicyNotify}

pub data Status : Type 0 where
  pending approved denied expired : Status

-- A row of `approval_requests`. Its `denied_by` is no field of the struct `ApprovalRequest`: no query
-- reads it, and what an operation returns stands for the struct, in which it plays no part.
pub record ApprovalRequest : Type 0 where
  pub id : Text
  pub event_id : Text
  pub tenant_id : Text
  pub agent_id : Text
  pub tool : Text
  pub action : Text
  pub resource : Text
  pub risk_score : ℤ
  pub reason : Text
  pub deny_reason : Text
  pub denied_by : Text
  pub status : Status
  pub created_at : Time
  pub expires_at : Time

pub record ApprovalScope : Type 0 where
  pub tool : Text
  pub action : Text
  pub resource_pattern : Text
  pub tenant_id : Text
  pub agent_id : Text

-- A row of `approval_grants`.
pub record ApprovalGrant : Type 0 where
  pub id : Text
  pub request_id : Text
  pub tenant_id : Text
  pub approver : Text
  pub scope : ApprovalScope
  pub max_uses : ℕ
  pub uses_left : ℕ
  pub expires_at : Time
  pub granted_at : Time

pub record CreateApprovalInput : Type 0 where
  pub event_id : Text
  pub tenant_id : Text
  pub agent_id : Text
  pub tool : Text
  pub action : Text
  pub resource : Text
  pub risk_score : ℤ
  pub risk_factors : List Text
  pub reason : Text
  pub trace_id : Text
  pub approver_group : Text
  pub notify : List PolicyNotify
  pub approval_base_url : Text

pub record GrantInput : Type 0 where
  pub approver : Text
  pub max_uses : ℤ
  pub expires_in_sec : ℤ
  pub resource_pattern : Text

pub record DenyInput : Type 0 where
  pub approver : Text
  pub reason : Text

pub data OutboxStatus : Type 0 where
  pending processing sent failed : OutboxStatus

-- A row of `approval_notification_outbox`.
pub record NotificationOutbox : Type 0 where
  pub id : Text
  pub approval_request_id : Text
  pub tenant_id : Text
  pub event_id : Text
  pub trace_id : Text
  pub tool : Text
  pub action : Text
  pub resource : Text
  pub risk_score : ℤ
  pub risk_factors : List Text
  pub reason : Text
  pub approval_url : Text
  pub approver_group : Text
  pub notify_kind : Text
  pub notify_url : Text
  pub secret_ref : Text
  pub slack_channel : Text
  pub attempts : ℕ
  pub status : OutboxStatus
  pub next_attempt_at : Time
  pub created_at : Time
  pub last_error : Text

pub record Db : Type 0 where
  pub requests : List ApprovalRequest
  pub grants : List ApprovalGrant
  pub outbox : List NotificationOutbox
