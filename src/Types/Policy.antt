-- ===== src/Types/Policy.antt =====
-- The policy's input and result, the execution's result and the response of `pkg/types/toolcall.go`.
use open_clause.Base.{ℕ, Option, List, Text, text, ◌==◌, if◌then◌else◌}
use open_clause.Base.Int.{ℤ}
use open_clause.Types.ToolCall.{ToolCallRequest, RawMessage, Time}

-- A `Decision` is one of three strings, or another.
pub data Decision : Type 0 where
  allow deny approve : Decision
  other : Text → Decision

-- The conversion `types.Decision(s)`.
unfoldable pub decision : Text → Decision
decision s =
    if s == text "allow"
    then allow
    else if s == text "deny"
    then deny
    else if s == text "approve"
    then approve
    else other s

pub record PolicyNotify : Type 0 where
  pub kind : Text
  pub url : Text
  pub secret_ref : Text
  pub channel : Text

pub record PolicyResult : Type 0 where
  pub decision : Decision
  pub reason : Text
  pub requirements : List (Text × Text)
  pub risk_overrides : List (Text × ℤ)
  pub notify : List PolicyNotify
  pub approver_group : Text

pub record ExecutionResult : Type 0 where
  pub status : Text
  pub output_json : RawMessage
  pub error : Text
  pub duration_ms : ℕ

pub record ToolCallEnvelope : Type 0 where
  pub event_id : Text
  pub request : ToolCallRequest
  pub payload_json : ToolCallRequest
  pub payload_canon : Text
  pub received_at : Time
  pub decision : Decision
  pub policy_result : Option PolicyResult
  pub execution_result : Option ExecutionResult
  pub hash : Text
  pub prev_hash : Text

pub record ToolCallResponse : Type 0 where
  pub event_id : Text
  pub decision : Decision
  pub reason : Text
  pub approval_url : Text
  pub result : Option ExecutionResult
