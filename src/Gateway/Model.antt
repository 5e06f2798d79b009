-- ===== src/Gateway/Model.antt =====
-- What the handlers of `cmd/gateway/main.go` work with: the interfaces of the `Gateway` as
-- operations on one state, the calls that a handler has made of them, and the handler's early
-- return as the bind of a monad. The calls are kept for the statements alone.
use open_clause.Base.{ℕ, Bool, Option, List, Text}
use open_clause.Base.{Result, ok, err}
use open_clause.Types.ToolCall.{Time, RawMessage, ToolCallRequest}
use open_clause.Types.Errors.{ApiError}
use open_clause.Types.Policy.{PolicyResult, ToolCallEnvelope, ToolCallResponse}
use open_clause.Approvals.Model.{CreateApprovalInput, ApprovalRequest, ApprovalGrant}
use open_clause.Approvals.Store.Grants.{Wanted}

-- `TenantConfig` is set nowhere.
pub record PolicyInput : Type 0 where
  pub tool_call : ToolCallRequest
  pub timestamp : Time

pub record ExecRequest : Type 0 where
  pub event_id : Text
  pub tenant_id : Text
  pub agent_id : Text
  pub tool : Text
  pub action : Text
  pub params : RawMessage
  pub resource : Text

pub record ExecResponse : Type 0 where
  pub status : Text
  pub output_json : RawMessage
  pub error : Text

-- The interfaces `gatewayEvidence`, `gatewayPolicy`, `gatewayConnectors` and `gatewayApprovals`,
-- the rate limiters, and the error of `json.Marshal` on a request. `record_event` also returns the
-- envelope, which the store fills in through its pointer.
pub record Services : Type 1 where
  pub State : Type 0
  pub record_event : ToolCallEnvelope → State → Result Text ToolCallEnvelope × State
  pub check_idempotency : Text → Text → State → Result Text (Option ToolCallResponse) × State
  pub get_event : Text → State → Result Text (Option ToolCallEnvelope) × State
  pub get_execution_by_parent_event : Text → State → Result Text (Option ToolCallResponse) × State
  pub link_execution_to_parent : Text → Text → Text → State → Result Text Bool × State
  pub evaluate : PolicyInput → State → Result Text PolicyResult × State
  pub exec : ExecRequest → State → Result Text ExecResponse × State
  pub create_request : CreateApprovalInput → State → Result Text ApprovalRequest × State
  pub find_and_consume_grant : Wanted → State → Result Text (Option ApprovalGrant) × State
  pub allow_rate : Text → State → Bool × State
  pub marshal : ToolCallRequest → Option Text

-- A call of a service, with its answer.
pub data Call : Type 0 where
  checked : Text → Text → Result Text (Option ToolCallResponse) → Call
  evaluated : PolicyInput → Result Text PolicyResult → Call
  executed : ExecRequest → Result Text ExecResponse → Call
  recorded : ToolCallEnvelope → Result Text ToolCallEnvelope → Call
  requested : CreateApprovalInput → Result Text ApprovalRequest → Call
  fetched : Text → Result Text (Option ToolCallEnvelope) → Call
  looked_up : Text → Result Text (Option ToolCallResponse) → Call
  consumed : Wanted → Result Text (Option ApprovalGrant) → Call
  linked : Text → Text → Text → Result Text Bool → Call

-- The response that a handler writes: an error, or the value that it encodes.
pub data Reply : Type 0 where
  failed : ApiError → Reply
  replied : ToolCallResponse → Reply
  shown : ToolCallEnvelope → Reply

-- What a handler reads of the clock, the new id that it draws, and the tenant of the key that
-- authenticated the request, which is empty if there is none.
pub record Reading : Type 0 where
  pub now : Time
  pub received_at : Time
  pub evaluated_at : Time
  pub duration_ms : ℕ
  pub id : Text
  pub auth_tenant : Text

module _ (S : Services) where
  -- The calls stand with the latest first.
  pub record World : Type 0 where
    pub state : S.State
    pub calls : List Call

  abbrev pub Handler : Type 0 → Type 0
  Handler A = World → Result Reply A × World

infixl 5 ◌>>=◌
abbrev pub ◌>>=◌ : {S : Services} {A B : Type 0} → Handler S A → (A → Handler S B) → Handler S B
◌>>=◌ m f w = let (r, w') = m w in elim r [ ok a ↦ f a w' | err reply ↦ (err reply, w') ]
