-- ===== src/Gateway/ToolCalls.antt =====
-- `HandleToolCall` and `executeConnector` of `cmd/gateway/main.go`.
pub mod Guarded
pub mod Recorded
use open_clause.Base.{
  ℕ, Bool, true, false, Option, none, some, List, [], ◌∷◌, ◌++◌, Text, text, is_empty,
  if◌then◌else◌,
}
use open_clause.Base.{Unicode}
use open_clause.Base.{Result, ok, err}
use open_clause.Json.{null}
use open_clause.Types.Errors.{bad_request, validation_error, rate_limited, internal}
use open_clause.Types.ToolCall.{
  ToolCallRequest, RawMessage, ValidationError, normalize_and_validate,
}
use open_clause.Types.Policy.{
  Decision, allow, deny, approve, other, PolicyResult, ExecutionResult, ToolCallEnvelope,
  ToolCallResponse,
}
use open_clause.Approvals.Model.{CreateApprovalInput, ApprovalRequest}
use open_clause.Gateway.Model.{
  Services, Handler, Reply, failed, replied, PolicyInput, ExecRequest, ExecResponse, Reading, ◌>>=◌,
}
use open_clause.Gateway.Calls.{
  pure, respond, stop, unless_err, check_idempotency, evaluate, exec, record_event, create_request,
  allow_rate, marshal,
}

-- A nil `json.RawMessage`.
abbrev pub no_bytes : RawMessage
no_bytes = record { bytes = []; value = null }

unfoldable pub exec_request : Text → ToolCallRequest → ExecRequest
exec_request event_id r = record {
  event_id = event_id;
  tenant_id = r.tenant_id;
  agent_id = r.agent_id;
  tool = r.tool;
  action = r.action;
  params = r.params;
  resource = r.resource;
}

unfoldable pub execution_result : ℕ → Result Text ExecResponse → ExecutionResult
execution_result ms (err e) = record {
  status = text "error";
  output_json = no_bytes;
  error = e;
  duration_ms = ms;
}
execution_result ms (ok x) = record {
  status = x.status;
  output_json = x.output_json;
  error = x.error;
  duration_ms = ms;
}

-- The tenant of the API key replaces the request's.
unfoldable pub override_tenant : Text → ToolCallRequest → ToolCallRequest
override_tenant t r = if is_empty t then r else record r { tenant_id = t }

unfoldable pub envelope : Reading → ToolCallRequest → PolicyResult → ToolCallEnvelope
envelope rd r p = record {
  event_id = rd.id;
  request = r;
  payload_json = r;
  payload_canon = [];
  received_at = rd.received_at;
  decision = p.decision;
  policy_result = some p;
  execution_result = none;
  hash = [];
  prev_hash = [];
}

-- A failed evaluation is a denial.
unfoldable pub or_deny : Result Text PolicyResult → PolicyResult
or_deny (ok p) = p
or_deny (err e) = record {
  decision = deny;
  reason = text "policy evaluation failed";
  requirements = [];
  risk_overrides = [];
  notify = [];
  approver_group = [];
}

unfoldable pub approval_input :
    Text → Reading → ToolCallRequest → PolicyResult → CreateApprovalInput
approval_input approvals_url rd r p = record {
  event_id = rd.id;
  tenant_id = r.tenant_id;
  agent_id = r.agent_id;
  tool = r.tool;
  action = r.action;
  resource = r.resource;
  risk_score = r.risk_score;
  risk_factors = r.risk_factors;
  reason = p.reason;
  trace_id = r.trace_id;
  approver_group = p.approver_group;
  notify = p.notify;
  approval_base_url = approvals_url;
}

unfoldable pub approval_url : Text → Result Text ApprovalRequest → Text
approval_url approvals_url (ok x) = approvals_url ++ text "/v1/approvals/requests/" ++ x.id
approval_url approvals_url (err e) = []

unfoldable pub response : Reading → PolicyResult → ToolCallResponse
response rd p = record {
  event_id = rd.id;
  decision = p.decision;
  reason = p.reason;
  approval_url = [];
  result = none;
}

module _ {S : Services} where
  unfoldable pub execute_connector : Reading → ToolCallRequest → Handler S ExecutionResult
  execute_connector rd r = do
    x ← exec (exec_request rd.id r)
    pure (execution_result rd.duration_ms x)

  -- The switch on the decision.
  unfoldable pub act : Text → Reading → ToolCallRequest → PolicyResult → Decision → Handler S Reply
  act approvals_url rd r p deny = do
    _ ← record_event (envelope rd r p)
    pure (replied (response rd p))
  act approvals_url rd r p approve = do
    _ ← record_event (envelope rd r p)
    x ← create_request (approval_input approvals_url rd r p)
    pure (replied (record (response rd p) { approval_url = approval_url approvals_url x }))
  act approvals_url rd r p allow = do
    result ← execute_connector rd r
    answer ← record_event (record (envelope rd r p) { execution_result = some result })
    _ ← unless_err (internal (text "evidence recording failed after execution")) answer
    pure (replied (record (response rd p) { result = some result }))
  act approvals_url rd r p (other s) = do
    _ ← record_event (record (envelope rd r p) { decision = deny })
    pure (
        replied (record (response rd p) {
          decision = deny;
          reason = text "unrecognized policy decision";
        }))

  unfoldable pub decide : Text → Reading → ToolCallRequest → Handler S Reply
  decide approvals_url rd r = do
    _ ← marshal (internal (text "request processing failed")) r
    answer ← evaluate (record { tool_call = r; timestamp = rd.evaluated_at })
    act approvals_url rd r (or_deny answer) (or_deny answer).decision

  unfoldable pub replay_or_decide :
      Text → Reading → ToolCallRequest → Option ToolCallResponse → Handler S Reply
  replay_or_decide approvals_url rd r (some prior) = pure (replied prior)
  replay_or_decide approvals_url rd r none = decide approvals_url rd r

  -- From the validated request on.
  unfoldable pub serve : Text → Reading → ToolCallRequest → Handler S Reply
  serve approvals_url rd r = do
    admitted ← allow_rate r.tenant_id
    _ ← if admitted then pure tt else stop rate_limited
    answer ← check_idempotency r.tenant_id r.idempotency_key
    prior ← unless_err (internal (text "failed to validate idempotency")) answer
    replay_or_decide approvals_url rd r prior

-- The message of a `ValidationError`, `Error()`, is a parameter, as is the decoded body: `err` if it
-- is no JSON or longer than `maxBodyBytes`.
module _ {S : Services} (u : Unicode) (message : ValidationError → Text) where
  unfoldable pub handle_tool_call : Text → Reading → Result Text ToolCallRequest → Handler S Reply
  handle_tool_call approvals_url rd (err e) = stop (bad_request (text "invalid JSON body"))
  handle_tool_call approvals_url rd (ok req) = elim (normalize_and_validate u rd.now req) [
    | err e ↦ stop (validation_error (message e))
    | ok r ↦ serve approvals_url rd (override_tenant rd.auth_tenant r)
  ]
