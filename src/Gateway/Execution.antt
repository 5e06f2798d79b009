-- ===== src/Gateway/Execution.antt =====
-- `HandleExecuteToolCall` and `HandleGetEvent` of `cmd/gateway/main.go`.
pub mod Outcomes
pub mod Granted
pub mod Isolated
use open_clause.Base.{
  ℕ, zero, suc, Bool, true, false, not, ◌&&◌, Option, none, some, List, [], ◌∷◌, ◌++◌, Text, text,
  ◌==◌, is_empty, if◌then◌else◌, Result, ok, err,
}
use open_clause.Types.Errors.{ApiError, bad_request, not_found, conflict, internal}
use open_clause.Types.ToolCall.{ToolCallRequest}
use open_clause.Types.Policy.{
  Decision, allow, deny, approve, other, PolicyResult, ExecutionResult, ToolCallEnvelope,
  ToolCallResponse,
}
use open_clause.Approvals.Model.{ApprovalGrant}
use open_clause.Approvals.Store.Grants.{Wanted}
use open_clause.Gateway.Model.{Services, Handler, Reply, failed, replied, shown, Reading, ◌>>=◌}
use open_clause.Gateway.Calls.{
  pure, respond, stop, unless_err, record_event, get_event, get_execution, find_and_consume_grant,
  link_execution, marshal,
}
use open_clause.Gateway.ToolCalls.{execute_connector}

abbrev pub execute_poll_count : ℕ
execute_poll_count = 5

-- The event is none of the authenticated tenant's: `authTenant != "" && ... != authTenant`.
unfoldable pub is_foreign : Text → ToolCallEnvelope → Bool
is_foreign auth env = not (is_empty auth) && not (env.request.tenant_id == auth)

unfoldable pub needs_approval : Decision → Bool
needs_approval approve = true
needs_approval allow = false
needs_approval deny = false
needs_approval (other s) = false

unfoldable pub wanted : ToolCallRequest → Wanted
wanted r = record {
  tenant_id = r.tenant_id;
  agent_id = r.agent_id;
  tool = r.tool;
  action = r.action;
  resource = r.resource;
}

-- The request of the execution's event: its key is that of no tool call.
unfoldable pub execution_request : Text → ToolCallRequest → ToolCallRequest
execution_request parent_id r = record r { idempotency_key = text "exec:" ++ parent_id }

abbrev pub approved_execution : PolicyResult
approved_execution = record {
  decision = allow;
  reason = text "approved execution";
  requirements = [];
  risk_overrides = [];
  notify = [];
  approver_group = [];
}

unfoldable pub execution_envelope :
    Text → Reading → ToolCallRequest → ExecutionResult → ToolCallEnvelope
execution_envelope parent_id rd r result = record {
  event_id = rd.id;
  request = execution_request parent_id r;
  payload_json = execution_request parent_id r;
  payload_canon = [];
  received_at = rd.received_at;
  decision = allow;
  policy_result = some approved_execution;
  execution_result = some result;
  hash = [];
  prev_hash = [];
}

unfoldable pub execution_response : Reading → ExecutionResult → ToolCallResponse
execution_response rd result = record {
  event_id = rd.id;
  decision = allow;
  reason = text "approved execution";
  approval_url = [];
  result = some result;
}

module _ {S : Services} where
  -- `GetEvent` with the checks of its answer that both handlers make. `authTenant` is empty for a
  -- request without a key.
  unfoldable pub own_event : Text → Text → Option ToolCallEnvelope → Handler S ToolCallEnvelope
  own_event auth id none = stop (not_found (text "event not found"))
  own_event auth id (some env) =
      if is_foreign auth env then stop (not_found (text "event not found")) else pure env

  unfoldable pub find_event : Text → Text → Handler S ToolCallEnvelope
  find_event auth id = do
    answer ← get_event id
    found ← unless_err (internal (text "failed to retrieve event")) answer
    own_event auth id found

  -- `GetExecutionByParentEvent`, whose answer, if there is one, is the response.
  unfoldable pub replay : Option ToolCallResponse → Handler S (Unit {0})
  replay none = pure tt
  replay (some prior) = respond (replied prior)

  unfoldable pub replay_execution : Text → Handler S (Unit {0})
  replay_execution parent_id = do
    answer ← get_execution parent_id
    existing ← unless_err (internal (text "failed to retrieve prior execution")) answer
    replay existing

  -- The polling: `cancelled` says in which of the remaining rounds the context is done before the
  -- 50 milliseconds are over.
  unfoldable pub poll : Text → (ℕ → Bool) → ℕ → Handler S Reply
  poll parent_id cancelled zero = stop (conflict (text "awaiting approval"))
  poll parent_id cancelled (suc n) = do
    _ ← if cancelled n then stop (internal (text "request cancelled")) else pure tt
    _ ← replay_execution parent_id
    poll parent_id cancelled n

  -- `if !linked`: another request may have made the link.
  unfoldable pub replay_unlinked : Text → Bool → Handler S (Unit {0})
  replay_unlinked parent_id true = pure tt
  replay_unlinked parent_id false = replay_execution parent_id

  -- From the answer of `LinkExecutionToParent` on.
  unfoldable pub finish : Text → Reading → ExecutionResult → Result Text Bool → Handler S Reply
  finish parent_id rd result answer = do
    is_linked ← unless_err (internal (text "failed to finalize execution")) answer
    _ ← replay_unlinked parent_id is_linked
    pure (replied (execution_response rd result))

  -- From the consumed grant on.
  unfoldable pub execute : Text → Reading → ToolCallRequest → ApprovalGrant → Handler S Reply
  execute parent_id rd r grant = do
    _ ← marshal (internal (text "request processing failed")) r
    result ← execute_connector rd r
    _ ← marshal (internal (text "request processing failed")) (execution_request parent_id r)
    saved ← record_event (execution_envelope parent_id rd r result)
    _ ← unless_err (internal (text "failed to record execution evidence")) saved
    answer ← link_execution parent_id rd.id grant.id
    finish parent_id rd result answer

  unfoldable pub execute_or_poll :
      Text → Reading → (ℕ → Bool) → ToolCallRequest → Option ApprovalGrant → Handler S Reply
  execute_or_poll parent_id rd cancelled r (some grant) = execute parent_id rd r grant
  execute_or_poll parent_id rd cancelled r none = poll parent_id cancelled execute_poll_count

  unfoldable pub resume : Text → Reading → (ℕ → Bool) → ToolCallEnvelope → Handler S Reply
  resume parent_id rd cancelled parent = do
    _ ←
        if needs_approval parent.decision
        then pure tt
        else stop (conflict (text "event does not require approval execution"))
    _ ← replay_execution parent_id
    answer ← find_and_consume_grant (wanted parent.request)
    grant ← unless_err (internal (text "failed to consume approval grant")) answer
    execute_or_poll parent_id rd cancelled parent.request grant

  -- `is_uuid` is `uuid.Parse`.
  unfoldable pub handle_execute_tool_call :
      (Text → Bool) → (ℕ → Bool) → Reading → Text → Handler S Reply
  handle_execute_tool_call is_uuid cancelled rd parent_id = do
    _ ← if is_uuid parent_id then pure tt else stop (bad_request (text "invalid event_id format"))
    parent ← find_event rd.auth_tenant parent_id
    resume parent_id rd cancelled parent

  unfoldable pub handle_get_event : (Text → Bool) → Text → Text → Handler S Reply
  handle_get_event is_uuid auth id = do
    _ ← if is_uuid id then pure tt else stop (bad_request (text "invalid event_id format"))
    env ← find_event auth id
    pure (shown env)
