-- ===== src/Evidence/Store/Read.antt =====
-- The read path: `CheckIdempotency`, `GetEvent`, `GetExecutionByParentEvent`, `GetChainEvents`,
-- `ListTenantIDs` and the archive checkpoints.
mod Finds
mod Windows
mod Checkpoints
unfoldable pub use Finds.*
unfoldable pub use Windows.*
unfoldable pub use Checkpoints.*
use open_clause.Base.{
  ℕ, Option, none, some, List, [], ◌∷◌, ◌++◌, Text, text, ◌==◌, ◌&&◌, Result, ok, err, Faults, call,
  ◌>>◌, if◌then◌else◌, ltb, any,
}
use open_clause.Base.Order.{sort}
use open_clause.Types.ToolCall.{Time}
use open_clause.Types.Policy.{
  Decision, other, ToolCallEnvelope, ToolCallResponse, ExecutionResult, PolicyResult,
}
use open_clause.Evidence.HashChain.{ChainEvent}
use open_clause.Evidence.Store.Tables.{
  EventRow, ResultRow, ExecutionRow, CheckpointRow, Db, has_tenant,
}

abbrev response : Text → Decision → Text → Option ExecutionResult → ToolCallResponse
response id decision reason result = record {
  event_id = id;
  decision = decision;
  reason = reason;
  approval_url = [];
  result = result;
}

-- `CheckIdempotency`.
unfoldable pub check_idempotency : Faults → Text → Text → Db → Result Text (Option ToolCallResponse)
unfolding find_key
check_idempotency f tenant key db = do
  call (f 0) (text "evidence.CheckIdempotency: ")
  ok (elim (find_key tenant key db.events) [
    | none ↦ none
    | some r ↦ some (response r.event_id r.decision (text "idempotent replay") none)
  ])

-- The `ExecutionResult` that the columns of a result are read into.
unfoldable pub read_result : Option ResultRow → Option ExecutionResult
read_result none = none
read_result (some r) = some (record {
  status = r.status;
  output_json = r.output_json;
  error = r.error_msg;
  duration_ms = r.duration_ms;
})

-- A missing policy result is stored as the JSON `null`, which reads as an empty one.
unfoldable pub read_policy : Option PolicyResult → PolicyResult
read_policy (some p) = p
read_policy none = record {
  decision = other [];
  reason = [];
  requirements = [];
  risk_overrides = [];
  notify = [];
  approver_group = [];
}

-- The envelope that `GetEvent` builds of the scanned columns: the request of `payload_json` under
-- the columns of the row.
unfoldable pub read_event : EventRow → Option ResultRow → ToolCallEnvelope
unfolding read_result read_policy
read_event r result = record {
  event_id = r.event_id;
  request = record r.payload_json {
    tenant_id = r.tenant_id;
    agent_id = r.agent_id;
    tool = r.tool;
    action = r.action;
    risk_score = r.risk_score;
    idempotency_key = r.idempotency_key;
    session_id = r.session_id;
    user_id = r.user_id;
    source_ip = r.source_ip;
    trace_id = r.trace_id;
    requested_at = r.requested_at;
  };
  payload_json = r.payload_json;
  payload_canon = r.payload_canon;
  received_at = r.received_at;
  decision = r.decision;
  policy_result = some (read_policy r.policy_result);
  execution_result = read_result result;
  hash = r.hash;
  prev_hash = r.prev_hash;
}

-- The columns of the two tables that the query of `GetEvent` joins.
abbrev tool_events_columns : List Text
tool_events_columns =
    text "event_seq"
    ∷ text "event_id"
    ∷ text "tenant_id"
    ∷ text "agent_id"
    ∷ text "tool"
    ∷ text "action"
    ∷ text "payload_json"
    ∷ text "payload_canon"
    ∷ text "risk_score"
    ∷ text "decision"
    ∷ text "policy_result"
    ∷ text "idempotency_key"
    ∷ text "session_id"
    ∷ text "user_id"
    ∷ text "source_ip"
    ∷ text "trace_id"
    ∷ text "received_at"
    ∷ text "requested_at"
    ∷ text "hash"
    ∷ text "prev_hash"
    ∷ []

abbrev tool_results_columns : List Text
tool_results_columns =
    text "id"
    ∷ text "event_id"
    ∷ text "tenant_id"
    ∷ text "status"
    ∷ text "output_json"
    ∷ text "error_msg"
    ∷ text "duration_ms"
    ∷ text "result_canon"
    ∷ text "created_at"
    ∷ []

-- The columns that the query of `GetEvent` selects without the name of a table.
abbrev selected : List Text
selected =
    text "event_id"
    ∷ text "tenant_id"
    ∷ text "agent_id"
    ∷ text "tool"
    ∷ text "action"
    ∷ text "payload_json"
    ∷ text "payload_canon"
    ∷ text "risk_score"
    ∷ text "decision"
    ∷ text "policy_result"
    ∷ text "idempotency_key"
    ∷ text "session_id"
    ∷ text "user_id"
    ∷ text "source_ip"
    ∷ text "trace_id"
    ∷ text "received_at"
    ∷ text "requested_at"
    ∷ text "hash"
    ∷ text "prev_hash"
    ∷ []

-- SQL refuses a query with an unqualified column that two of its tables have.
unfoldable pub ambiguous : List Text → List Text → List Text → Option Text
ambiguous a b [] = none
ambiguous a b (c ∷ cs) =
    if any (λ x. x == c) a && any (λ x. x == c) b then some c else ambiguous a b cs

-- `GetEvent`.
unfoldable pub get_event : Faults → Text → Db → Result Text (Option ToolCallEnvelope)
unfolding find_event join_result read_event ambiguous
get_event f id db = do
  call (f 0) (text "evidence.GetEvent: ")
  call (ambiguous tool_events_columns tool_results_columns selected)
      (text "evidence.GetEvent: column reference is ambiguous: ")
  ok (elim (find_event id db.events) [
    | none ↦ none
    | some r ↦ some (read_event r (join_result r.event_id db.results))
  ])

-- The `JOIN` of a link with the execution's event.
unfoldable pub read_execution : Option ExecutionRow → Db → Option ToolCallResponse
unfolding read_result find_event join_result
read_execution none db = none
read_execution (some x) db = elim (find_event x.execution_event_id db.events) [
  | none ↦ none
  | some e ↦ some (
      response e.event_id e.decision (text "idempotent execute replay")
        (read_result (join_result e.event_id db.results)))
]

-- `GetExecutionByParentEvent`.
unfoldable pub get_execution_by_parent_event :
    Faults → Text → Db → Result Text (Option ToolCallResponse)
unfolding read_execution find_parent
get_execution_by_parent_event f parent db = do
  call (f 0) (text "evidence.GetExecutionByParentEvent: ")
  ok (read_execution (find_parent parent db.executions) db)
