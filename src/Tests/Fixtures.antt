-- ===== src/Tests/Fixtures.antt =====
-- The requests, services and tables that the tests share.
use open_clause.Base.{none, some, [], ◌∷◌, Text, text, Faults, ok, Unicode}
use open_clause.Base.Int.{pos}
use open_clause.Json.{null, str}
use open_clause.Types.ToolCall.{ToolCallRequest, RawMessage, current_schema_ver}
use open_clause.Types.Policy.{Decision, PolicyResult, ExecutionResult, ToolCallEnvelope}
use open_clause.Evidence.Store.Tables.{Db}
use open_clause.Evidence.Store.Write.{Codec}

-- Text without ASCII bytes is left as it is.
abbrev pub no_unicode : Unicode
no_unicode = record { trim_space = λ s. s; to_lower = λ s. s }

abbrev pub no_faults : Faults
no_faults n = none

abbrev pub empty_message : RawMessage
empty_message = record { bytes = []; value = null }

abbrev pub request : ToolCallRequest
request = record {
  tenant_id = text "t";
  agent_id = text "a";
  tool = text "jira";
  action = text "list";
  params = empty_message;
  resource = text "r";
  risk_score = pos 1;
  risk_factors = [];
  user_id = [];
  session_id = [];
  labels = [];
  source_ip = [];
  trace_id = [];
  idempotency_key = text "k";
  requested_at = 5;
  schema_version = current_schema_ver;
}

abbrev pub policy_result : Decision → PolicyResult
policy_result d = record {
  decision = d;
  reason = [];
  requirements = [];
  risk_overrides = [];
  notify = [];
  approver_group = [];
}

abbrev pub execution : ExecutionResult
execution = record {
  status = text "success";
  output_json = empty_message;
  error = [];
  duration_ms = 3;
}

abbrev pub event : Decision → Text → ToolCallEnvelope
event d id = record {
  event_id = id;
  request = request;
  payload_json = request;
  payload_canon = [];
  received_at = 7;
  decision = d;
  policy_result = some (policy_result d);
  execution_result = some execution;
  hash = [];
  prev_hash = [];
}

-- The payload of an event is its resource, and its result the status.
abbrev pub codec : Codec
codec = record { request = λ r. ok (str r.resource); result = λ r. ok (str r.status) }

-- A hash that keeps the text, behind one byte.
abbrev pub keep : Text → Text
keep s = 1 ∷ s

abbrev pub no_events : Db
no_events = record {
  tenants = text "t" ∷ [];
  events = [];
  results = [];
  executions = [];
  checkpoints = [];
  next_seq = 1;
}
