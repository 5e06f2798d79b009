-- ===== src/Evidence/Store/Tables.antt =====
-- The tables `tenants`, `tool_events`, `tool_results`, `tool_executions` and
-- `evidence_archive_checkpoints`, with the constraints that an INSERT checks.
use open_clause.Base.{
  ℕ, ◌+◌, Bool, true, false, not, ◌&&◌, ◌||◌, Option, List, [], ◌∷◌, ◌++◌, Text, text, ◌==◌, Result,
  ok, err, if◌then◌else◌,
}
use open_clause.Base.Int.{ℤ, pos, ltb_ℤ}
use open_clause.Types.ToolCall.{ToolCallRequest, RawMessage, Time}
use open_clause.Types.Policy.{Decision, other, PolicyResult}

pub record EventRow : Type 0 where
  pub event_seq : ℕ
  pub event_id : Text
  pub tenant_id : Text
  pub agent_id : Text
  pub tool : Text
  pub action : Text
  -- The request that the JSON encodes.
  pub payload_json : ToolCallRequest
  pub payload_canon : Text
  pub risk_score : ℤ
  pub decision : Decision
  pub policy_result : Option PolicyResult
  pub idempotency_key : Text
  pub session_id : Text
  pub user_id : Text
  pub source_ip : Text
  pub trace_id : Text
  pub received_at : Time
  pub requested_at : Time
  pub hash : Text
  pub prev_hash : Text

pub record ResultRow : Type 0 where
  pub event_id : Text
  pub tenant_id : Text
  pub status : Text
  pub output_json : RawMessage
  pub error_msg : Text
  pub duration_ms : ℕ
  pub result_canon : Option Text

pub record ExecutionRow : Type 0 where
  pub parent_event_id : Text
  pub execution_event_id : Text
  pub consumed_grant_id : Text

pub record CheckpointRow : Type 0 where
  pub tenant_id : Text
  pub last_archived_at : Time
  pub last_hash : Text
  pub last_event_seq : ℕ

-- The events stand in the order of `event_seq`. `next_seq` is the next value of its sequence,
-- which starts at 1; values that a rollback leaves out are not modelled.
pub record Db : Type 0 where
  pub tenants : List Text
  pub events : List EventRow
  pub results : List ResultRow
  pub executions : List ExecutionRow
  pub checkpoints : List CheckpointRow
  pub next_seq : ℕ

unfoldable pub has_event : Text → List EventRow → Bool
has_event id [] = false
has_event id (r ∷ rows) = r.event_id == id || has_event id rows

unfoldable pub has_key : Text → Text → List EventRow → Bool
has_key tenant key [] = false
has_key tenant key (r ∷ rows) =
    (r.tenant_id == tenant && r.idempotency_key == key) || has_key tenant key rows

unfoldable pub has_result : Text → List ResultRow → Bool
has_result id [] = false
has_result id (r ∷ rows) = r.event_id == id || has_result id rows

unfoldable pub has_tenant : Text → List Text → Bool
has_tenant id [] = false
has_tenant id (t ∷ ts) = t == id || has_tenant id ts

-- The CHECK of the column `decision`.
abbrev is_decision : Decision → Bool
is_decision (other s) = false
is_decision _ = true

-- The CHECK of the column `status`.
unfoldable pub is_status : Text → Bool
is_status s = s == text "success" || s == text "error" || s == text "timeout"

-- `INSERT INTO tool_events`. The row gets the next value of the sequence.
unfoldable pub insert_event : EventRow → Db → Result Text Db
insert_event row db =
    if not (has_tenant row.tenant_id db.tenants)
    then err (text "tool_events_tenant_id_fkey")
    else if has_event row.event_id db.events
    then err (text "tool_events_pkey")
    else if has_key row.tenant_id row.idempotency_key db.events
    then err (text "idx_tool_events_idempotency")
    else if ltb_ℤ row.risk_score (pos 0) || ltb_ℤ (pos 10) row.risk_score
    then err (text "tool_events_risk_score_check")
    else if not (is_decision row.decision)
    then err (text "tool_events_decision_check")
    else ok (record db {
      events = db.events ++ (record row { event_seq = db.next_seq } ∷ []);
      next_seq = db.next_seq + 1;
    })

-- `INSERT INTO tool_results`.
unfoldable pub insert_result : ResultRow → Db → Result Text Db
unfolding is_status
insert_result row db =
    if not (has_event row.event_id db.events)
    then err (text "tool_results_event_id_fkey")
    else if not (has_tenant row.tenant_id db.tenants)
    then err (text "tool_results_tenant_id_fkey")
    else if not (is_status row.status)
    then err (text "tool_results_status_check")
    else if has_result row.event_id db.results
    then err (text "idx_tool_results_event")
    else ok (record db { results = db.results ++ (row ∷ []) })

unfoldable pub has_parent : Text → List ExecutionRow → Bool
has_parent id [] = false
has_parent id (x ∷ rows) = x.parent_event_id == id || has_parent id rows

unfoldable pub has_execution : Text → List ExecutionRow → Bool
has_execution id [] = false
has_execution id (x ∷ rows) = x.execution_event_id == id || has_execution id rows

-- The errors of an INSERT that `LinkExecutionToParent` tells apart: code 23505 and any other.
pub data PgError : Type 0 where
  unique_violation : PgError
  foreign_key_violation : PgError

-- `INSERT INTO tool_executions`.
unfoldable pub insert_execution : ExecutionRow → Db → Result PgError Db
insert_execution row db =
    if has_parent row.parent_event_id db.executions
      || has_execution row.execution_event_id db.executions
    then err unique_violation
    else if not
        (has_event row.parent_event_id db.events && has_event row.execution_event_id db.events)
    then err foreign_key_violation
    else ok (record db { executions = db.executions ++ (row ∷ []) })
