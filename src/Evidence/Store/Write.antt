-- ===== src/Evidence/Store/Write.antt =====
-- The write path: `RecordEvent` and `LinkExecutionToParent`.
use open_clause.Base.{
  ℕ, ◌*◌, ◌+◌, ◌%◌, ◌^◌, Option, none, some, List, [], ◌∷◌, ◌++◌, Text, text, ◌==◌, Bool, true,
  false, Result, ok, err, wrap, Faults, call, ◌>>=◌, ◌>>◌, if◌then◌else◌,
}
use Prim.Native.Nat.{bit_xor}
use open_clause.Json.{Json}
use open_clause.Types.ToolCall.{ToolCallRequest}
use open_clause.Types.Policy.{ToolCallEnvelope, ExecutionResult}
use open_clause.Evidence.Canonical.{canonical_json}
use open_clause.Evidence.HashChain.{chain_hash}
use open_clause.Evidence.Store.Tables.{
  EventRow, ResultRow, ExecutionRow, Db, insert_event, insert_result, insert_execution,
  unique_violation, foreign_key_violation,
}

-- What `json.Marshal` and the decoder of `CanonicalJSON` make of a request and of a result.
pub record Codec : Type 0 where
  pub request : ToolCallRequest → Result Text Json
  pub result : ExecutionResult → Result Text Json

-- `tenantLockID`, with FNV-1a over 32 bits.
fnv : ℕ → Text → ℕ
fnv h [] = h
fnv h (c ∷ s) = fnv (bit_xor h c * 16777619 % 2 ^ 32) s

unfoldable pub tenant_lock_id : Text → ℕ
unfolding fnv
tenant_lock_id tenant = 0x4F434556 * 2 ^ 32 + fnv 2166136261 tenant

-- `lastHashTx`: the hash of the tenant's newest event, from the one before the given rows.
unfoldable pub last_hash_tx : Text → Text → List EventRow → Text
last_hash_tx tenant prev [] = prev
last_hash_tx tenant prev (r ∷ rows) =
    last_hash_tx tenant (if r.tenant_id == tenant then r.hash else prev) rows

abbrev pub event_row : ToolCallEnvelope → Text → Text → Text → EventRow
event_row env canon_payload hash prev_hash = record {
  event_seq = 0;
  event_id = env.event_id;
  tenant_id = env.request.tenant_id;
  agent_id = env.request.agent_id;
  tool = env.request.tool;
  action = env.request.action;
  payload_json = env.payload_json;
  payload_canon = canon_payload;
  risk_score = env.request.risk_score;
  decision = env.decision;
  policy_result = env.policy_result;
  idempotency_key = env.request.idempotency_key;
  session_id = env.request.session_id;
  user_id = env.request.user_id;
  source_ip = env.request.source_ip;
  trace_id = env.request.trace_id;
  received_at = env.received_at;
  requested_at = env.request.requested_at;
  hash = hash;
  prev_hash = prev_hash;
}

abbrev pub result_row : ToolCallEnvelope → ExecutionResult → Option Text → ResultRow
result_row env result canon_result = record {
  event_id = env.event_id;
  tenant_id = env.request.tenant_id;
  status = result.status;
  output_json = result.output_json;
  error_msg = result.error;
  duration_ms = result.duration_ms;
  result_canon = canon_result;
}

module _ (sha256 : Text → Text) (codec : Codec) where
  unfoldable pub canonical_result : Option ExecutionResult → Result Text (Option Text)
  canonical_result none = ok none
  canonical_result (some r) = do canon ← canonical_json (codec.result r); ok (some canon)

  unfoldable pub save_result :
      Faults → ToolCallEnvelope → Option Text → Option ExecutionResult → Db → Result Text Db
  save_result f env canon none db = ok db
  save_result f env canon (some r) db = do
    call (f 4) (text "evidence.RecordEvent insert result: ")
    wrap (text "evidence.RecordEvent insert result: ") (insert_result (result_row env r canon) db)

  -- The transaction of `RecordEvent`, up to its commit. The lock of `tenantLockID` makes the
  -- transactions of one tenant follow one another.
  unfoldable pub record_event_tx :
      Faults → ToolCallEnvelope → Db → Result Text (ToolCallEnvelope × Db)
  unfolding save_result
  record_event_tx f env db = do
    call (f 0) (text "evidence.RecordEvent begin tx: ")
    call (f 1) (text "evidence.RecordEvent advisory lock: ")
    call (f 2) (text "evidence.RecordEvent last hash: ")
    let prev_hash = last_hash_tx env.request.tenant_id [] db.events
    canon_payload ←
        wrap (text "evidence.RecordEvent canonical: ") (canonical_json (codec.request env.request))
    canon_result ←
        wrap (text "evidence.RecordEvent canonical result: ")
          (canonical_result env.execution_result)
    let hash = chain_hash sha256 prev_hash canon_payload canon_result
    call (f 3) (text "evidence.RecordEvent insert event: ")
    db1 ←
        wrap (text "evidence.RecordEvent insert event: ")
          (insert_event (event_row env canon_payload hash prev_hash) db)
    db2 ← save_result f env canon_result env.execution_result db1
    call (f 5) (text "evidence.RecordEvent commit: ")
    ok (record env { hash = hash; prev_hash = prev_hash; payload_canon = canon_payload }, db2)

  -- `RecordEvent`: the envelope as it leaves it, or the error.
  unfoldable pub record_event : Faults → ToolCallEnvelope → Db → Result Text ToolCallEnvelope × Db
  record_event f env db = elim (record_event_tx f env db) [
    | err e ↦ (err e, db)
    | ok (env', db') ↦ (ok env', db')
  ]

-- `LinkExecutionToParent`: whether this call made the link.
unfoldable pub link_execution_to_parent : Faults → Text → Text → Text → Db → Result Text Bool × Db
link_execution_to_parent f parent execution grant db =
    let row : ExecutionRow = record {
      parent_event_id = parent;
      execution_event_id = execution;
      consumed_grant_id = grant;
    } in
    elim (f 0) [
      | some e ↦ (err (text "evidence.LinkExecutionToParent: " ++ e), db)
      | none ↦ elim (insert_execution row db) [
        | ok db' ↦ (ok true, db')
        | err unique_violation ↦ (ok false, db)
        | err foreign_key_violation ↦
            (err (text "evidence.LinkExecutionToParent: tool_executions_fkey"), db)
      ]
    ]
