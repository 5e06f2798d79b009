-- ===== src/Evidence/Store/Appended.antt =====
-- What a successful transaction of `RecordEvent` leaves.
use open_clause.Base.{
  ◌+◌, ◌≡◌, inl, inr, Result-cases, false, Option, none, some, List, [], ◌∷◌, ◌++◌, Text, ok, arith,
  Faults,
}
use open_clause.Types.Policy.{ToolCallEnvelope, ExecutionResult}
use open_clause.Evidence.HashChain.{chain_hash}
use open_clause.Evidence.Store.Tables.{
  ResultRow, Db, has_event, has_key, insert_event, insert_result,
}
use open_clause.Evidence.Store.Write.{
  Codec, last_hash_tx, canonical_result, record_event_tx, event_row, result_row,
}

unfoldable pub results_after :
    ToolCallEnvelope → Option Text → Option ExecutionResult → List ResultRow → List ResultRow
results_after env canon none rows = rows
results_after env canon (some r) rows = rows ++ (result_row env r canon ∷ [])

module _ (sha256 : Text → Text) (codec : Codec) where
  -- What a successful transaction leaves.
  pub record IsAppended (env env' : ToolCallEnvelope) (db db' : Db) : Type 0 where
    pub canon : Option Text
    pub encoded : canonical_result sha256 codec env.execution_result ≡ ok canon
    pub prev_hash : env'.prev_hash ≡ last_hash_tx env.request.tenant_id [] db.events
    pub hash : env'.hash ≡ chain_hash sha256 env'.prev_hash env'.payload_canon canon
    pub new_key : has_key env.request.tenant_id env.request.idempotency_key db.events ≡ false
    pub fresh : has_event env.event_id db.events ≡ false
    pub events :
        db'.events
        ≡ db.events
          ++ (record (event_row env env'.payload_canon env'.hash env'.prev_hash) {
            event_seq = db.next_seq;
          }
              ∷ [])
    pub results : db'.results ≡ results_after env canon env.execution_result db.results
    pub next_seq : db'.next_seq ≡ db.next_seq + 1
    pub executions : db'.executions ≡ db.executions

  pub record_event_tx-IsAppended :
      (f : Faults) (env : ToolCallEnvelope) (db : Db) {env' : ToolCallEnvelope} {db' : Db}
      → record_event_tx sha256 codec f env db ≡ ok (env', db')
      → IsAppended env env' db db'
  unfolding record_event_tx insert_event insert_result results_after
  record_event_tx-IsAppended f env db {env'} {db'} h =
      elim (Result-cases (canonical_result sha256 codec env.execution_result)) [
        | inr (e, p) ↦ absurd (ground arith)
        | inl (c, p) ↦ record {
          canon = c;
          encoded = p;
          prev_hash = ground arith;
          hash = ground arith;
          new_key = ground arith;
          fresh = ground arith;
          events = ground arith;
          results = ground arith;
          next_seq = ground arith;
          executions = ground arith;
        }
      ]
