-- ===== src/Evidence/Store/Idempotency.antt =====
-- A recorded event is found by its idempotency key, and its key is used up.
use open_clause.Base.{
  ◌≡◌, refl, sym, true, false, none, some, List, [], ◌∷◌, ◌++◌, Text, text, ok, err, arith, Faults,
  Result-cases, inl, inr,
}
use open_clause.Types.Policy.{ToolCallEnvelope, ToolCallResponse}
use open_clause.Evidence.Store.Tables.{EventRow, Db, has_key}
use open_clause.Evidence.Store.Write.{Codec, record_event, record_event_tx, event_row}
use open_clause.Evidence.Store.Read.{check_idempotency, find_key}
use open_clause.Evidence.Store.Later.{Later, Later-Keeps}
use open_clause.Evidence.Store.Appended.{record_event_tx-IsAppended}

find_key-append :
    (t k : Text) (rows : List EventRow) (r : EventRow)
    → has_key t k rows ≡ false
    → r.tenant_id ≡ t
    → r.idempotency_key ≡ k
    → find_key t k (rows ++ (r ∷ [])) ≡ some r
unfolding find_key has_key
find_key-append t k [] r h p q = ground arith
find_key-append t k (x ∷ rows) r h p q = ground (arith, find_key-append t k rows r)

has_key-append :
    (t k : Text) (rows : List EventRow) (r : EventRow)
    → r.tenant_id ≡ t
    → r.idempotency_key ≡ k
    → has_key t k (rows ++ (r ∷ [])) ≡ true
unfolding has_key
has_key-append t k [] r p q = ground arith
has_key-append t k (x ∷ rows) r p q = ground (arith, has_key-append t k rows r)

-- The answer to a request whose event was recorded before.
abbrev pub replay : ToolCallEnvelope → ToolCallResponse
replay env = record {
  event_id = env.event_id;
  decision = env.decision;
  reason = text "idempotent replay";
  approval_url = [];
  result = none;
}

module _ (sha256 : Text → Text) (codec : Codec) where
  tx_of_record_event :
      (f : Faults) (env : ToolCallEnvelope) (db : Db) {env' : ToolCallEnvelope} {db' : Db}
      → record_event sha256 codec f env db ≡ (ok env', db')
      → record_event_tx sha256 codec f env db ≡ ok (env', db')
  unfolding record_event
  tx_of_record_event f env db h = elim (Result-cases (record_event_tx sha256 codec f env db)) [
    | inl (r, p) ↦ ground arith
    | inr (e, p) ↦ absurd (ground arith)
  ]

  -- Once an event is recorded, a check of its tenant and key finds it, whatever operations of the
  -- store run in between, with any failures, if the query of the check does not fail.
  pub check_idempotency-record_event :
      (f g : Faults) (env : ToolCallEnvelope) (db : Db) {env' : ToolCallEnvelope} {db' db'' : Db}
      → record_event sha256 codec f env db ≡ (ok env', db')
      → Later sha256 codec db' db''
      → g 0 ≡ none
      → check_idempotency g env.request.tenant_id env.request.idempotency_key db''
        ≡ ok (some (replay env))
  unfolding check_idempotency
  check_idempotency-record_event f g env db {env'} {db'} {db''} h later quiet =
      let a = record_event_tx-IsAppended sha256 codec f env db (tx_of_record_event f env db h) in
      let t = env.request.tenant_id in
      let k = env.request.idempotency_key in
      let r : EventRow = record (event_row env env'.payload_canon env'.hash env'.prev_hash) {
        event_seq = db.next_seq;
      } in
      let found : find_key t k db'.events ≡ some r =
        rw a.events (find_key-append t k db.events r a.new_key refl refl) in
      ground (arith, (Later-Keeps sha256 codec later).events t k r found)

  -- A second event with a tenant and key that are taken is refused, whatever else it holds, and
  -- leaves the tables as they are.
  pub record_event-taken :
      (f g : Faults) (env next : ToolCallEnvelope) (db : Db) {env' : ToolCallEnvelope} {db' : Db}
      → record_event sha256 codec f env db ≡ (ok env', db')
      → next.request.tenant_id ≡ env.request.tenant_id
      → next.request.idempotency_key ≡ env.request.idempotency_key
      → (e : Text) × (record_event sha256 codec g next db' ≡ (err e, db'))
  unfolding record_event
  record_event-taken f g env next db {env'} {db'} h p q =
      elim (Result-cases (record_event_tx sha256 codec g next db')) [
        | inr (e, s) ↦ (e, ground arith)
        | inl (r, s) ↦
            let a =
              record_event_tx-IsAppended sha256 codec f env db (tx_of_record_event f env db h) in
            let b = record_event_tx-IsAppended sha256 codec g next db' s in
            let row : EventRow =
              record (event_row env env'.payload_canon env'.hash env'.prev_hash) {
                event_seq = db.next_seq;
              } in
            absurd (
              ground (
                arith,
                a.events,
                b.new_key,
                has_key-append next.request.tenant_id next.request.idempotency_key db.events row
                    (sym p) (sym q),
              ))
      ]
