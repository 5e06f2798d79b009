-- ===== src/Evidence/Store/Read/Windows.antt =====
-- `GetChainEvents` and `ListTenantIDs` of `pkg/evidence/store.go`.
use open_clause.Base.{
  ℕ, Option, none, some, List, [], ◌∷◌, Text, text, ◌==◌, ◌&&◌, Result, ok, Faults, call, ◌>>◌,
  if◌then◌else◌, ltb,
}
use open_clause.Base.Order.{sort}
use open_clause.Evidence.HashChain.{ChainEvent}
use open_clause.Evidence.Store.Tables.{EventRow, ResultRow, Db}
use open_clause.Evidence.Store.Read.Finds.{join_result}

abbrev canon_of : Option ResultRow → Option Text
canon_of none = none
canon_of (some r) = r.result_canon

-- A row of the query of `GetChainEvents`.
unfoldable pub chain_event : List ResultRow → EventRow → ChainEvent
unfolding join_result
chain_event results r = record {
  event_seq = r.event_seq;
  event_id = r.event_id;
  prev_hash = r.prev_hash;
  hash = r.hash;
  canon_payload = r.payload_canon;
  canon_result = canon_of (join_result r.event_id results);
  received_at = r.received_at;
}

-- The rows of the tenant after a place in the sequence.
unfoldable pub window : Text → ℕ → List ResultRow → List EventRow → List ChainEvent
unfolding chain_event
window tenant after results [] = []
window tenant after results (r ∷ rows) =
    let rest = window tenant after results rows in
    if r.tenant_id == tenant && ltb after r.event_seq then chain_event results r ∷ rest else rest

-- `GetChainEvents`. The driver may fail in the query, in a scan or between rows.
unfoldable pub get_chain_events : Faults → Text → ℕ → Db → Result Text (List ChainEvent)
unfolding window
get_chain_events f tenant after db = do
  call (f 0) (text "evidence.GetChainEvents: ")
  call (f 1) (text "evidence.GetChainEvents scan: ")
  call (f 2) (text "evidence.GetChainEvents iteration: ")
  ok (window tenant after db.results db.events)

-- `ListTenantIDs`.
unfoldable pub list_tenant_ids : Faults → Db → Result Text (List Text)
list_tenant_ids f db = do
  call (f 0) (text "evidence.ListTenantIDs: ")
  call (f 1) (text "evidence.ListTenantIDs scan: ")
  call (f 2) (text "evidence.ListTenantIDs iteration: ")
  ok (sort db.tenants)
