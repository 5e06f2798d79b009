-- ===== src/Approvals/Store/Requests.antt =====
-- `CreateRequest`, `GetRequest` and `DenyRequest`.
use open_clause.Base.{
  ℕ, ◌+◌, ◌*◌, Bool, true, false, ◌&&◌, ◌||◌, not, Option, none, some, List, [], ◌∷◌, ◌++◌, Text,
  text, ◌==◌, is_empty, Result, ok, err, Faults, call, ◌>>=◌, ◌>>◌, if◌then◌else◌, trim_slashes,
}
use open_clause.Base.Int.{fits_integer}
use open_clause.Types.ToolCall.{Time}
use open_clause.Types.Policy.{PolicyNotify}
use open_clause.Evidence.Store.Tables.{Db as EvidenceDb, has_event, has_tenant}
use open_clause.Approvals.Model

abbrev pub nanoseconds : ℕ → ℕ
nanoseconds s = s * 1000000000

-- `buildApprovalURL`.
unfoldable pub build_approval_url : Text → Text → Text
build_approval_url base_url request_id =
    let base = trim_slashes base_url in
    (if is_empty base then text "http://localhost:8081" else base)
    ++ (text "/v1/approvals/requests/" ++ request_id)

unfoldable pub has_request : Text → List Model.ApprovalRequest → Bool
has_request id [] = false
has_request id (r ∷ rows) = r.id == id || has_request id rows

unfoldable pub has_outbox : Text → List Model.NotificationOutbox → Bool
has_outbox id [] = false
has_outbox id (n ∷ rows) = n.id == id || has_outbox id rows

unfoldable pub find_request : Text → List Model.ApprovalRequest → Option Model.ApprovalRequest
find_request id [] = none
find_request id (r ∷ rows) = if r.id == id then some r else find_request id rows

-- The guard of `CreateRequest`.
unfoldable pub lacks_required : Model.CreateApprovalInput → Bool
lacks_required i =
    is_empty i.tenant_id || is_empty i.event_id || is_empty i.tool || is_empty i.action

abbrev pub new_request : Text → Time → Model.CreateApprovalInput → Model.ApprovalRequest
new_request id now i = record {
  id = id;
  event_id = i.event_id;
  tenant_id = i.tenant_id;
  agent_id = i.agent_id;
  tool = i.tool;
  action = i.action;
  resource = i.resource;
  risk_score = i.risk_score;
  reason = i.reason;
  deny_reason = [];
  denied_by = [];
  status = Model.Status.pending;
  created_at = now;
  expires_at = now + nanoseconds (24 * 3600);
}

abbrev pub new_outbox :
    Text → Text → Time → Model.CreateApprovalInput → PolicyNotify → Model.NotificationOutbox
new_outbox id request_id now i n = record {
  id = id;
  approval_request_id = request_id;
  tenant_id = i.tenant_id;
  event_id = i.event_id;
  trace_id = i.trace_id;
  tool = i.tool;
  action = i.action;
  resource = i.resource;
  risk_score = i.risk_score;
  risk_factors = i.risk_factors;
  reason = i.reason;
  approval_url = build_approval_url i.approval_base_url request_id;
  approver_group = i.approver_group;
  notify_kind = n.kind;
  notify_url = n.url;
  secret_ref = n.secret_ref;
  slack_channel = n.channel;
  attempts = 0;
  status = Model.OutboxStatus.pending;
  next_attempt_at = now;
  created_at = now;
  last_error = [];
}

-- The loop over `in.Notify`. Call number `k` of the driver inserts the row with id number `k`.
unfoldable pub insert_outbox :
    Faults
    → (ℕ → Text)
    → Text
    → Time
    → Model.CreateApprovalInput
    → ℕ
    → List PolicyNotify
    → List Model.NotificationOutbox
    → Result Text (List Model.NotificationOutbox)
insert_outbox f ids request_id now i k [] rows = ok rows
insert_outbox f ids request_id now i k (n ∷ ns) rows =
    let row = new_outbox (ids k) request_id now i n in
    let skip = insert_outbox f ids request_id now i k ns rows in
    let insert = insert_outbox f ids request_id now i (k + 1) ns (rows ++ (row ∷ [])) in
    if is_empty n.kind then skip else elim (f k) [
      | some e ↦ err (text "approvals.CreateRequest insert outbox: " ++ e)
      | none ↦
          if has_outbox (ids k) rows
          then err (text "approvals.CreateRequest insert outbox: pkey")
          else insert
    ]

-- The types of the columns, the foreign keys of the row and its primary key.
unfoldable pub insert_request :
    EvidenceDb
    → Model.ApprovalRequest
    → List Model.ApprovalRequest
    → Result Text (List Model.ApprovalRequest)
insert_request ev r rows =
    if not (fits_integer r.risk_score)
    then err (text "approvals.CreateRequest insert request: risk_score is no INTEGER")
    else if has_request r.id rows
    then err (text "approvals.CreateRequest insert request: approval_requests_pkey")
    else if not (has_event r.event_id ev.events)
    then err (text "approvals.CreateRequest insert request: approval_requests_event_id_fkey")
    else if not (has_tenant r.tenant_id ev.tenants)
    then err (text "approvals.CreateRequest insert request: approval_requests_tenant_id_fkey")
    else ok (rows ++ (r ∷ []))

unfoldable pub create_request_tx :
    EvidenceDb
    → Faults
    → (ℕ → Text)
    → Time
    → Model.CreateApprovalInput
    → Model.Db
    → Result Text (Model.ApprovalRequest × Model.Db)
unfolding insert_request
create_request_tx ev f ids now i db = do
  let req = new_request (ids 0) now i
  call (f 0) (text "approvals.CreateRequest begin tx: ")
  call (f 1) (text "approvals.CreateRequest insert request: ")
  requests ← insert_request ev req db.requests
  outbox ← insert_outbox f ids req.id now i 3 i.notify db.outbox
  call (f 2) (text "approvals.CreateRequest commit: ")
  ok (req, record db { requests = requests; outbox = outbox })

-- `CreateRequest`.
unfoldable pub create_request :
    EvidenceDb
    → Faults
    → (ℕ → Text)
    → Time
    → Model.CreateApprovalInput
    → Model.Db
    → Result Text Model.ApprovalRequest × Model.Db
unfolding lacks_required
create_request ev f ids now i db =
    if lacks_required i
    then (
      err (text "approvals.CreateRequest: tenant_id, event_id, tool, and action are required"),
      db,
    )
    else elim (create_request_tx ev f ids now i db) [
      | err e ↦ (err e, db)
      | ok (req, db') ↦ (ok req, db')
    ]

-- `GetRequest`.
unfoldable pub get_request : Faults → Text → Model.Db → Result Text (Option Model.ApprovalRequest)
get_request f id db = do
  call (f 0) (text "approvals.GetRequest: ")
  ok (find_request id db.requests)

abbrev pub is_pending : Model.Status → Bool
is_pending Model.Status.pending = true
is_pending _ = false

-- `UPDATE approval_requests SET ... WHERE test`: the rows, and whether any was affected.
unfoldable pub update_requests :
    (Model.ApprovalRequest → Bool)
    → (Model.ApprovalRequest → Model.ApprovalRequest)
    → List Model.ApprovalRequest
    → List Model.ApprovalRequest × Bool
update_requests p g [] = ([], false)
update_requests p g (r ∷ rows) =
    let (rest, hit) = update_requests p g rows in
    if p r then (g r ∷ rest, true) else (r ∷ rest, hit)

-- The UPDATE of `DenyRequest`.
unfoldable pub deny_rows :
    Text → Model.DenyInput → List Model.ApprovalRequest → List Model.ApprovalRequest × Bool
unfolding update_requests
deny_rows id i =
    update_requests (λ r. r.id == id && is_pending r.status)
      (λ r. record r {
        status = Model.Status.denied;
        deny_reason = i.reason;
        denied_by = i.approver;
      })

-- `DenyRequest`.
unfoldable pub deny_request :
    Faults → Text → Model.DenyInput → Model.Db → Result Text (Unit {0}) × Model.Db
deny_request f id i db =
    let (requests, hit) = deny_rows id i db.requests in
    if is_empty i.approver
    then (err (text "approvals.DenyRequest: approver is required"), db)
    else elim (f 0) [
      | some e ↦ (err (text "approvals.DenyRequest: " ++ e), db)
      | none ↦
          if hit
          then (ok tt, record db { requests = requests })
          else (err (text "approval request " ++ (id ++ text " not found or not pending")), db)
    ]
