-- ===== src/Approvals/Handlers.antt =====
-- `pkg/approvals/handlers.go`: the HTTP handlers of the approvals service, but for Slack. A body is
-- what `encoding/json` decodes it to, or `none` for its error. A handler reads the tables as they
-- are when it calls `GetRequest`, `seen`, and changes them as they are later, `db`: other calls may
-- run in between.
pub mod Slack
pub mod Calls
pub mod Entitled
pub mod Decides
pub mod Responses
pub mod Honest
pub mod Buttons
pub mod Clicks
use open_clause.Base.{
  ℕ, Bool, true, false, not, Option, none, some, List, Text, text, is_empty, Result, ok, err,
  Faults, ◌>>=◌, ◌>>◌, Unicode, if◌then◌else◌,
}
use open_clause.Base.Int.{ℤ, pos, parse_int}
use open_clause.Types.ToolCall.{Time}
use open_clause.Types.Errors.{ApiError, bad_request, forbidden, internal, not_found}
use open_clause.Evidence.Store.Tables.{Db as EvidenceDb}
use open_clause.Approvals.Model
use open_clause.Approvals.Store.Requests
use open_clause.Approvals.Store.Pending
use open_clause.Approvals.Store.Requests.{lacks_required}
use open_clause.Approvals.Store.Grants.{grant_request}
use open_clause.Approvals.Authorizer.{Allowlist, allow, parse_tenant_list}

-- `ApproverAuthorizer`.
pub record Authorizer : Type 0 where
  pub email : Allowlist
  pub slack : Allowlist

-- `NewApproverAuthorizer`.
unfoldable pub new_approver_authorizer : Unicode → Text → Text → Authorizer
new_approver_authorizer u email slack = record {
  email = parse_tenant_list u email;
  slack = parse_tenant_list u slack;
}

-- The responses: an error, or the status and the value that is encoded.
pub data Response : Type 0 where
  failed : ApiError → Response
  created : Model.ApprovalRequest → Response
  shown : Model.ApprovalRequest → Response
  granted : Model.ApprovalGrant → Response
  denied : Response
  listed : List Model.ApprovalRequest → Response
  -- The text that replaces a Slack message.
  acted : Text → Response
  -- `http.Error`, and the page of the pending requests of a tenant.
  plain : ℕ → Text → Response
  page : Text → List Model.ApprovalRequest → Response

-- What the environment of a handler chooses: the failures of the driver in the read and in the
-- write, the new ids, and the times when the request arrives and when the store is called.
pub record Surroundings : Type 0 where
  pub read : Faults
  pub write : Faults
  pub ids : ℕ → Text
  pub received_at : Time
  pub now : Time

-- `if test { ... WriteJSON(w); return }`
abbrev pub stop_if : Bool → ApiError → Result ApiError (Unit {0})
stop_if false e = ok tt
stop_if true e = err e

abbrev pub decoded : {A : Type 0} → Text → Option A → Result ApiError A
decoded msg none = err (bad_request msg)
decoded msg (some a) = ok a

abbrev pub or_internal : {A : Type 0} → Text → Result Text A → Result ApiError A
or_internal msg (ok a) = ok a
or_internal msg (err _) = err (internal msg)

abbrev pub found : Option Model.ApprovalRequest → Result ApiError Model.ApprovalRequest
found none = err (not_found (text "approval request not found"))
found (some r) = ok r

-- The read of the request, with the response to a failure of the store.
unfoldable pub read_request :
    Text → Faults → Text → Model.Db → Result ApiError Model.ApprovalRequest
read_request msg f id seen = do r ← or_internal msg (Requests.get_request f id seen); found r

-- The response to the outcome of an operation of the store.
abbrev pub answer :
    {A : Type 0} → (A → Response) → Text → Result Text A × Model.Db → Response × Model.Db
answer respond msg (ok a, db) = (respond a, db)
answer respond msg (err _, db) = (failed (internal msg), db)

unfoldable pub admit_create :
    Option Model.CreateApprovalInput → Result ApiError Model.CreateApprovalInput
admit_create body = do
  i ← decoded (text "invalid JSON body") body
  stop_if (lacks_required i)
      (bad_request (text "tenant_id, event_id, tool, and action are required"))
  ok i

-- `CreateRequest`.
unfoldable pub handle_create :
    EvidenceDb → Surroundings → Option Model.CreateApprovalInput → Model.Db → Response × Model.Db
unfolding admit_create
handle_create ev s body db = elim (admit_create body) [
  | err e ↦ (failed e, db)
  | ok i ↦
      answer created (text "failed to create approval request")
        (Requests.create_request ev s.write s.ids s.now i db)
]

-- `GetRequest`.
unfoldable pub handle_get : Surroundings → Text → Model.Db → Response
handle_get s id seen =
    elim (read_request (text "failed to retrieve approval request") s.read id seen) [
      | err e ↦ failed e
      | ok r ↦ shown r
    ]

module _ (u : Unicode) where
  -- `h.authorizer != nil && !h.authorizer.AllowEmail(tenant, approver)`.
  abbrev pub refuses_email : Option Authorizer → Text → Text → Bool
  refuses_email none tenant approver = false
  refuses_email (some a) tenant approver = not (allow u a.email tenant approver)

module _ (u : Unicode) (authorizer : Option Authorizer) where
  -- What `ApproveRequest` and `DenyRequest` do before they change anything.
  unfoldable pub admit_approver :
      {A : Type 0} → (A → Text) → Text → Faults → Text → Option A → Model.Db → Result ApiError A
  admit_approver approver msg f id body seen = do
    i ← decoded (text "invalid JSON body") body
    stop_if (is_empty (approver i)) (bad_request (text "approver is required"))
    r ← read_request msg f id seen
    stop_if (refuses_email u authorizer r.tenant_id (approver i))
        (forbidden (text "approver is not allowed for tenant"))
    ok i

  -- `ApproveRequest`.
  unfoldable pub handle_approve :
      Surroundings → Text → Option Model.GrantInput → Model.Db → Model.Db → Response × Model.Db
  handle_approve s id body seen db =
      let msg = text "failed to approve request" in
      elim (admit_approver (λ (i : Model.GrantInput). i.approver) msg s.read id body seen) [
        | err e ↦ (failed e, db)
        | ok i ↦ answer granted msg (grant_request s.write (s.ids 0) s.now id i db)
      ]

  -- `DenyRequest`.
  unfoldable pub handle_deny :
      Surroundings → Text → Option Model.DenyInput → Model.Db → Model.Db → Response × Model.Db
  handle_deny s id body seen db =
      let msg = text "failed to deny request" in
      elim (admit_approver (λ (i : Model.DenyInput). i.approver) msg s.read id body seen) [
        | err e ↦ (failed e, db)
        | ok i ↦ answer (λ _. denied) msg (Requests.deny_request s.write id i db)
      ]

-- The query of `ListPending`: each value is empty if the URL has none.
pub record Query : Type 0 where
  pub tenant_id : Text
  pub limit : Text
  pub offset : Text

abbrev parsed : ApiError → Option ℤ → Result ApiError ℤ
parsed e none = err e
parsed e (some n) = ok n

-- A number of the query, 0 if it is left out.
parameter : ApiError → Text → Result ApiError ℤ
parameter e v = if is_empty v then ok (pos 0) else parsed e (parse_int v)

list_response : Surroundings → Query → Model.Db → Result ApiError (List Model.ApprovalRequest)
unfolding parameter
list_response s q seen = do
  stop_if (is_empty q.tenant_id) (bad_request (text "tenant_id query param required"))
  limit ← parameter (bad_request (text "invalid limit parameter")) q.limit
  offset ← parameter (bad_request (text "invalid offset parameter")) q.offset
  or_internal (text "failed to list pending requests")
      (Pending.list_pending s.read q.tenant_id limit offset s.now seen)

-- `ListPending`.
unfoldable pub handle_list : Surroundings → Query → Model.Db → Response
unfolding list_response
handle_list s q seen = elim (list_response s q seen) [ err e ↦ failed e | ok rows ↦ listed rows ]
