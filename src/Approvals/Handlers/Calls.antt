-- ===== src/Approvals/Handlers/Calls.antt =====
-- The requests that the approvals service answers, each by its handler: `RegisterRoutes`, and the
-- routes and the middleware of `cmd/approvals/main.go`.
use open_clause.Base.{
  Bool, true, false, ◌||◌, Option, Text, text, ◌==◌, is_empty, if◌then◌else◌, List, Result, ok, err,
  Unicode,
}
use open_clause.Base.Int.{pos}
use open_clause.Evidence.Store.Tables.{Db as EvidenceDb}
use open_clause.Approvals.Model
use open_clause.Approvals.Store.Pending.{list_pending}
use open_clause.Approvals.Handlers.{
  Authorizer, Response, plain, page, Surroundings, Query, handle_create, handle_get, handle_approve,
  handle_deny, handle_list,
}
use open_clause.Approvals.Handlers.Slack.{Decoders, SlackRequest, handle_slack}

-- `Handlers`, with what is taken from the libraries.
pub record Handlers : Type 0 where
  pub authorizer : Option Authorizer
  pub slack_signing_secret : Text
  pub hmac : Text → Text → Text
  pub decoders : Decoders
  pub unicode : Unicode

pub data Call : Type 0 where
  creates : EvidenceDb → Option Model.CreateApprovalInput → Call
  gets : Text → Call
  approves : Text → Option Model.GrantInput → Call
  denies : Text → Option Model.DenyInput → Call
  lists : Query → Call
  interacts : SlackRequest → Call
  views : Text → Call

abbrev shown_page : Text → Result Text (List Model.ApprovalRequest) → Response
shown_page tenant (ok rows) = page tenant rows
shown_page tenant (err e) = plain 500 (text "internal error")

-- `GET /ui/pending`, for the tenant of the query.
unfoldable pub view_pending : Surroundings → Text → Model.Db → Response
view_pending s tenant seen =
    if is_empty tenant
    then plain 400 (text "tenant_id required")
    else shown_page tenant (list_pending s.read tenant (pos 100) (pos 0) s.now seen)

unfoldable pub serve : Handlers → Call → Surroundings → Model.Db → Model.Db → Response × Model.Db
serve h (creates ev body) s seen db = handle_create ev s body db
serve h (gets id) s seen db = (handle_get s id seen, db)
serve h (approves id body) s seen db = handle_approve h.unicode h.authorizer s id body seen db
serve h (denies id body) s seen db = handle_deny h.unicode h.authorizer s id body seen db
serve h (lists q) s seen db = (handle_list s q seen, db)
serve h (interacts q) s seen db =
    handle_slack h.hmac h.decoders h.slack_signing_secret h.unicode h.authorizer s q seen db
serve h (views tenant) s seen db = (view_pending s tenant seen, db)

-- Slack is authenticated by its signature.
abbrev pub is_slack : Call → Bool
is_slack (interacts q) = true
is_slack _ = false

-- A request with its header `X-Internal-Token`, through `internalAuthMiddleware` to its handler.
unfoldable pub route :
    Text → Handlers → Text → Call → Surroundings → Model.Db → Model.Db → Response × Model.Db
route token h provided c s seen db =
    if is_slack c || provided == token
    then serve h c s seen db
    else (plain 401 (text "unauthorized"), db)
