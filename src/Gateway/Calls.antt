-- ===== src/Gateway/Calls.antt =====
-- The calls of the services as steps of a handler, and the responses: `cmd/gateway/main.go`.
use open_clause.Base.{Bool, Option, none, some, ◌∷◌, Text}
use open_clause.Base.{Result, ok, err}
use open_clause.Types.Errors.{ApiError}
use open_clause.Types.ToolCall.{ToolCallRequest}
use open_clause.Types.Policy.{PolicyResult, ToolCallEnvelope, ToolCallResponse}
use open_clause.Approvals.Model.{CreateApprovalInput, ApprovalRequest, ApprovalGrant}
use open_clause.Approvals.Store.Grants.{Wanted}
use open_clause.Gateway.Model.{
  Services, Handler, Reply, failed, PolicyInput, ExecRequest, ExecResponse, Call, checked,
  evaluated, executed, recorded, requested, fetched, looked_up, consumed, linked,
}

module _ {S : Services} where
  abbrev pub pure : {A : Type 0} → A → Handler S A
  pure a w = (ok a, w)

  -- A response ends the handler.
  abbrev pub respond : {A : Type 0} → Reply → Handler S A
  respond reply w = (err reply, w)

  abbrev pub stop : {A : Type 0} → ApiError → Handler S A
  stop e w = (err (failed e), w)

  -- `if err != nil { ... WriteJSON(w); return }`
  abbrev pub unless_err : {A : Type 0} → ApiError → Result Text A → Handler S A
  unless_err e (ok a) w = (ok a, w)
  unless_err e (err _) w = (err (failed e), w)

  -- A call of a service, noted with its answer.
  abbrev perform : {A : Type 0} → (S.State → A × S.State) → (A → Call) → Handler S A
  perform op note w =
      let (a, st) = op w.state in (ok a, record { state = st; calls = note a ∷ w.calls })

  unfoldable pub check_idempotency : Text → Text → Handler S (Result Text (Option ToolCallResponse))
  check_idempotency t k = perform (S.check_idempotency t k) (checked t k)

  unfoldable pub evaluate : PolicyInput → Handler S (Result Text PolicyResult)
  evaluate input = perform (S.evaluate input) (evaluated input)

  unfoldable pub exec : ExecRequest → Handler S (Result Text ExecResponse)
  exec x = perform (S.exec x) (executed x)

  unfoldable pub record_event : ToolCallEnvelope → Handler S (Result Text ToolCallEnvelope)
  record_event env = perform (S.record_event env) (recorded env)

  unfoldable pub create_request : CreateApprovalInput → Handler S (Result Text ApprovalRequest)
  create_request input = perform (S.create_request input) (requested input)

  unfoldable pub get_event : Text → Handler S (Result Text (Option ToolCallEnvelope))
  get_event id = perform (S.get_event id) (fetched id)

  unfoldable pub get_execution : Text → Handler S (Result Text (Option ToolCallResponse))
  get_execution id = perform (S.get_execution_by_parent_event id) (looked_up id)

  unfoldable pub find_and_consume_grant : Wanted → Handler S (Result Text (Option ApprovalGrant))
  find_and_consume_grant x = perform (S.find_and_consume_grant x) (consumed x)

  unfoldable pub link_execution : Text → Text → Text → Handler S (Result Text Bool)
  link_execution parent execution grant =
      perform (S.link_execution_to_parent parent execution grant) (linked parent execution grant)

  unfoldable pub allow_rate : Text → Handler S Bool
  allow_rate t w = let (answer, st) = S.allow_rate t w.state in (ok answer, record w { state = st })

  unfoldable pub marshal : ApiError → ToolCallRequest → Handler S (Unit {0})
  marshal e r w = elim (S.marshal r) [ none ↦ (ok tt, w) | some _ ↦ (err (failed e), w) ]
