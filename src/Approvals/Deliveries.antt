-- ===== src/Approvals/Deliveries.antt =====
-- The deliveries of `pkg/approvals/notifier.go`: the event that a webhook gets, and the message for
-- the Slack connector. The formats of times and the encoders are parameters.
pub mod Checked
pub mod Posted
use open_clause.Base.{
  ℕ, ◌/◌, ◌%◌, Bool, true, false, not, ◌&&◌, ◌||◌, Option, none, some, List, [], ◌∷◌, ◌++◌, Text,
  text, ◌==◌, eqb, is_empty, if◌then◌else◌, Result, ok, err, ◌>>=◌, ◌>>◌, wrap, split, cut, Unicode,
  trim_space, trim_slashes,
}
use open_clause.Base.Dict
use open_clause.Base.Decimal.{decimal, decimal_ℤ}
use open_clause.Json.{Json, null, number, str, arr, obj, Items, nil, cons, Fields, end, field}
use open_clause.Types.ToolCall.{Time}
use open_clause.Evidence.Canonical.{marshal}
use open_clause.Gateway.Model.{ExecRequest, ExecResponse}
use open_clause.Http.{
  HttpRequest, Answer, not_made, not_sent, broken, answered, Plan, done, send, run, sent,
  is_success,
}
use open_clause.Http.Redirects.{Rules, Served, requests, client}
use open_clause.Connectors.{internal_headers}
use open_clause.Approvals.Model
use open_clause.Approvals.Notifier.{Deliveries}
use open_clause.Approvals.Webhooks.{Tools, validate_webhook_url, sign_body}

-- The fields of a `Dispatcher` that the deliveries read.
pub record Dispatcher : Type 0 where
  pub source : Text
  pub secrets : List (Text × Text)
  pub slack_url : Text
  pub internal_token : Text
  pub skip_webhook_validation : Bool

-- `NewDispatcher`.
unfoldable pub new_dispatcher : Text → List (Text × Text) → Text → Text → Dispatcher
new_dispatcher source secrets slack_url internal_token = record {
  source = source;
  secrets = secrets;
  slack_url = trim_slashes slack_url;
  internal_token = internal_token;
  skip_webhook_validation = false;
}

-- `TemplateSummarizer`.
unfoldable pub summarize : Model.NotificationOutbox → Text
summarize n =
    text "Approval requested: "
    ++ (n.tool
        ++ (text "."
            ++ (n.action
                ++ (text " on "
                    ++ (n.resource
                        ++ (text " (risk="
                            ++ (decimal_ℤ n.risk_score
                                ++ (text ", reason=" ++ (n.reason ++ text ")")))))))))

module _ (t : Tools) where
  -- The map of the event, its keys sorted.
  event_fields : Model.NotificationOutbox → Text → Fields
  event_fields n summary = field (text "action") (str n.action) (
      field (text "approval_request_id") (str n.approval_request_id) (
        field (text "approval_url") (str n.approval_url) (
          field (text "approver_group") (str n.approver_group) (
            field (text "created_at") (str (t.rfc3339 n.created_at)) (
              field (text "event_id") (str n.event_id) (
                field (text "raw") (obj (field (text "reason") (str n.reason) end)) (
                  field (text "resource") (str n.resource) (
                    field (text "risk_factors") (t.risk_factors n.risk_factors) (
                      field (text "risk_score") (number (decimal_ℤ n.risk_score)) (
                        field (text "summary") (str summary) (
                          field (text "tenant_id") (str n.tenant_id) (
                            field (text "tool") (str n.tool)
                              (field (text "trace_id") (str n.trace_id) end)))))))))))))

  -- `BuildApprovalRequestedCloudEvent`, before it is written.
  unfoldable pub cloud_event : Model.NotificationOutbox → Text → Text → Time → Json
  unfolding event_fields
  cloud_event n source summary now = obj (
      field (text "specversion") (str (text "1.0")) (
        field (text "id") (str n.id) (
          field (text "type") (str (text "oc.approval.requested")) (
            field (text "source") (str source) (
              field (text "time") (str (t.rfc3339_nano now)) (
                field (text "datacontenttype") (str (text "application/json"))
                  (field (text "data") (obj (event_fields n summary)) end)))))))

  -- The map of the parameters for the Slack connector, its keys sorted.
  unfoldable pub slack_params : Model.NotificationOutbox → Json
  slack_params n = obj (
      field (text "action") (str n.action) (
        field (text "approval_request_id") (str n.approval_request_id) (
          field (text "approval_url") (str n.approval_url) (
            field (text "channel") (str n.slack_channel) (
              field (text "event_id") (str n.event_id) (
                field (text "reason") (str n.reason) (
                  field (text "resource") (str n.resource) (
                    field (text "risk_factors") (t.risk_factors n.risk_factors) (
                      field (text "risk_score") (number (decimal_ℤ n.risk_score)) (
                        field (text "tenant_id") (str n.tenant_id)
                          (field (text "tool") (str n.tool) end)))))))))))

  module _ (d : Dispatcher) where
    abbrev signature_of : Text → Option Text → List (Text × Text)
    signature_of body none = []
    signature_of body (some secret) =
        if is_empty secret then [] else (text "X-OC-Signature-256", sign_body t body secret) ∷ []

    unfoldable pub webhook_request : Model.NotificationOutbox → Text → HttpRequest
    webhook_request n body = record {
      method = text "POST";
      url = n.notify_url;
      headers =
          (text "Content-Type", text "application/cloudevents+json")
          ∷ (text "Ce-Specversion", text "1.0")
          ∷ (text "Ce-Type", text "oc.approval.requested")
          ∷ (text "Ce-Id", n.id)
          ∷ (text "Ce-Source", d.source)
          ∷ signature_of body (Dict.lookup n.secret_ref d.secrets);
      body = body;
    }

    abbrev by_status : Text → ℕ → Option Text
    by_status msg code = if is_success code then none else some (msg ++ decimal code)

    -- The error of the delivery, if there is one. What comes of reading the body is not looked at.
    webhook_answer : Answer → Option Text
    webhook_answer (not_made e) = some e
    webhook_answer (not_sent e) = some e
    webhook_answer (broken code e) = by_status (text "webhook status=") code
    webhook_answer (answered code body) = by_status (text "webhook status=") code

    check_webhook : Text → Result Text (Unit {0})
    check_webhook url =
        if d.skip_webhook_validation
        then ok tt
        else wrap (text "webhook URL validation: ") (validate_webhook_url t url)

    -- `deliverWebhook`, at a time, up to the request that it gives to the client, and from the answer
    -- on. What the client sends to get that answer is in `webhook_requests`.
    unfoldable pub deliver_webhook : Time → Model.NotificationOutbox → Plan (Option Text)
    unfolding webhook_answer check_webhook
    deliver_webhook now n =
        let body = marshal (cloud_event n d.source (summarize n) now) in
        elim (check_webhook n.notify_url) [
          | err e ↦ done (some e)
          | ok _ ↦ send (webhook_request n body) webhook_answer
        ]

    unfoldable pub slack_exec_request : Model.NotificationOutbox → ExecRequest
    slack_exec_request n = record {
      event_id = n.event_id;
      tenant_id = n.tenant_id;
      agent_id = [];
      tool = text "slack";
      action = text "approval.request";
      params = record { bytes = marshal (slack_params n); value = slack_params n };
      resource = n.resource;
    }

    slack_result : Result Text ExecResponse → Option Text
    slack_result (err e) = some e
    slack_result (ok y) =
        if y.status == text "success"
        then none
        else some (text "slack delivery failed: " ++ y.error)

    slack_answer : Answer → Option Text
    unfolding slack_result
    slack_answer (not_made e) = some e
    slack_answer (not_sent e) = some e
    slack_answer (broken code e) =
        if is_success code then some e else some (text "slack connector status=" ++ decimal code)
    slack_answer (answered code body) =
        if is_success code
        then slack_result (t.decode body)
        else some (text "slack connector status=" ++ decimal code)

    -- `deliverSlack`.
    unfoldable pub deliver_slack : Model.NotificationOutbox → Plan (Option Text)
    unfolding slack_answer
    deliver_slack n =
        if is_empty d.slack_url
        then done (some (text "slack connector url is empty"))
        else elim (t.encode (slack_exec_request n)) [
          | err e ↦ done (some e)
          | ok body ↦
              send
                (record {
                  method = text "POST";
                  url = d.slack_url ++ text "/exec";
                  headers = internal_headers d.internal_token;
                  body = body;
                })
                slack_answer
        ]

    -- The requests that the delivery to a webhook sends, by a client that follows redirects.
    unfoldable pub webhook_requests :
        Rules → (HttpRequest → Served) → Time → Model.NotificationOutbox → List HttpRequest
    webhook_requests rules server now n = elim (sent (deliver_webhook now n)) [
      | none ↦ []
      | some q ↦ requests rules server q
    ]

    -- The deliveries of a round of the dispatcher, with the servers that answer requests.
    unfoldable pub deliveries :
        Rules → (HttpRequest → Served) → (Model.NotificationOutbox → Time) → Deliveries
    deliveries rules server now = record {
      webhook = λ n. run (client rules server) (deliver_webhook (now n) n);
      slack = λ n. run (client rules server) (deliver_slack n);
      now = now;
    }
