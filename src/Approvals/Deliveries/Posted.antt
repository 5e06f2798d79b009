-- ===== src/Approvals/Deliveries/Posted.antt =====
-- The delivery of a notification through the Slack connector, up to Slack itself.
use open_clause.Base.{
  ℕ, ◌≡◌, ◌≢◌, ◌↔◌, inl, inr, refl, sym, ◌∙◌, Bool-cases, true, false, Option, none, some, [], ◌++◌,
  Text, text, text_dec, is_empty, ok, arith,
}
use open_clause.Base.Decimal.{decimal}
use open_clause.Gateway.Model.{ExecResponse}
use open_clause.Http.{HttpRequest, Answer, answered, send, run, is_success}
use open_clause.Connectors.{internal_headers}
use open_clause.Connectors.Slack.{
  ApprovalMessageParams, Decoders, SlackConnector, is_ok, approval_post, approval_plan,
  post_approval_message,
}
use open_clause.Connectors.Slack
use open_clause.Connectors.Serve.{ServerCodec, serve, service, written}
use open_clause.Connectors.Remote.{run-after, header_of-internal_headers}
use open_clause.Approvals.Model
use open_clause.Approvals.Webhooks.{Tools}
use open_clause.Approvals.Deliveries.{
  Dispatcher, slack_exec_request, deliver_slack, slack_answer, slack_result,
}
use open_clause.Connectors.Posted.{IsPosted, IsWhole, approval_plan-success}

-- The message of a notification, as the connector reads it.
abbrev pub message_of : Model.NotificationOutbox → ApprovalMessageParams
message_of n = record {
  channel = n.slack_channel;
  tool = n.tool;
  action = n.action;
  resource = n.resource;
  risk_score = n.risk_score;
  reason = n.reason;
  approval_url = n.approval_url;
  approval_request_id = n.approval_request_id;
  event_id = n.event_id;
  tenant_id = n.tenant_id;
}

-- What one end writes is read by the other: the request, its parameters and the response.
pub record Agree (t : Tools) (s : ServerCodec) (d : Decoders) (o : Dispatcher)
    (n : Model.NotificationOutbox) (y : ExecResponse) : Type 0 where
  pub request : Text
  pub request_written : t.encode (slack_exec_request t o n) ≡ ok request
  pub request_read : s.decode request ≡ some (slack_exec_request t o n)
  pub params_read : d.approval_params (slack_exec_request t o n).params ≡ ok (message_of n)
  pub response : Text
  pub response_written : s.encode y ≡ ok response
  pub response_read : t.decode response ≡ ok y

module _ (d : Decoders) (c : SlackConnector) (slack : HttpRequest → Answer) where
  exec-approval :
      (t : Tools) (s : ServerCodec) (o : Dispatcher) (now : ℕ) (n : Model.NotificationOutbox)
      {y : ExecResponse}
      → Agree t s d o n y
      → Slack.exec d c now (slack_exec_request t o n) ≡ approval_plan d c (message_of n)
  unfolding Slack.exec slack_exec_request post_approval_message text text_dec
  exec-approval t s o now n a = rw (a.params_read, post_approval_message) refl

  -- What the dispatcher makes of the outcome of the connector.
  slack_result-none :
      (t : Tools) (o : Dispatcher) (y : ExecResponse)
      → (slack_result t o (ok y) ≡ none) ↔ (y.status ≡ text "success")
  unfolding slack_result
  slack_result-none t o y = (λ h. ground arith, λ h. ground arith)

  module _ (t : Tools) (s : ServerCodec) (o : Dispatcher) (token : Text) (now : ℕ)
      (n : Model.NotificationOutbox)
      (a : Agree t s d o n (run slack (approval_plan d c (message_of n)))) where
    abbrev pub delivered : Option Text
    delivered = run (service s token (Slack.exec d c now) slack) (deliver_slack t o n)

    post : HttpRequest
    post = record {
      method = text "POST";
      url = o.slack_url ++ text "/exec";
      headers = internal_headers o.internal_token;
      body = a.request;
    }

    outcome : ExecResponse
    outcome = run slack (approval_plan d c (message_of n))

    deliver_slack-send :
        is_empty o.slack_url ≡ false → deliver_slack t o n ≡ send post (slack_answer t o)
    unfolding deliver_slack post
    deliver_slack-send h = rw (h, deliver_slack) (rw (a.request_written, deliver_slack) refl)

    service-admitted :
        o.internal_token ≡ token
        → service s token (Slack.exec d c now) slack post ≡ answered 200 a.response
    unfolding service serve post outcome
    service-admitted e = rw (header_of-internal_headers o.internal_token) (
        ground (
          arith,
          a.request_read,
          a.response_written,
          exec-approval t s o now n a,
          run-after {B = ℕ × Text} slack (λ y. (200, written (s.encode y)))
              (Slack.exec d c now (slack_exec_request t o n)),
        ))

    service-refused :
        o.internal_token ≢ token
        → service s token (Slack.exec d c now) slack post ≡ answered 401 (text "unauthorized\n")
    unfolding service serve post run
    service-refused h = rw (header_of-internal_headers o.internal_token) (ground arith)

    delivered-unset :
        is_empty o.slack_url ≡ true → delivered ≡ some (text "slack connector url is empty")
    unfolding deliver_slack run
    delivered-unset h = rw (h, deliver_slack) refl

    delivered-refused :
        is_empty o.slack_url ≡ false
        → o.internal_token ≢ token
        → delivered ≡ some (text "slack connector status=" ++ decimal 401)
    unfolding run slack_answer is_success
    delivered-refused h m = rw (deliver_slack-send h) (rw (service-refused m) refl)

    delivered-admitted :
        is_empty o.slack_url ≡ false
        → o.internal_token ≡ token
        → delivered ≡ slack_result t o (ok outcome)
    unfolding run slack_answer is_success outcome
    delivered-admitted h e =
        rw (deliver_slack-send h) (rw (service-admitted e) (rw (a.response_read) refl))

    -- A notification is delivered to the Slack connector without an error exactly if its URL is
    -- set, both have the same token, the notification names a channel and has the ids of its
    -- request, event and tenant, and the connector is a mock or Slack answered the message with the
    -- status code 200, whatever it said in the body; provided that the two ends agree on how the
    -- request, its parameters and the response are written.
    pub deliver_slack-IsPosted : (delivered ≡ none) ↔ (
        (o.slack_url ≢ [])
        × (o.internal_token ≡ token)
        × IsWhole (message_of n)
        × IsPosted d c slack (message_of n))
    unfolding run outcome
    deliver_slack-IsPosted = elim (Bool-cases (is_empty o.slack_url)) [
      | inl h ↦ (λ k. absurd (ground (arith, delivered-unset h)), λ k. absurd (ground (arith, k.0)))
      | inr h ↦ elim (text_dec o.internal_token token) [
        | no m ↦ (λ k. absurd (ground (arith, delivered-refused h m)), λ k. absurd (m k.1))
        | yes e ↦
            let (of_none, to_none) = slack_result-none t o outcome in
            let (of_success, to_success) = approval_plan-success d c slack (message_of n) in
            let e' = delivered-admitted h e in
            (
              λ k.
                  let (whole, posted) = of_success (of_none (sym e' ∙ k)) in
                  (λ u. ground arith, e, whole, posted),
              λ k. e' ∙ to_none (to_success (k.2, k.3)),
            )
      ]
    ]
