-- ===== src/Tests/Posting.antt =====
-- The delivery of a notification to Slack, which refuses the message with the status code 200.
use open_clause.Base.{◌≡◌, ◌≢◌, ◌↔◌, inr, refl, false, none, some, [], text, ok, err, arith}
use open_clause.Json.{null}
use open_clause.Gateway.Model.{ExecResponse}
use open_clause.Http.{HttpRequest, Answer, answered, run}
use open_clause.Connectors.Slack.{Decoders, SlackConnector, approval_plan}
use open_clause.Connectors.Serve.{ServerCodec}
use open_clause.Connectors.Posted.{IsPosted, IsWhole}
use open_clause.Approvals.Model
use open_clause.Approvals.Webhooks.{Tools}
use open_clause.Approvals.Deliveries.{slack_exec_request}
use open_clause.Approvals.Deliveries.Posted.{message_of, Agree, delivered, deliver_slack-IsPosted}
use open_clause.Tests.Connecting.{tools, dispatcher, item}

abbrev notification : Model.NotificationOutbox
notification = record item { slack_channel = text "c"; notify_kind = text "slack" }

abbrev decoders : Decoders
decoders = record {
  msg_params = λ raw. err [];
  approval_params = λ raw. ok (message_of notification);
  reply = λ body. some (false, text "not_in_channel");
  value_of = λ body. null;
}

abbrev bot : SlackConnector
bot = record { mock = false; token = text "xoxb" }

abbrev refusing : HttpRequest → Answer
refusing q = answered 200 (text "{\"ok\":false}")

abbrev outcome : ExecResponse
outcome = run refusing (approval_plan decoders bot (message_of notification))

-- Each end has one message of each kind to read.
abbrev posting : Tools
posting = record tools { decode = λ body. ok outcome }

abbrev server_codec : ServerCodec
server_codec = record {
  decode = λ body. some (slack_exec_request posting dispatcher notification);
  encode = λ y. ok y.status;
}

agree : Agree posting server_codec decoders dispatcher notification outcome
unfolding slack_exec_request
agree = record {
  request = [];
  request_written = refl;
  request_read = refl;
  params_read = refl;
  response = outcome.status;
  response_written = refl;
  response_read = refl;
}

deliver_slack-IsPosted_example :
    (delivered decoders bot refusing posting server_codec dispatcher [] 1700000000 notification
        agree
      ≡ none)
    ↔ ((dispatcher.slack_url ≢ [])
        × (dispatcher.internal_token ≡ [])
        × IsWhole (message_of notification)
        × IsPosted decoders bot refusing (message_of notification))
deliver_slack-IsPosted_example =
    deliver_slack-IsPosted decoders bot refusing posting server_codec dispatcher [] 1700000000
      notification agree

is_posted : IsPosted decoders bot refusing (message_of notification)
is_posted = inr (text "{\"ok\":false}", refl)

-- The delivery has no error although Slack refuses the message.
delivered_anyway :
    delivered decoders bot refusing posting server_codec dispatcher [] 1700000000 notification agree
    ≡ none
unfolding text
delivered_anyway =
    (deliver_slack-IsPosted decoders bot refusing posting server_codec dispatcher [] 1700000000
        notification agree).1
      (
        λ e. ground arith,
        refl,
        (λ e. ground arith, λ e. ground arith, λ e. ground arith, λ e. ground arith),
        is_posted,
      )
