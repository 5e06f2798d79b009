-- ===== src/Connectors/Slack.antt =====
-- `cmd/connector-slack/main.go`: the actions of the Slack connector. The decoders of JSON are a
-- parameter. A map is written with its keys in the order in which `json.Marshal` sorts them.
use open_clause.Base.{
  ℕ, Bool, true, false, ◌||◌, Option, none, some, [], ◌∷◌, ◌++◌, Text, text, ◌==◌, eqb, is_empty,
  if◌then◌else◌, Result, ok, err,
}
use open_clause.Base.Int.{ℤ}
use open_clause.Base.Base64
use open_clause.Base.Decimal.{decimal, decimal_ℤ}
use open_clause.Json.{Json, bool, str, arr, obj, nil, cons, end, field}
use open_clause.Types.ToolCall.{RawMessage}
use open_clause.Evidence.Canonical.{marshal}
use open_clause.Gateway.Model.{ExecRequest, ExecResponse}
use open_clause.Http.{HttpRequest, Plan, done, send}
use open_clause.Connectors.Outcome.{made, success, failure, read_answer, as_it_came, unsupported}

-- `slackMsgParams`.
pub record MsgParams : Type 0 where
  pub channel : Text
  pub message : Text

-- `slackApprovalMessageParams`; the connector does not read `RiskFactors`.
pub record ApprovalMessageParams : Type 0 where
  pub channel : Text
  pub tool : Text
  pub action : Text
  pub resource : Text
  pub risk_score : ℤ
  pub reason : Text
  pub approval_url : Text
  pub approval_request_id : Text
  pub event_id : Text
  pub tenant_id : Text

-- `json.Unmarshal` of the parameters, with its error; of Slack's reply, into its `ok` and `error`;
-- and the value that a body denotes.
pub record Decoders : Type 0 where
  pub msg_params : RawMessage → Result Text MsgParams
  pub approval_params : RawMessage → Result Text ApprovalMessageParams
  pub reply : Text → Option (Bool × Text)
  pub value_of : Text → Json

pub record SlackConnector : Type 0 where
  pub mock : Bool
  pub token : Text

abbrev pair : Text → Json → Text → Json → Json
pair k v j w = obj (field k v (field j w end))

-- `encodeActionValue`: the four texts of a `slackActionValue`.
unfoldable pub action_value : Text → Text → Text → Text → Json
action_value decision request_id event_id tenant_id = obj (
    field (text "d") (str decision) (
      field (text "r") (str request_id)
        (field (text "e") (str event_id) (field (text "t") (str tenant_id) end))))

unfoldable pub encode_action_value : Text → Text → Text → Text → Text
unfolding action_value
encode_action_value decision request_id event_id tenant_id =
    Base64.encode (marshal (action_value decision request_id event_id tenant_id))

-- The two buttons that decide, and the one that opens the URL.
unfoldable pub button : Text → Text → Text → Json
button style label value = obj (
    field (text "style") (str style) (
      field (text "text") (pair (text "text") (str label) (text "type") (str (text "plain_text")))
        (field (text "type") (str (text "button")) (field (text "value") (str value) end))))

open_button : Text → Json
open_button url = obj (
    field (text "text")
      (pair (text "text") (str (text "Open")) (text "type") (str (text "plain_text")))
      (field (text "type") (str (text "button")) (field (text "url") (str url) end)))

-- The dash is U+2014.
summary : ApprovalMessageParams → Text
summary p =
    text "*Approval needed*\n`"
    ++ (p.tool
        ++ (text "."
            ++ (p.action
                ++ (text "` on `"
                    ++ (p.resource
                        ++ (text "`\nRisk: *"
                            ++ (decimal_ℤ p.risk_score
                                ++ (text "* " ++ (226 ∷ 128 ∷ 148 ∷ (text " " ++ p.reason))))))))))

-- The button of a decision on the request of the message.
unfoldable pub button_value : Text → ApprovalMessageParams → Text
button_value decision p = encode_action_value decision p.approval_request_id p.event_id p.tenant_id

unfoldable pub blocks : ApprovalMessageParams → Json
unfolding button open_button summary
blocks p = arr (
    cons
      (pair (text "text") (pair (text "text") (str (summary p)) (text "type") (str (text "mrkdwn")))
        (text "type") (str (text "section")))
      (cons
        (pair (text "elements")
          (arr (
            cons (button (text "primary") (text "Approve") (button_value (text "approve") p)) (
              cons (button (text "danger") (text "Deny") (button_value (text "deny") p))
                (cons (open_button p.approval_url) nil))))
          (text "type") (str (text "actions")))
        nil))

-- The value with which a mock answers an approval message.
mock_approval : ApprovalMessageParams → Json
mock_approval p = obj (
    field (text "actionId") (str (button_value (text "approve") p)) (
      field (text "channel") (str p.channel) (
        field (text "message") (obj (field (text "blocks") (blocks p) end)) (
          field (text "mock") (bool true) (
            field (text "ok") (bool true)
              (field (text "ts") (str (text "1700000000.000001")) end))))))

mock_channels : Json
mock_channels =
    let channel = λ (id name : Text). pair (text "id") (str id) (text "name") (str name) in
    obj (
      field (text "channels")
        (arr (
          cons (channel (text "C01GENERAL") (text "general"))
            (cons (channel (text "C02SECURITY") (text "security-approvals")) nil)))
        (field (text "mock") (bool true) (field (text "ok") (bool true) end)))

mock_message : ℕ → MsgParams → Json
mock_message unix_now p = obj (
    field (text "channel") (str p.channel) (
      field (text "mock") (bool true) (
        field (text "ok") (bool true)
          (field (text "ts") (str (decimal unix_now ++ text ".000000")) end))))

abbrev pub is_ok : ℕ → Bool
is_ok code = eqb code 200

-- What `postMessage` makes of Slack's reply.
unfoldable pub read_reply : Text → (Text → Json) → Option (Bool × Text) → ExecResponse
read_reply body value_of none = record {
  status = text "error";
  output_json = as_it_came value_of body;
  error = text "slack: invalid response body";
}
read_reply body value_of (some (false, e)) = record {
  status = text "error";
  output_json = as_it_came value_of body;
  error = text "slack: " ++ e;
}
read_reply body value_of (some (true, e)) = success (as_it_came value_of body)

module _ (d : Decoders) (c : SlackConnector) where
  abbrev authorization : Text × Text
  authorization = (text "Authorization", text "Bearer " ++ c.token)

  -- The call of `chat.postMessage`.
  unfoldable pub chat_post : Json → HttpRequest
  chat_post body = record {
    method = text "POST";
    url = text "https://slack.com/api/chat.postMessage";
    headers = (text "Content-Type", text "application/json") ∷ authorization ∷ [];
    body = marshal body;
  }

  unfoldable pub list_channels : Plan ExecResponse
  unfolding mock_channels
  list_channels =
      if c.mock
      then done (success (made mock_channels))
      else send
          (record {
            method = text "GET";
            url = text "https://slack.com/api/conversations.list?limit=200";
            headers = authorization ∷ [];
            body = [];
          })
          (read_answer is_ok (λ body. success (as_it_came d.value_of body)))

  -- The call for an approval message.
  unfoldable pub approval_post : ApprovalMessageParams → HttpRequest
  approval_post p = chat_post (
      obj (
        field (text "blocks") (blocks p) (
          field (text "channel") (str p.channel)
            (field (text "text") (str (text "Approval required")) end))))

  unfoldable pub approval_plan : ApprovalMessageParams → Plan ExecResponse
  unfolding mock_approval
  approval_plan p =
      if is_empty p.channel
        || is_empty p.approval_request_id
        || is_empty p.event_id
        || is_empty p.tenant_id
      then done (failure (text "channel, approval_request_id, event_id, tenant_id are required"))
      else if c.mock
      then done (success (made (mock_approval p)))
      else send (approval_post p) (read_answer is_ok (λ body. success (as_it_came d.value_of body)))

  unfoldable pub post_approval_message : ExecRequest → Plan ExecResponse
  post_approval_message x = elim (d.approval_params x.params) [
    | err e ↦ done (failure (text "invalid params: " ++ e))
    | ok p ↦ approval_plan p
  ]

  unfoldable pub message_plan : ℕ → MsgParams → Plan ExecResponse
  unfolding mock_message
  message_plan unix_now p =
      if is_empty p.channel || is_empty p.message
      then done (failure (text "channel and text are required"))
      else if c.mock
      then done (success (made (mock_message unix_now p)))
      else send
          (chat_post (
            obj (field (text "channel") (str p.channel) (field (text "text") (str p.message) end))))
          (read_answer is_ok (λ body. read_reply body d.value_of (d.reply body)))

  unfoldable pub post_message : ℕ → ExecRequest → Plan ExecResponse
  post_message unix_now x = elim (d.msg_params x.params) [
    | err e ↦ done (failure (text "invalid params: " ++ e))
    | ok p ↦ message_plan unix_now p
  ]

  -- `Exec`, when `time.Now().Unix()` is `unix_now`.
  unfoldable pub exec : ℕ → ExecRequest → Plan ExecResponse
  exec unix_now x =
      let action = x.tool ++ (text "." ++ x.action) in
      if action == text "slack.msg.post"
      then post_message unix_now x
      else if action == text "slack.channel.list"
      then list_channels
      else if action == text "slack.approval.request"
      then post_approval_message x
      else done (unsupported action)
