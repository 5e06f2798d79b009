-- ===== src/Tests/Connecting.antt =====
-- Calls of the connectors, of a webhook and of the gateway.
use open_clause.Base.{
  ◌≡◌, ◌↔◌, ◌++◌, refl, true, false, none, some, List, [], ◌∷◌, text, text_dec, ◌==◌, if◌then◌else◌,
  trim_slashes, length, ◌≤◌, ok, err, arith,
}
use open_clause.Base.Dict
use open_clause.Base.Int.{pos}
use open_clause.Json.{null}
use open_clause.Types.Policy.{Decision, ToolCallResponse}
use open_clause.Types.Errors.{conflict}
use open_clause.Evidence.Store.Tables.{is_status}
use open_clause.Gateway.Model.{ExecRequest, ExecResponse}
use open_clause.Gateway.ToolCalls.{execution_result}
use open_clause.Http.{HttpRequest, Answer, not_sent, answered, run, sent}
use open_clause.Connectors.{Codec, Registry, new_registry, register, set_internal_token, exec}
use open_clause.Connectors.Serve.{ServerCodec, service}
use open_clause.Connectors.Remote.{Agree, exec-service}
use open_clause.Connectors.Statuses.{Deployed, slack, connector, exec-is_status}
use open_clause.Approvals.Model
use open_clause.Approvals.Webhooks.{
  v4, Tools, is_loopback, is_private, is_link_local_unicast, is_link_local_multicast,
  validate_webhook_url,
}
use open_clause.Approvals.Deliveries.{
  Dispatcher, new_dispatcher, deliver_webhook, webhook_request, webhook_requests,
}
use open_clause.Http.Redirects.{Rules, Served, ends, redirects, redirected, requests, AreRedirected}
use open_clause.Approvals.Deliveries.Checked.{IsSafe, signed_with, deliver_webhook-IsSafe}
use open_clause.Sdk
use open_clause.Sdk.{wait_for_approval_then_execute}
use open_clause.Sdk.First.{IsFirst, wait-IsFirst}
use open_clause.Tests.Fixtures.{empty_message}

abbrev posted : ExecRequest
posted = record {
  event_id = text "e";
  tenant_id = text "t";
  agent_id = text "a";
  tool = text "slack";
  action = text "msg.post";
  params = empty_message;
  resource = [];
}

-- Every message is for one channel.
abbrev deployed : Deployed
deployed =
    slack
      (record {
        msg_params = λ raw. ok (record { channel = text "c"; message = text "hi" });
        approval_params = λ raw. err [];
        reply = λ body. none;
        value_of = λ body. null;
      })
      (record { mock = true; token = [] }) 1700000000

-- No service answers.
abbrev unreachable : HttpRequest → Answer
unreachable q = not_sent (text "refused")

abbrev outcome : ExecResponse
outcome = run unreachable (connector deployed posted)

abbrev codec : Codec
codec = record { encode = λ x. ok x.tool; decode = λ body. ok outcome; quoted = λ s. s }

abbrev server_codec : ServerCodec
server_codec = record { decode = λ body. some posted; encode = λ y. ok y.status }

abbrev registry : Registry
registry = record { routes = (text "slack", text "http://slack/") ∷ []; internal_token = text "i" }

registered :
    set_internal_token (text "i") (register (text "slack") (text "http://slack/") new_registry)
    ≡ registry
unfolding set_internal_token register Dict.insert
registered = refl

agree : Agree codec server_codec posted outcome
agree = record {
  request = text "slack";
  request_written = refl;
  request_read = refl;
  response = outcome.status;
  response_written = refl;
  response_read = refl;
}

routed : Dict.lookup (text "slack") registry.routes ≡ some (text "http://slack/")
unfolding Dict.lookup text text_dec
routed = refl

exec-service_example :
    run
      (service server_codec (text "i") (connector deployed) unreachable)
      (exec codec registry posted)
    ≡ (if registry.internal_token == text "i"
        then ok outcome
        else err (
            text "connector "
            ++ (text "slack" ++ (text " returned HTTP " ++ text "401: unauthorized\n"))))
exec-service_example =
    exec-service codec server_codec registry (text "i") (connector deployed) unreachable posted
      (text "http://slack/") agree routed

exec-is_status_example :
    is_status
      (execution_result 3 (
        run
          (service server_codec (text "i") (connector deployed) unreachable)
          (exec codec registry posted))).status
    ≡ true
exec-is_status_example =
    exec-is_status deployed codec server_codec registry (text "i") unreachable posted
      (text "http://slack/") 3 routed agree

-- Every URL is of one public host.
abbrev pub tools : Tools
tools = record {
  parse_url = λ raw. ok (record { scheme = text "https"; hostname = text "9.9.9.9" });
  parse_ip = λ host. some (v4 9 9 9 9);
  show_ip = λ ip. [];
  quoted = λ s. s;
  hmac = λ key body. key;
  rfc3339 = λ t. [];
  rfc3339_nano = λ t. [];
  risk_factors = λ fs. null;
  encode = λ x. ok [];
  decode = λ body. err [];
}

abbrev pub dispatcher : Dispatcher
dispatcher = record {
  source = text "oc";
  secrets = (text "k", text "secret") ∷ [];
  slack_url = text "http://slack";
  internal_token = [];
  skip_webhook_validation = false;
}

dispatcher_is_new :
    new_dispatcher (text "oc") ((text "k", text "secret") ∷ []) (text "http://slack/") []
    ≡ dispatcher
unfolding new_dispatcher trim_slashes text
dispatcher_is_new = refl

abbrev pub item : Model.NotificationOutbox
item = record {
  id = text "n";
  approval_request_id = text "1";
  tenant_id = text "t";
  event_id = text "e";
  trace_id = [];
  tool = text "jira";
  action = text "list";
  resource = text "r";
  risk_score = pos 1;
  risk_factors = [];
  reason = [];
  approval_url = [];
  approver_group = [];
  notify_kind = text "webhook";
  notify_url = text "https://9.9.9.9/hook";
  secret_ref = text "k";
  slack_channel = [];
  attempts = 1;
  status = Model.OutboxStatus.processing;
  next_attempt_at = 5;
  created_at = 5;
  last_error = [];
}

is_sent : (q : HttpRequest) × (sent (deliver_webhook tools dispatcher 7 item) ≡ some q)
unfolding sent deliver_webhook validate_webhook_url text text_dec is_loopback is_private
    is_link_local_unicast is_link_local_multicast
is_sent = (_, refl)

-- The host of the webhook redirects the client into the network, where it is answered.
abbrev rules : Rules
rules = record { resolve = λ url location. location; headers_to = λ q url. q.headers }

abbrev redirecting : HttpRequest → Served
redirecting q =
    if q.url == text "https://9.9.9.9/hook"
    then redirects 307 (text "http://169.254.169.254/")
    else ends (answered 200 [])

deliver_webhook-IsSafe_example :
    (is_sent.0.url ≡ text "https://9.9.9.9/hook")
    × IsSafe tools is_sent.0.url
    × (Dict.lookup (text "X-OC-Signature-256") is_sent.0.headers
        ≡ signed_with tools (Dict.lookup (text "k") dispatcher.secrets) is_sent.0.body)
    × ((rest : List HttpRequest) × (webhook_requests tools dispatcher rules redirecting 7 item
          ≡ is_sent.0 ∷ rest)
        × AreRedirected rules redirecting is_sent.0 rest
        × (length rest ≤ 9))
deliver_webhook-IsSafe_example =
    deliver_webhook-IsSafe tools (λ host ip e. ground arith) dispatcher 7 item rules redirecting
      refl is_sent.1

-- The same signed body is sent to an address that the validation refuses.
sent_inside :
    requests rules redirecting is_sent.0
    ≡ is_sent.0 ∷ record is_sent.0 { url = text "http://169.254.169.254/" } ∷ []
unfolding requests redirected sent deliver_webhook validate_webhook_url text text_dec is_loopback
    is_private is_link_local_unicast is_link_local_multicast webhook_request is_sent
sent_inside = refl

abbrev client : Sdk.Client
client = record { base_url = text "http://gateway"; api_key = text "k" }

abbrev response : ToolCallResponse
response = record {
  event_id = text "x";
  decision = Decision.allow;
  reason = [];
  approval_url = [];
  result = none;
}

abbrev sdk_codec : Sdk.Codec
sdk_codec = record {
  encode = λ r. ok [];
  decode = λ body. ok response;
  decode_error = λ body. some (conflict (text "awaiting approval"));
}

-- The approval is awaited at the first tick and given at the second.
abbrev events : List Sdk.Event
events = Sdk.tick (λ q. answered 409 []) ∷ Sdk.tick (λ q. answered 200 []) ∷ []

wait-IsFirst_example :
    (wait_for_approval_then_execute sdk_codec client (text "e") events ≡ some (ok response))
    ↔ IsFirst sdk_codec client (text "e") events (ok response)
wait-IsFirst_example = wait-IsFirst sdk_codec client (text "e") events (ok response)
