-- ===== src/Tests/Deciding.antt =====
-- A click on a Slack button that approves a request.
use open_clause.Base.{
  ℕ, ◌+◌, ◌*◌, ◌≡◌, ◌⊎◌, refl, true, none, some, [], ◌∷◌, ◌++◌, Text, text, text_dec, ◌==◌,
  if◌then◌else◌, arith, trim_space, to_lower,
}
use open_clause.Base.Dict
use open_clause.Base.Int.{pos, parse_int}
use open_clause.Evidence.Canonical.{marshal}
use open_clause.Connectors.Slack.{ApprovalMessageParams, action_value, button_value}
use open_clause.Approvals.Model
use open_clause.Approvals.Model.{Status}
use open_clause.Approvals.Authorizer.{allow, canonical}
use open_clause.Approvals.Store.Requests.{has_request, find_request}
use open_clause.Approvals.Store.Grants.{has_grant}
use open_clause.Approvals.Store.Lifecycle.{Reach, IsSound, Has}
use open_clause.Approvals.Handlers.{acted, Surroundings}
use open_clause.Approvals.Handlers.Slack.{
  Interaction, SlackRequest, unix_epoch, is_too_old, is_too_new, expected_signature,
  verify_slack_request, handle_slack, shown_name,
}
use open_clause.Approvals.Handlers.Calls.{Handlers, interacts, is_slack, route}
use open_clause.Approvals.Handlers.Entitled.{Created, Approved, Denied}
use open_clause.Approvals.Handlers.Decides.{route-Decides}
use open_clause.Approvals.Handlers.Responses.{IsHonest}
use open_clause.Approvals.Handlers.Honest.{route-IsHonest}
use open_clause.Approvals.Handlers.Buttons.{HasBytes, IsClick, says}
use open_clause.Approvals.Handlers.Clicks.{approves, IsWaiting, handle_slack-click}
use open_clause.Tests.Fixtures.{no_unicode, no_faults}

abbrev start : ℕ
start = unix_epoch * 1000000000

abbrev waiting : Model.ApprovalRequest
waiting = record {
  id = text "1";
  event_id = text "e";
  tenant_id = text "t";
  agent_id = text "a";
  tool = text "jira";
  action = text "list";
  resource = text "r";
  risk_score = pos 1;
  reason = [];
  deny_reason = [];
  denied_by = [];
  status = Status.pending;
  created_at = start;
  expires_at = start + 100;
}

abbrev db : Model.Db
db = record { requests = waiting ∷ []; grants = []; outbox = [] }

abbrev message : ApprovalMessageParams
message = record {
  channel = text "c";
  tool = text "jira";
  action = text "list";
  resource = text "r";
  risk_score = pos 1;
  reason = [];
  approval_url = [];
  approval_request_id = text "1";
  event_id = text "e";
  tenant_id = text "t";
}

abbrev click : Interaction
click = record {
  kind = text "block_actions";
  user_id = text "u";
  username = [];
  name = text "ann";
  actions = button_value (text "approve") message ∷ [];
}

abbrev written_value : Text
written_value = marshal (action_value (text "approve") (text "1") (text "e") (text "t"))

-- Every form and payload is the click, and its value is what the button holds.
abbrev handlers : Handlers
handlers = record {
  authorizer = some (record { email = []; slack = (text "t", text "u" ∷ []) ∷ [] });
  slack_signing_secret = text "s";
  hmac = λ key message. key;
  decoders = record {
    payload = λ body. some body;
    interaction = λ payload. some click;
    action_value =
        λ raw. if raw == written_value then some (says (text "approve") message) else none;
  };
  unicode = no_unicode;
}

abbrev surroundings : Surroundings
surroundings = record {
  read = no_faults;
  write = no_faults;
  ids = λ k. text "g";
  received_at = start;
  now = start + 1;
}

abbrev request : SlackRequest
request = record { body = some (text "b"); signature = text "v0=s"; timestamp = text "0" }

sound : IsSound db
unfolding has_request
sound = record {
  distinct = (refl, tt);
  single = λ id. omega arith;
  approved_first = λ id h. absurd (omega arith);
}

route-Decides_example :
    let db' = (route (text "i") handlers [] (interacts request) surroundings db db).1 in
    (db' ≡ db)
    ⊎ (((is_slack (interacts request) ≡ true) ⊎ (◌≡◌ {A = Text} [] (text "i")))
        × (Created handlers (interacts request) surroundings db db'
            ⊎ Approved handlers (interacts request) surroundings db db'
            ⊎ Denied handlers (interacts request) surroundings db db'))
route-Decides_example =
    route-Decides (λ pattern name. none) handlers surroundings sound Reach.here (text "i") []
      (interacts request)

route-IsHonest_example :
    IsHonest
      (route (text "i") handlers [] (interacts request) surroundings db db).0
      db
      db
      (route (text "i") handlers [] (interacts request) surroundings db db).1
unfolding has_request
route-IsHonest_example =
    route-IsHonest handlers surroundings db db (refl, tt) (text "i") [] (interacts request)

bytes : HasBytes message
unfolding text
bytes = record {
  approval_request_id = omega arith;
  event_id = omega arith;
  tenant_id = omega arith;
}

is_waiting : IsWaiting handlers surroundings message click db
unfolding find_request text text_dec has_grant has_request allow canonical Dict.lookup trim_space
    to_lower
is_waiting = record {
  reads = λ k. refl;
  writes = λ k. refl;
  distinct = (refl, tt);
  request = waiting;
  found = refl;
  same_event = refl;
  pending = refl;
  current = omega arith;
  fresh = refl;
  may = refl;
}

verified :
    verify_slack_request (λ key message. key) (text "b") (text "v0=s") (text "0") (text "s") start
    ≡ true
unfolding verify_slack_request text text_dec parse_int is_too_old is_too_new expected_signature
verified = refl

value_is_read : (written_value == written_value) ≡ true
value_is_read = ground arith

is_click : IsClick handlers start request click (text "approve") message
unfolding text
is_click = record {
  body = text "b";
  body_of = refl;
  verified = verified;
  payload = text "b";
  payload_of = refl;
  payload_there = refl;
  decoded = refl;
  kind = refl;
  others = [];
  actions = refl;
  value_read = rw value_is_read refl;
}

handle_slack-click_example :
    let out =
      handle_slack handlers.hmac handlers.decoders
        (text "s")
        no_unicode
        handlers.authorizer
        surroundings
        request
        db
        db in
    (out.0 ≡ acted (text "Approved by @" ++ shown_name click))
    × Has (text "1") Status.approved out.1
handle_slack-click_example =
    handle_slack-click handlers surroundings request click message db bytes is_waiting approves
      is_click
