-- ===== src/Approvals/Handlers/Slack.antt =====
-- `SlackInteractions` and `VerifySlackRequest` of `pkg/approvals/handlers.go`. The HMAC, in hex,
-- and the decoders of forms and JSON are parameters.
use open_clause.Base.{
  ℕ, ◌+◌, Bool, true, false, ◌&&◌, ◌||◌, not, Option, none, some, List, [], ◌∷◌, ◌++◌, Text, text,
  ◌==◌, is_empty, ltb, if◌then◌else◌, Result, ok, err, ◌>>=◌, ◌>>◌, Unicode,
}
use open_clause.Base.Int.{ℤ, pos, pos_part, neg_part, parse_int}
use open_clause.Base.Base64
use open_clause.Types.ToolCall.{Time}
use open_clause.Types.Errors.{ApiError, bad_request, forbidden, unauthorized}
use open_clause.Approvals.Model
use open_clause.Approvals.Store.Requests.{deny_request, nanoseconds}
use open_clause.Approvals.Store.Grants.{grant_request}
use open_clause.Approvals.Authorizer.{allow}
use open_clause.Approvals.Handlers.{
  Authorizer, Response, failed, acted, Surroundings, stop_if, decoded, read_request, answer,
}

-- The seconds from the zero time to 1970.
abbrev pub unix_epoch : ℕ
unix_epoch = 62135596800

abbrev pub five_minutes : ℕ
five_minutes = nanoseconds 300

-- `reqTime.Before(now.Add(-5 * time.Minute))` for `time.Unix(ts, 0)`. A second count at which Go's
-- time overflows lies before that too, and here after the other end.
unfoldable pub is_too_old : ℤ → Time → Bool
is_too_old ts now =
    ltb (nanoseconds (pos_part ts + unix_epoch) + five_minutes) (now + nanoseconds (neg_part ts))

-- `reqTime.After(now.Add(5 * time.Minute))`.
unfoldable pub is_too_new : ℤ → Time → Bool
is_too_new ts now =
    ltb (now + five_minutes + nanoseconds (neg_part ts)) (nanoseconds (pos_part ts + unix_epoch))

-- The payload of an interaction, with the values of its actions.
pub record Interaction : Type 0 where
  pub kind : Text
  pub user_id : Text
  pub username : Text
  pub name : Text
  pub actions : List Text

pub record ActionValue : Type 0 where
  pub decision : Text
  pub approval_request_id : Text
  pub event_id : Text
  pub tenant_id : Text

-- `url.ParseQuery` with the value of `payload`, and `json.Unmarshal` into the two structs; `none`
-- is an error.
pub record Decoders : Type 0 where
  pub payload : Text → Option Text
  pub interaction : Text → Option Interaction
  pub action_value : Text → Option ActionValue

-- The request: its body, or `none` if it could not be read, and the two headers.
pub record SlackRequest : Type 0 where
  pub body : Option Text
  pub signature : Text
  pub timestamp : Text

abbrev head : List Text → Option Text
head [] = none
head (v ∷ _) = some v

-- The value of the first action of a `block_actions` interaction.
unfoldable pub first_action : Interaction → Option Text
first_action x = if x.kind == text "block_actions" then head x.actions else none

abbrev signed_in : Bool → Result ApiError (Unit {0})
signed_in true = ok tt
signed_in false = err (unauthorized (text "invalid slack signature"))

module _ (u : Unicode) where
  -- `h.authorizer != nil && !h.authorizer.AllowSlack(tenant, user)`.
  abbrev pub refuses_slack : Option Authorizer → Text → Text → Bool
  refuses_slack none tenant user = false
  refuses_slack (some a) tenant user = not (allow u a.slack tenant user)

module _ (hmac : Text → Text → Text) where
  unfoldable pub expected_signature : Text → Text → Text → Text
  expected_signature secret timestamp body =
      text "v0=" ++ hmac secret (text "v0:" ++ (timestamp ++ (text ":" ++ body)))

  -- The tests after the empty ones, on the parsed timestamp.
  verify_at : Text → Text → Text → Text → Time → Option ℤ → Bool
  verify_at body signature timestamp secret now none = false
  verify_at body signature timestamp secret now (some ts) =
      if is_too_old ts now || is_too_new ts now
      then false
      else expected_signature secret timestamp body == signature

  -- `VerifySlackRequest`.
  unfoldable pub verify_slack_request : Text → Text → Text → Text → Time → Bool
  unfolding verify_at
  verify_slack_request body signature timestamp secret now =
      if is_empty secret || is_empty signature || is_empty timestamp
      then false
      else verify_at body signature timestamp secret now (parse_int timestamp)

  module _ (d : Decoders) (secret : Text) where
    -- From the request to the action of the user.
    unfoldable pub read_interaction :
        Time → SlackRequest → Result ApiError (Interaction × ActionValue)
    read_interaction now q = do
      body ← decoded (text "invalid request body") q.body
      signed_in (verify_slack_request body q.signature q.timestamp secret now)
      payload ← decoded (text "invalid form body") (d.payload body)
      stop_if (is_empty payload) (bad_request (text "missing payload"))
      x ← decoded (text "invalid interaction payload") (d.interaction payload)
      encoded ← decoded (text "unsupported interaction type") (first_action x)
      raw ← decoded (text "invalid action value encoding") (Base64.decode encoded)
      v ← decoded (text "invalid action value") (d.action_value raw)
      ok (x, v)

    module _ (u : Unicode) (authorizer : Option Authorizer) where
      -- What is done before anything changes.
      unfoldable pub admit_slack :
          Surroundings → SlackRequest → Model.Db → Result ApiError (Interaction × ActionValue)
      admit_slack s q seen = do
        (x, v) ← read_interaction s.received_at q
        r ← read_request (text "failed to process interaction") s.read v.approval_request_id seen
        stop_if (not (is_empty v.event_id) && not (r.event_id == v.event_id))
            (bad_request (text "interaction event mismatch"))
        stop_if (refuses_slack u authorizer r.tenant_id x.user_id)
            (forbidden (text "slack user is not allowed for tenant"))
        ok (x, v)

-- The name that the answer gives the user.
unfoldable pub shown_name : Interaction → Text
shown_name x =
    if is_empty x.username then (if is_empty x.name then x.user_id else x.name) else x.username

abbrev pub slack_approver : Interaction → Text
slack_approver x = text "slack:" ++ x.user_id

abbrev pub grant_input : Interaction → Model.GrantInput
grant_input x = record {
  approver = slack_approver x;
  max_uses = pos 1;
  expires_in_sec = pos 0;
  resource_pattern = [];
}

abbrev pub deny_input : Interaction → Model.DenyInput
deny_input x = record { approver = slack_approver x; reason = text "denied from Slack" }

-- The switch on the decision, with the answer.
unfoldable pub act : Surroundings → Interaction × ActionValue → Model.Db → Response × Model.Db
unfolding shown_name
act s (x, v) db =
    let msg = text "failed to process interaction" in
    let id = v.approval_request_id in
    if v.decision == text "approve"
    then answer (λ _. acted (text "Approved by @" ++ shown_name x)) msg
        (grant_request s.write (s.ids 0) s.now id (grant_input x) db)
    else if v.decision == text "deny"
    then answer (λ _. acted (text "Denied by @" ++ shown_name x)) msg
        (deny_request s.write id (deny_input x) db)
    else (failed (bad_request (text "unknown action")), db)

-- `SlackInteractions`.
unfoldable pub handle_slack :
    (Text → Text → Text)
    → Decoders
    → Text
    → Unicode
    → Option Authorizer
    → Surroundings
    → SlackRequest
    → Model.Db
    → Model.Db
    → Response × Model.Db
handle_slack hmac d secret u authorizer s q seen db =
    elim (admit_slack hmac d secret u authorizer s q seen) [
      | err e ↦ (failed e, db)
      | ok admitted ↦ act s admitted db
    ]
