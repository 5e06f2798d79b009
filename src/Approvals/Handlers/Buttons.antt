-- ===== src/Approvals/Handlers/Buttons.antt =====
-- The buttons that the Slack connector puts into a message, and how the handler reads a click.
use open_clause.Base.{
  ℕ, ◌<◌, ◌≡◌, true, false, some, List, [], ◌∷◌, ◌++◌, Text, text, is_empty, All-append, ok, arith,
}
use open_clause.Base.Base64
use open_clause.Json.{quote}
use open_clause.Json.Bytes.{IsBytes, quote-IsBytes}
use open_clause.Types.ToolCall.{Time}
use open_clause.Evidence.Canonical.{marshal}
use open_clause.Connectors.Slack.{
  ApprovalMessageParams, action_value, encode_action_value, button_value,
}
use open_clause.Approvals.Handlers.Calls.{Handlers}
use open_clause.Approvals.Handlers.Slack.{
  Interaction, ActionValue, SlackRequest, first_action, verify_slack_request, read_interaction,
}

quote-append : (s rest : Text) → IsBytes s → IsBytes rest → IsBytes (quote s ++ rest)
quote-append s rest hs hr = All-append _ (quote s) rest (quote-IsBytes s hs) hr

-- A member of the object, with what follows it.
member-IsBytes :
    (k : ℕ) (v rest : Text)
    → k < 256
    → IsBytes v
    → IsBytes rest
    → IsBytes (quote (k ∷ []) ++ (b':' ∷ (quote v ++ rest)))
member-IsBytes k v rest hk hv hr =
    quote-append (k ∷ []) (b':' ∷ (quote v ++ rest)) (hk, tt)
      (omega arith, quote-append v rest hv hr)

action_value-IsBytes :
    (a b c d : Text)
    → IsBytes a
    → IsBytes b
    → IsBytes c
    → IsBytes d
    → IsBytes (marshal (action_value a b c d))
unfolding marshal action_value text
action_value-IsBytes a b c d ha hb hc hd =
    let comma : b',' < 256 = omega arith in
    (
      omega arith,
      member-IsBytes b'd' a _ (omega arith) ha (
        comma,
        member-IsBytes b'r' b _ (omega arith) hb (
          comma,
          member-IsBytes b'e' c _ (omega arith) hc
              (comma, member-IsBytes b't' d _ (omega arith) hd (omega arith)),
        ),
      ),
    )

-- The texts of a message that its buttons carry.
pub record HasBytes (p : ApprovalMessageParams) : Type 0 where
  pub approval_request_id : IsBytes p.approval_request_id
  pub event_id : IsBytes p.event_id
  pub tenant_id : IsBytes p.tenant_id

-- What the value of a button says.
abbrev pub says : Text → ApprovalMessageParams → ActionValue
says decision p = record {
  decision = decision;
  approval_request_id = p.approval_request_id;
  event_id = p.event_id;
  tenant_id = p.tenant_id;
}

decode-button_value :
    (decision : Text) (p : ApprovalMessageParams)
    → IsBytes decision
    → HasBytes p
    → Base64.decode (button_value decision p)
      ≡ some (marshal (action_value decision p.approval_request_id p.event_id p.tenant_id))
unfolding button_value encode_action_value
decode-button_value decision p hd hp =
    Base64.decode-encode
      (marshal (action_value decision p.approval_request_id p.event_id p.tenant_id))
      (action_value-IsBytes decision p.approval_request_id p.event_id p.tenant_id hd
        hp.approval_request_id hp.event_id hp.tenant_id)

-- A request that Slack has signed, for a click of a user on a button. The decoders read the form,
-- the interaction and the JSON of the button's value.
pub record IsClick (h : Handlers) (now : Time) (q : SlackRequest) (x : Interaction)
    (decision : Text) (p : ApprovalMessageParams) : Type 0 where
  pub body : Text
  pub body_of : q.body ≡ some body
  pub verified :
      verify_slack_request h.hmac body q.signature q.timestamp h.slack_signing_secret now ≡ true
  pub payload : Text
  pub payload_of : h.decoders.payload body ≡ some payload
  pub payload_there : is_empty payload ≡ false
  pub decoded : h.decoders.interaction payload ≡ some x
  pub kind : x.kind ≡ text "block_actions"
  pub others : List Text
  pub actions : x.actions ≡ button_value decision p ∷ others
  pub value_read :
      h.decoders.action_value
        (marshal (action_value decision p.approval_request_id p.event_id p.tenant_id))
      ≡ some (says decision p)

first_action-click :
    (x : Interaction) (value : Text) (others : List Text)
    → x.kind ≡ text "block_actions"
    → x.actions ≡ value ∷ others
    → first_action x ≡ some value
unfolding first_action
first_action-click x value others k e = ground arith

pub read_interaction-click :
    (h : Handlers) (now : Time) (q : SlackRequest) (x : Interaction) (decision : Text)
    (p : ApprovalMessageParams)
    → IsBytes decision
    → HasBytes p
    → IsClick h now q x decision p
    → read_interaction h.hmac h.decoders h.slack_signing_secret now q ≡ ok (x, says decision p)
unfolding read_interaction
read_interaction-click h now q x decision p hd hp c = ground (
  arith,
  c.body_of,
  c.verified,
  c.payload_of,
  c.payload_there,
  c.decoded,
  first_action-click x (button_value decision p) c.others c.kind c.actions,
  decode-button_value decision p hd hp,
  c.value_read,
)
