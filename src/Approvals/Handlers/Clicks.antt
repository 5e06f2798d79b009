-- ===== src/Approvals/Handlers/Clicks.antt =====
-- What a click on a button of a Slack message does.
use open_clause.Base.{
  ℕ, ◌≤◌, ◌<◌, ◌≡◌, refl, ◌∙◌, false, Option, none, some, ◌++◌, Text, text, text_dec, ◌==◌,
  is_empty, ok, arith, Unicode,
}
use open_clause.Base.Int.{pos}
use open_clause.Json.Bytes.{IsBytes}
use open_clause.Connectors.Slack.{ApprovalMessageParams}
use open_clause.Approvals.Model
use open_clause.Approvals.Handlers.Calls.{Handlers}
use open_clause.Approvals.Model.{Status}
use open_clause.Approvals.Store.Requests.{find_request, get_request, deny_request}
use open_clause.Approvals.Store.Grants.{grant_request, has_grant, grant_uses}
use open_clause.Approvals.Store.Rows.{Distinct, approve, deny}
use open_clause.Approvals.Store.Lifecycle.{Has}
use open_clause.Approvals.Store.Decisions.{grant_request-ok, deny_request-ok}
use open_clause.Approvals.Store.Accepted.{grant_request-accepted, deny_request-accepted}
use open_clause.Approvals.Handlers.{Authorizer, acted, Surroundings, read_request}
use open_clause.Approvals.Handlers.Entitled.{MayInteract}
use open_clause.Approvals.Handlers.Slack.{
  refuses_slack, admit_slack, act, handle_slack, shown_name, slack_approver, grant_input,
  deny_input, Interaction, SlackRequest,
}
use open_clause.Approvals.Handlers.Buttons.{HasBytes, says, IsClick, read_interaction-click}

-- The store, in a state in which the request of a message waits, and the user may decide on it.
pub record IsWaiting (h : Handlers) (s : Surroundings) (p : ApprovalMessageParams) (x : Interaction)
    (db : Model.Db) : Type 0 where
  pub reads : (k : ℕ) → s.read k ≡ none
  pub writes : (k : ℕ) → s.write k ≡ none
  pub distinct : Distinct db.requests
  pub request : Model.ApprovalRequest
  pub found : find_request p.approval_request_id db.requests ≡ some request
  pub same_event : request.event_id ≡ p.event_id
  pub pending : request.status ≡ Status.pending
  pub current : s.now < request.expires_at
  pub fresh : has_grant (s.ids 0) db.grants ≡ false
  pub may : MayInteract h.unicode h.authorizer request.tenant_id x.user_id

refuses_slack_of_MayInteract :
    (u : Unicode) (a : Option Authorizer) (tenant user : Text)
    → MayInteract u a tenant user
    → refuses_slack u a tenant user ≡ false
refuses_slack_of_MayInteract u none tenant user h = refl
refuses_slack_of_MayInteract u (some a) tenant user h = ground arith

approve-IsBytes : IsBytes (text "approve")
unfolding text
approve-IsBytes = omega arith

deny-IsBytes : IsBytes (text "deny")
unfolding text
deny-IsBytes = omega arith

named : (x : Interaction) → is_empty (slack_approver x) ≡ false
unfolding text
named x = refl

once : grant_uses (pos 1) ≤ 2147483647
unfolding grant_uses
once = omega arith

-- The two buttons: the decision in the value, what is answered, and what becomes of the request.
pub data Button : Type 0 where
  approves denies : Button

abbrev pub decision_of : Button → Text
decision_of approves = text "approve"
decision_of denies = text "deny"

abbrev pub said_of : Button → Text
said_of approves = text "Approved by @"
said_of denies = text "Denied by @"

abbrev pub status_of : Button → Status
status_of approves = Status.approved
status_of denies = Status.denied

-- The switch on the decision.
act-approve :
    (s : Surroundings) (x : Interaction) (p : ApprovalMessageParams) (db : Model.Db)
    {g : Model.ApprovalGrant}
    → (grant_request s.write (s.ids 0) s.now p.approval_request_id (grant_input x) db).0 ≡ ok g
    → act s (x, says (text "approve") p) db ≡ (
      acted (text "Approved by @" ++ shown_name x),
      (grant_request s.write (s.ids 0) s.now p.approval_request_id (grant_input x) db).1,
    )
unfolding act
act-approve s x p db e = ground arith

deny_is_other : (text "deny" == text "approve") ≡ false
unfolding text text_dec
deny_is_other = refl

act-deny :
    (s : Surroundings) (x : Interaction) (p : ApprovalMessageParams) (db : Model.Db)
    → (deny_request s.write p.approval_request_id (deny_input x) db).0 ≡ ok tt
    → act s (x, says (text "deny") p) db ≡ (
      acted (text "Denied by @" ++ shown_name x),
      (deny_request s.write p.approval_request_id (deny_input x) db).1,
    )
unfolding act
act-deny s x p db e = ground (arith, deny_is_other)

module _ (h : Handlers) (s : Surroundings) (q : SlackRequest) (x : Interaction)
    (p : ApprovalMessageParams) (db : Model.Db) (hp : HasBytes p) (w : IsWaiting h s p x db) where
  admit_slack-click :
      (decision : Text)
      → IsBytes decision
      → IsClick h s.received_at q x decision p
      → admit_slack h.hmac h.decoders h.slack_signing_secret h.unicode h.authorizer s q db
        ≡ ok (x, says decision p)
  unfolding admit_slack read_request get_request
  admit_slack-click decision hd c = ground (
    arith,
    read_interaction-click h s.received_at q x decision p hd hp c,
    w.found,
    w.same_event,
    w.reads 0,
    refuses_slack_of_MayInteract h.unicode h.authorizer w.request.tenant_id x.user_id w.may,
  )

  abbrev pub Outcome : Text → Status → Type 0
  Outcome said status =
      let out =
        handle_slack h.hmac h.decoders h.slack_signing_secret h.unicode h.authorizer s q db db in
      (out.0 ≡ acted (said ++ shown_name x)) × Has p.approval_request_id status out.1

  handled :
      (decision : Text)
      → IsBytes decision
      → IsClick h s.received_at q x decision p
      → handle_slack h.hmac h.decoders h.slack_signing_secret h.unicode h.authorizer s q db db
        ≡ act s (x, says decision p) db
  unfolding handle_slack
  handled decision hd c = rw (admit_slack-click decision hd c, handle_slack) refl

  Outcome-of :
      (said : Text) (status : Status) (db' : Model.Db)
      → handle_slack h.hmac h.decoders h.slack_signing_secret h.unicode h.authorizer s q db db
        ≡ (acted (said ++ shown_name x), db')
      → Has p.approval_request_id status db'
      → Outcome said status
  Outcome-of said status db' e has = rw e (refl, has)

  -- A click on the button that the connector puts into the message for a request, if it waits and
  -- has not expired, the user may decide on it and nothing fails, decides on that very request:
  -- the button Approve approves it, and the button Deny denies it. The texts of the message are
  -- bytes, and the decoder of the value reads what `json.Marshal` wrote.
  pub handle_slack-click :
      (b : Button)
      → IsClick h s.received_at q x (decision_of b) p
      → Outcome (said_of b) (status_of b)
  handle_slack-click approves c =
      let id = p.approval_request_id in
      let i = grant_input x in
      let accepted =
        grant_request-accepted s.write w.writes id db w.found w.pending (s.ids 0) s.now i w.current
          (named x) w.fresh once in
      let done = grant_request-ok s.write (s.ids 0) s.now id i db w.distinct accepted in
      Outcome-of _ _ _ (handled (text "approve") approve-IsBytes c ∙ act-approve s x p db accepted)
        ((approve id s.now done.request, done.approved, refl))
  handle_slack-click denies c =
      let id = p.approval_request_id in
      let i = deny_input x in
      let accepted = deny_request-accepted s.write w.writes id db w.found w.pending i (named x) in
      let done = deny_request-ok s.write id i db w.distinct accepted in
      Outcome-of _ _ _ (handled (text "deny") deny-IsBytes c ∙ act-deny s x p db accepted)
        ((deny id i done.request, done.denied, refl))
