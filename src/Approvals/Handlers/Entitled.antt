-- ===== src/Approvals/Handlers/Entitled.antt =====
-- Who decides on a request through the handlers.
use open_clause.Base.{
  ◌+◌, ◌≤◌, ◌≡◌, inl, inr, Bool-cases, Result-cases, Option-cases, true, false, Option, none, some,
  [], ◌∷◌, ◌++◌, Text, text, ok, arith, is_empty, Unicode, Faults,
}
use open_clause.Base.Int.{ℤ, pos_part, neg_part, parse_int}
use open_clause.Types.ToolCall.{Time}
use open_clause.Approvals.Model
use open_clause.Approvals.Model.{Status}
use open_clause.Approvals.Store.Requests.{find_request, nanoseconds, get_request}
use open_clause.Approvals.Store.Outcomes.{IsGranted}
use open_clause.Approvals.Store.Decisions.{IsDenied}
use open_clause.Approvals.Authorizer.{allow}
use open_clause.Approvals.Handlers.{
  Authorizer, Surroundings, read_request, refuses_email, admit_approver,
}
use open_clause.Approvals.Handlers.Slack.{
  Decoders, SlackRequest, Interaction, ActionValue, unix_epoch, expected_signature,
  verify_slack_request, is_too_old, is_too_new, read_interaction, admit_slack, refuses_slack,
  slack_approver,
}
use open_clause.Approvals.Handlers.Calls.{Handlers, Call, approves, denies, interacts}

-- An email address is on the tenant's list, if there are lists.
abbrev pub MayApprove : Unicode → Option Authorizer → Text → Text → Type 0
MayApprove u none tenant approver = Unit
MayApprove u (some a) tenant approver = allow u a.email tenant approver ≡ true

abbrev pub MayInteract : Unicode → Option Authorizer → Text → Text → Type 0
MayInteract u none tenant user = Unit
MayInteract u (some a) tenant user = allow u a.slack tenant user ≡ true

-- The request has the signature of the signing secret, which is not empty, on its body and on a
-- timestamp, in seconds since 1970, that is at most five minutes away.
pub record IsSigned (hmac : Text → Text → Text) (secret : Text) (q : SlackRequest) (body : Text)
    (now : Time) : Type 0 where
  pub body_of : q.body ≡ some body
  pub secret_set : is_empty secret ≡ false
  pub seconds : ℤ
  pub timestamp : parse_int q.timestamp ≡ some seconds
  pub recent :
      now + nanoseconds (neg_part seconds)
      ≤ nanoseconds (pos_part seconds + unix_epoch) + nanoseconds 300
  pub begun :
      nanoseconds (pos_part seconds + unix_epoch)
      ≤ now + nanoseconds 300 + nanoseconds (neg_part seconds)
  pub signature : q.signature ≡ expected_signature hmac secret q.timestamp body

verify_slack_request-IsSigned :
    (hmac : Text → Text → Text) (secret : Text) (q : SlackRequest) (body : Text) (now : Time)
    → q.body ≡ some body
    → verify_slack_request hmac body q.signature q.timestamp secret now ≡ true
    → IsSigned hmac secret q body now
unfolding verify_slack_request is_too_old is_too_new
verify_slack_request-IsSigned hmac secret q body now b h =
    elim (Option-cases (parse_int q.timestamp)) [
      | inl e ↦ absurd (ground arith)
      | inr (ts, e) ↦ record {
        body_of = b;
        secret_set = ground arith;
        seconds = ts;
        timestamp = e;
        recent = ground arith;
        begun = ground arith;
        signature = ground arith;
      }
    ]

-- The caller of a handler that decides on the request of an id is entitled to, in the name of the
-- approver and for the tenant.
abbrev pub IsEntitled : Handlers → Call → Surroundings → Text → Text → Text → Type 0
IsEntitled h (approves j body) s id tenant approver =
    (j ≡ id) × MayApprove h.unicode h.authorizer tenant approver
IsEntitled h (denies j body) s id tenant approver =
    (j ≡ id) × MayApprove h.unicode h.authorizer tenant approver
IsEntitled h (interacts q) s id tenant approver =
    (x : Interaction) × (v : ActionValue) × (body : Text) × IsSigned h.hmac h.slack_signing_secret q
      body s.received_at
    × (read_interaction h.hmac h.decoders h.slack_signing_secret s.received_at q ≡ ok (x, v))
    × (v.approval_request_id ≡ id)
    × (approver ≡ slack_approver x)
    × MayInteract h.unicode h.authorizer tenant x.user_id
IsEntitled h _ s id tenant approver = ⊥

-- What a call may do to the tables.
module _ (h : Handlers) (c : Call) (s : Surroundings) (db db' : Model.Db) where
  abbrev pub Created : Type 0
  Created =
      (r : Model.ApprovalRequest) × (r.status ≡ Status.pending)
      × (db'.requests ≡ db.requests ++ (r ∷ []))
      × (db'.grants ≡ db.grants)

  abbrev pub Approved : Type 0
  Approved =
      (id : Text) × (i : Model.GrantInput) × (g : Model.ApprovalGrant) × IsGranted s.now id i db db'
        g
      × IsEntitled h c s id g.tenant_id g.approver

  abbrev pub Denied : Type 0
  Denied =
      (id : Text) × (i : Model.DenyInput) × (d : IsDenied id i db db') × IsEntitled h c s id
        d.request.tenant_id i.approver

pub read_request-found :
    (msg : Text) (f : Faults) (id : Text) (seen : Model.Db) {r : Model.ApprovalRequest}
    → read_request msg f id seen ≡ ok r
    → find_request id seen.requests ≡ some r
unfolding read_request get_request
read_request-found msg f id seen e = ground arith

MayApprove-of_refuses_email :
    (u : Unicode) (a : Option Authorizer) (tenant approver : Text)
    → refuses_email u a tenant approver ≡ false
    → MayApprove u a tenant approver
MayApprove-of_refuses_email u none tenant approver h = tt
MayApprove-of_refuses_email u (some a) tenant approver h = ground arith

MayInteract-of_refuses_slack :
    (u : Unicode) (a : Option Authorizer) (tenant user : Text)
    → refuses_slack u a tenant user ≡ false
    → MayInteract u a tenant user
MayInteract-of_refuses_slack u none tenant user h = tt
MayInteract-of_refuses_slack u (some a) tenant user h = ground arith

pub admit_approver-ok :
    {A : Type 0} (u : Unicode) (a : Option Authorizer) (approver : A → Text) (msg : Text)
    (f : Faults) (id : Text) (body : Option A) (seen : Model.Db) {i : A}
    → admit_approver u a approver msg f id body seen ≡ ok i
    → (r : Model.ApprovalRequest) × (find_request id seen.requests ≡ some r)
      × MayApprove u a r.tenant_id (approver i)
unfolding admit_approver
admit_approver-ok u a approver msg f id body seen {i} h =
    elim (Result-cases (read_request msg f id seen)) [
      | inr (e, p) ↦ absurd (ground arith)
      | inl (r, p) ↦ (
        r,
        read_request-found msg f id seen p,
        MayApprove-of_refuses_email u a r.tenant_id (approver i) (ground arith),
      )
    ]

read_interaction-IsSigned :
    (hmac : Text → Text → Text) (d : Decoders) (secret : Text) (now : Time) (q : SlackRequest)
    {y : Interaction × ActionValue}
    → read_interaction hmac d secret now q ≡ ok y
    → (body : Text) × IsSigned hmac secret q body now
unfolding read_interaction
read_interaction-IsSigned hmac d secret now q e = elim (Option-cases q.body) [
  | inl p ↦ absurd (ground arith)
  | inr (body, p) ↦
      elim (Bool-cases (verify_slack_request hmac body q.signature q.timestamp secret now)) [
        | inl r ↦ (body, verify_slack_request-IsSigned hmac secret q body now p r)
        | inr r ↦ absurd (ground arith)
      ]
]

pub admit_slack-ok :
    (h : Handlers) (s : Surroundings) (q : SlackRequest) (seen : Model.Db) {x : Interaction}
    {v : ActionValue}
    → admit_slack h.hmac h.decoders h.slack_signing_secret h.unicode h.authorizer s q seen
      ≡ ok (x, v)
    → (r : Model.ApprovalRequest) × (find_request v.approval_request_id seen.requests ≡ some r)
      × IsEntitled h (interacts q) s v.approval_request_id r.tenant_id (slack_approver x)
unfolding admit_slack
admit_slack-ok h s q seen {x} {v} e =
    let msg = text "failed to process interaction" in
    elim (Result-cases
      (read_interaction h.hmac h.decoders h.slack_signing_secret s.received_at q)) [
        | inr (_, p) ↦ absurd (ground arith)
        | inl ((x', v'), p) ↦
            let (body, signed) =
              read_interaction-IsSigned h.hmac h.decoders h.slack_signing_secret s.received_at q
                p in
            elim (Result-cases (read_request msg s.read v'.approval_request_id seen)) [
              | inr (_, p') ↦ absurd (ground arith)
              | inl (r, p') ↦
                  let found = read_request-found msg s.read v'.approval_request_id seen p' in
                  let may =
                    MayInteract-of_refuses_slack h.unicode h.authorizer r.tenant_id x'.user_id
                      (ground arith) in
                  let same : (x' ≡ x) × (v' ≡ v) = (ground arith, ground arith) in
                  (r, ground arith, (x', v', body, signed, p, ground arith, ground arith, may))
            ]
      ]
