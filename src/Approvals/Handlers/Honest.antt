-- ===== src/Approvals/Handlers/Honest.antt =====
-- The responses of the handlers are true of the tables.
use mathlib.Core.Path.{subst}
use open_clause.Base.{
  ◌≡◌, sym, ap, ◌∙◌, inl, inr, refl, Result-cases, ◌++◌, Option, Text, text, Bool-cases, ◌||◌, ◌==◌,
  is_empty, text_dec, arith,
}
use open_clause.Base.Int.{pos}
use open_clause.Types.Errors.{internal, bad_request}
use open_clause.Evidence.Store.Tables.{Db as EvidenceDb}
use open_clause.Approvals.Model
use open_clause.Approvals.Model.{Status}
use open_clause.Approvals.Store.Requests.{find_request, deny_request, create_request}
use open_clause.Approvals.Store.Pending.{list_pending}
use open_clause.Approvals.Store.Grants.{grant_request}
use open_clause.Approvals.Store.Rows.{Distinct, id-find_request}
use open_clause.Approvals.Store.Decisions.{
  create_request-ok, create_request-err, grant_request-err, grant_request-ok, deny_request-err,
  deny_request-ok,
}
use open_clause.Approvals.Handlers.{
  Response, Query, answer, failed, created, shown, granted, denied, listed, acted, plain, page,
  Surroundings, read_request, admit_create, admit_approver, handle_create, handle_get,
  handle_approve, handle_deny, handle_list, list_response,
}
use open_clause.Approvals.Handlers.Entitled.{read_request-found}
use open_clause.Approvals.Handlers.Slack.{
  SlackRequest, shown_name, admit_slack, handle_slack, act, grant_input, deny_input,
}
use open_clause.Approvals.Handlers.Calls.{
  Handlers, Call, creates, gets, approves, denies, lists, interacts, views, serve, view_pending,
  is_slack, route,
}
use open_clause.Approvals.Handlers.Responses.{IsGrantOf, IsDenialIn, IsHonest, grant_of, denial_in}

module _ (h : Handlers) (s : Surroundings) (seen db : Model.Db) (d : Distinct db.requests) where
  abbrev Answers : Call → Type 0
  Answers c = IsHonest (serve h c s seen db).0 seen db (serve h c s seen db).1

  honest :
      (c : Call) (out : Response × Model.Db)
      → serve h c s seen db ≡ out
      → IsHonest out.0 seen db out.1
      → Answers c
  honest c out e p = subst (λ (o : Response × Model.Db). IsHonest o.0 seen db o.1) (sym e) p

  creates-Answers :
      (ev : EvidenceDb) (body : Option Model.CreateApprovalInput) → Answers (creates ev body)
  unfolding serve handle_create
  creates-Answers ev body = elim (Result-cases (admit_create body)) [
    | inr (e, p) ↦ honest (creates ev body) (failed e, db) (ground arith) refl
    | inl (i, p) ↦
        let db' = (create_request ev s.write s.ids s.now i db).1 in
        elim (Result-cases ((create_request ev s.write s.ids s.now i db).0)) [
          | inr (e, q) ↦
              honest (creates ev body)
                (failed (internal (text "failed to create approval request")), db') (ground arith)
                (create_request-err ev s.write s.ids s.now i db q)
          | inl (r, q) ↦
              honest (creates ev body) (created r, db') (ground arith)
                (create_request-ok ev s.write s.ids s.now i db q)
        ]
  ]

  gets-Answers : (id : Text) → Answers (gets id)
  unfolding serve handle_get
  gets-Answers id =
      let msg = text "failed to retrieve approval request" in
      elim (Result-cases (read_request msg s.read id seen)) [
        | inr (e, p) ↦ honest (gets id) (failed e, db) (ground arith) refl
        | inl (r, p) ↦
            let found = read_request-found msg s.read id seen p in
            honest (gets id) (shown r, db) (ground arith)
              (
                refl,
                ap (λ k. find_request k seen.requests) (id-find_request id seen.requests found)
                    ∙ found,
              )
      ]

  lists-Answers : (q : Query) → Answers (lists q)
  unfolding serve handle_list
  lists-Answers q = elim (Result-cases (list_response s q seen)) [
    | inr (e, p) ↦ honest (lists q) (failed e, db) (ground arith) refl
    | inl (rows, p) ↦ honest (lists q) (listed rows, db) (ground arith) refl
  ]

  -- An operation that decides, under the response of its handler.
  grants-Answers :
      (c : Call) (j : Text) (i : Model.GrantInput) (respond : Model.ApprovalGrant → Response)
      (msg : Text)
      → serve h c s seen db ≡ answer respond msg (grant_request s.write (s.ids 0) s.now j i db)
      → ((g : Model.ApprovalGrant) (db' : Model.Db)
          → IsGrantOf g db db'
          → IsHonest (respond g) seen db db')
      → Answers c
  grants-Answers c j i respond msg e says =
      let db' = (grant_request s.write (s.ids 0) s.now j i db).1 in
      elim (Result-cases ((grant_request s.write (s.ids 0) s.now j i db).0)) [
        | inr (_, q) ↦
            honest c (failed (internal msg), db') (ground arith)
              (grant_request-err s.write (s.ids 0) s.now j i db q)
        | inl (g, q) ↦
            honest c (respond g, db') (ground arith)
              (says g db' (grant_of (grant_request-ok s.write (s.ids 0) s.now j i db d q)))
      ]

  denies_by-Answers :
      (c : Call) (j : Text) (i : Model.DenyInput) (response : Response) (msg : Text)
      → serve h c s seen db ≡ answer (λ _. response) msg (deny_request s.write j i db)
      → ((db' : Model.Db) → IsDenialIn db db' → IsHonest response seen db db')
      → Answers c
  denies_by-Answers c j i response msg e says =
      let db' = (deny_request s.write j i db).1 in
      elim (Result-cases ((deny_request s.write j i db).0)) [
        | inr (_, q) ↦
            honest c (failed (internal msg), db') (ground arith) (deny_request-err s.write j i db q)
        | inl (_, q) ↦
            honest c (response, db') (ground arith)
              (says db' (denial_in (deny_request-ok s.write j i db d q)))
      ]

  approves-Answers : (j : Text) (body : Option Model.GrantInput) → Answers (approves j body)
  unfolding serve handle_approve
  approves-Answers j body =
      let msg = text "failed to approve request" in
      let admitted =
        admit_approver h.unicode h.authorizer (λ (i : Model.GrantInput). i.approver) msg s.read j
          body seen in
      elim (Result-cases admitted) [
        | inr (e, p) ↦ honest (approves j body) (failed e, db) (ground arith) refl
        | inl (i, p) ↦
            grants-Answers (approves j body) j i granted msg (ground arith) (λ g db' a. a)
      ]

  denies-Answers : (j : Text) (body : Option Model.DenyInput) → Answers (denies j body)
  unfolding serve handle_deny
  denies-Answers j body =
      let msg = text "failed to deny request" in
      let admitted =
        admit_approver h.unicode h.authorizer (λ (i : Model.DenyInput). i.approver) msg s.read j
          body seen in
      elim (Result-cases admitted) [
        | inr (e, p) ↦ honest (denies j body) (failed e, db) (ground arith) refl
        | inl (i, p) ↦ denies_by-Answers (denies j body) j i denied msg (ground arith) (λ db' a. a)
      ]

  interacts-Answers : (q : SlackRequest) → Answers (interacts q)
  unfolding serve handle_slack act
  interacts-Answers q =
      let msg = text "failed to process interaction" in
      let admitted =
        admit_slack h.hmac h.decoders h.slack_signing_secret h.unicode h.authorizer s q seen in
      elim (Result-cases admitted) [
        | inr (e, p) ↦ honest (interacts q) (failed e, db) (ground arith) refl
        | inl ((x, w), p) ↦ elim (text_dec w.decision (text "approve")) [
          | yes e ↦
              grants-Answers (interacts q) w.approval_request_id (grant_input x)
                (λ _. acted (text "Approved by @" ++ shown_name x)) msg (ground arith)
                (λ g db' a. inl (g, a))
          | no n ↦ elim (text_dec w.decision (text "deny")) [
            | yes e ↦
                denies_by-Answers (interacts q) w.approval_request_id (deny_input x)
                  (acted (text "Denied by @" ++ shown_name x)) msg (ground arith) (λ db' a. inr a)
            | no m ↦
                honest (interacts q) (failed (bad_request (text "unknown action")), db)
                  (ground arith) refl
          ]
        ]
      ]

  views-Answers : (tenant : Text) → Answers (views tenant)
  unfolding serve view_pending
  views-Answers tenant = elim (Bool-cases (is_empty tenant)) [
    | inl e ↦ honest (views tenant) (plain 400 (text "tenant_id required"), db) (ground arith) refl
    | inr e ↦ elim (Result-cases (list_pending s.read tenant (pos 100) (pos 0) s.now seen)) [
      | inl (rows, p) ↦ honest (views tenant) (page tenant rows, db) (ground arith) refl
      | inr (_, p) ↦
          honest (views tenant) (plain 500 (text "internal error"), db) (ground arith) refl
    ]
  ]

  serve-IsHonest : (c : Call) → Answers c
  unfolding serve
  serve-IsHonest (creates ev body) = creates-Answers ev body
  serve-IsHonest (gets id) = gets-Answers id
  serve-IsHonest (approves j body) = approves-Answers j body
  serve-IsHonest (denies j body) = denies-Answers j body
  serve-IsHonest (lists q) = lists-Answers q
  serve-IsHonest (interacts q) = interacts-Answers q
  serve-IsHonest (views tenant) = views-Answers tenant

  -- Where the ids of the requests are distinct, an error of the service leaves the tables as they
  -- are, and its other responses are true of them: a created request stands there and is pending,
  -- a shown one was read, an answered grant was added while its request went from pending to
  -- approved, after an answered denial a request went from pending to denied and no grant was
  -- added, a Slack answer is given after one of the two, and a list changes nothing.
  pub route-IsHonest :
      (token provided : Text) (c : Call)
      → IsHonest
          (route token h provided c s seen db).0
          seen
          db
          (route token h provided c s seen db).1
  unfolding route
  route-IsHonest token provided c = elim (Bool-cases (is_slack c || provided == token)) [
    | inl admitted ↦ rw admitted (serve-IsHonest c)
    | inr refused ↦ rw refused refl
  ]
