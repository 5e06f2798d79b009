-- ===== src/Approvals/Handlers/Decides.antt =====
-- What the handlers decide, and for whom.
use mathlib.Core.Path.{subst}
use open_clause.Base.{
  ◌≡◌, ◌∙◌, ◌⊎◌, inl, inr, refl, Bool-cases, Result-cases, Bool, true, ◌||◌, ◌==◌, Option, some,
  Text, text, text_dec, arith,
}
use open_clause.Evidence.Store.Tables.{Db as EvidenceDb}
use open_clause.Approvals.Model
use open_clause.Approvals.Model.{Status}
use open_clause.Approvals.Store.Requests.{find_request, deny_request, create_request, new_request}
use open_clause.Approvals.Store.Grants.{grant_request}
use open_clause.Approvals.Store.Outcomes.{create_request-cases}
use open_clause.Approvals.Store.Lifecycle.{Reach, IsSound, Reach-IsSound}
use open_clause.Approvals.Store.Decisions.{
  Reach-IsSameCall, grant_request-err, grant_request-ok, deny_request-err, deny_request-ok,
}
use open_clause.Approvals.Handlers.{
  Surroundings, admit_create, admit_approver, handle_create, handle_approve, handle_deny,
}
use open_clause.Approvals.Handlers.Slack.{
  SlackRequest, admit_slack, handle_slack, act, grant_input, deny_input,
}
use open_clause.Approvals.Handlers.Calls.{
  Handlers, Call, creates, gets, approves, denies, lists, interacts, views, serve, is_slack, route,
}
use open_clause.Approvals.Handlers.Entitled.{
  IsEntitled, Created, Approved, Denied, admit_approver-ok, admit_slack-ok,
}

module _ (path_match : Text → Text → Option Bool) (h : Handlers) (c : Call) (s : Surroundings)
    (j : Text) {r : Model.ApprovalRequest} {seen db : Model.Db} (v : IsSound seen)
    (reach : Reach path_match seen db) (e : find_request j seen.requests ≡ some r) where
  -- A grant is for the tenant that was read, whatever ran since.
  grant-Approved :
      (i : Model.GrantInput)
      → IsEntitled h c s j r.tenant_id i.approver
      → let db' = (grant_request s.write (s.ids 0) s.now j i db).1 in
        (db' ≡ db) ⊎ Approved h c s db db'
  grant-Approved i entitled =
      let d = (Reach-IsSound path_match v reach).distinct in
      let now_there = Reach-IsSameCall path_match j r v e reach in
      elim (Result-cases ((grant_request s.write (s.ids 0) s.now j i db).0)) [
        | inr (_, p) ↦ inl (grant_request-err s.write (s.ids 0) s.now j i db p)
        | inl (g, p) ↦
            let a = grant_request-ok s.write (s.ids 0) s.now j i db d p in
            let tenant : r.tenant_id ≡ g.tenant_id =
              ground (arith, a.scope, a.found, now_there.found, now_there.tenant_id) in
            let approver : i.approver ≡ g.approver = ground (arith, a.scope) in
            inr (
              j,
              i,
              g,
              a,
              subst (λ t. IsEntitled h c s j t g.approver) tenant
                  (subst (λ t. IsEntitled h c s j r.tenant_id t) approver entitled),
            )
      ]

  deny-Denied :
      (i : Model.DenyInput)
      → IsEntitled h c s j r.tenant_id i.approver
      → let db' = (deny_request s.write j i db).1 in (db' ≡ db) ⊎ Denied h c s db db'
  deny-Denied i entitled =
      let d = (Reach-IsSound path_match v reach).distinct in
      let now_there = Reach-IsSameCall path_match j r v e reach in
      elim (Result-cases ((deny_request s.write j i db).0)) [
        | inr (_, p) ↦ inl (deny_request-err s.write j i db p)
        | inl (_, p) ↦
            let a = deny_request-ok s.write j i db d p in
            let tenant : r.tenant_id ≡ a.request.tenant_id =
              ground (arith, a.found, now_there.found, now_there.tenant_id) in
            inr (j, i, a, subst (λ t. IsEntitled h c s j t i.approver) tenant entitled)
      ]

module _ (path_match : Text → Text → Option Bool) (h : Handlers) (s : Surroundings)
    {seen db : Model.Db} (v : IsSound seen) (reach : Reach path_match seen db) where
  abbrev Decides : Call → Type 0
  Decides c =
      let db' = (serve h c s seen db).1 in
      (db' ≡ db) ⊎ Created h c s db db' ⊎ Approved h c s db db' ⊎ Denied h c s db db'

  approved :
      (c : Call) (db' : Model.Db)
      → (db' ≡ db) ⊎ Approved h c s db db'
      → (serve h c s seen db).1 ≡ db'
      → Decides c
  approved c db' (inl same) p = inl (p ∙ same)
  approved c db' (inr a) p = inr (inr (inl (rw p a)))

  denied_by :
      (c : Call) (db' : Model.Db)
      → (db' ≡ db) ⊎ Denied h c s db db'
      → (serve h c s seen db).1 ≡ db'
      → Decides c
  denied_by c db' (inl same) p = inl (p ∙ same)
  denied_by c db' (inr a) p = inr (inr (inr (rw p a)))

  approves-Decides : (j : Text) (body : Option Model.GrantInput) → Decides (approves j body)
  unfolding serve handle_approve
  approves-Decides j body =
      let msg = text "failed to approve request" in
      elim (Result-cases (
        admit_approver h.unicode h.authorizer (λ (i : Model.GrantInput). i.approver) msg s.read j
          body seen)) [
            | inr (_, p) ↦ inl (ground arith)
            | inl (i, p) ↦
                let (r, found, may) =
                  admit_approver-ok h.unicode h.authorizer (λ (i : Model.GrantInput). i.approver)
                    msg s.read j body seen p in
                approved (approves j body) _
                  (grant-Approved path_match h (approves j body) s j v reach found i (refl, may))
                  (ground arith)
          ]

  denies-Decides : (j : Text) (body : Option Model.DenyInput) → Decides (denies j body)
  unfolding serve handle_deny
  denies-Decides j body =
      let msg = text "failed to deny request" in
      elim (Result-cases (
        admit_approver h.unicode h.authorizer (λ (i : Model.DenyInput). i.approver) msg s.read j
          body seen)) [
            | inr (_, p) ↦ inl (ground arith)
            | inl (i, p) ↦
                let (r, found, may) =
                  admit_approver-ok h.unicode h.authorizer (λ (i : Model.DenyInput). i.approver) msg
                    s.read j body seen p in
                denied_by (denies j body) _
                  (deny-Denied path_match h (denies j body) s j v reach found i (refl, may))
                  (ground arith)
          ]

  interacts-Decides : (q : SlackRequest) → Decides (interacts q)
  unfolding serve handle_slack act
  interacts-Decides q =
      elim (Result-cases
        (admit_slack h.hmac h.decoders h.slack_signing_secret h.unicode h.authorizer s q seen)) [
          | inr (_, p) ↦ inl (ground arith)
          | inl ((x, w), p) ↦
              let (r, found, entitled) = admit_slack-ok h s q seen p in
              elim (text_dec w.decision (text "approve")) [
                | yes e ↦
                    approved (interacts q) _
                      (grant-Approved path_match h (interacts q) s w.approval_request_id v reach
                        found (grant_input x) entitled)
                      (ground arith)
                | no n ↦ elim (text_dec w.decision (text "deny")) [
                  | yes e ↦
                      denied_by (interacts q) _
                        (deny-Denied path_match h (interacts q) s w.approval_request_id v reach
                          found (deny_input x) entitled)
                        (ground arith)
                  | no m ↦ inl (ground arith)
                ]
              ]
        ]

  creates-Decides :
      (ev : EvidenceDb) (body : Option Model.CreateApprovalInput) → Decides (creates ev body)
  unfolding serve handle_create
  creates-Decides ev body = elim (Result-cases (admit_create body)) [
    | inr (_, p) ↦ inl (ground arith)
    | inl (i, p) ↦
        let e : (serve h (creates ev body) s seen db).1
            ≡ (create_request ev s.write s.ids s.now i db).1 =
          ground arith in
        elim (create_request-cases ev s.write s.ids s.now i db) [
          | inl same ↦ inl (e ∙ same)
          | inr (_, added, same) ↦
              inr (inl (new_request (s.ids 0) s.now i, refl, rw e added, rw e same))
        ]
  ]

  serve-Decides : (c : Call) → Decides c
  unfolding serve
  serve-Decides (creates ev body) = creates-Decides ev body
  serve-Decides (gets id) = inl refl
  serve-Decides (approves j body) = approves-Decides j body
  serve-Decides (denies j body) = denies-Decides j body
  serve-Decides (lists q) = inl refl
  serve-Decides (interacts q) = interacts-Decides q
  serve-Decides (views tenant) = inl refl

  -- A call of the service that reads the tables in a sound state, and changes the tables after any
  -- other operations have run, either leaves them as they are, or adds one pending request, or
  -- approves or denies one pending request, for an approver who is entitled to it: through the
  -- approve and deny routes, one whose email is on the list of that request's tenant; through Slack,
  -- a user on the list of that request's tenant, in an interaction for that request that is signed
  -- with the secret and not older or newer than five minutes. Without an authorizer, any approver is
  -- entitled. Every change but through Slack has the internal token.
  pub route-Decides :
      (token provided : Text) (c : Call)
      → let db' = (route token h provided c s seen db).1 in
        (db' ≡ db)
        ⊎ (((is_slack c ≡ true) ⊎ (provided ≡ token))
            × (Created h c s db db' ⊎ Approved h c s db db' ⊎ Denied h c s db db'))
  unfolding route
  route-Decides token provided c = elim (Bool-cases (is_slack c || provided == token)) [
    | inr refused ↦ inl (ground arith)
    | inl admitted ↦ elim (serve-Decides c) [
      | inl same ↦ inl (rw admitted same)
      | inr decided ↦ inr (ground arith, rw admitted decided)
    ]
  ]
