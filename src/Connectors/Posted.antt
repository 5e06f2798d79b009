-- ===== src/Connectors/Posted.antt =====
-- When the Slack connector reports that an approval message was posted.
use open_clause.Base.{
  ◌≡◌, ◌≢◌, ◌↔◌, ◌⊎◌, inl, inr, refl, sym, ◌∙◌, Bool-cases, true, false, ◌||◌, [], Text, text, eqb,
  is_empty, arith,
}
use open_clause.Http.{HttpRequest, Answer, not_made, not_sent, broken, answered, run, sent}
use open_clause.Connectors.Outcome.{success, read_answer, as_it_came}
use open_clause.Connectors.Slack.{
  ApprovalMessageParams, Decoders, SlackConnector, is_ok, approval_post, approval_plan,
}

-- The message has what it needs.
abbrev pub IsWhole : ApprovalMessageParams → Type 0
IsWhole p = (p.channel ≢ []) × (p.approval_request_id ≢ []) × (p.event_id ≢ []) × (p.tenant_id ≢ [])

module _ (d : Decoders) (c : SlackConnector) (slack : HttpRequest → Answer) where
  -- Slack was asked to post the message, and answered the status code 200; or the connector is a
  -- mock, which asks nobody.
  abbrev pub IsPosted : ApprovalMessageParams → Type 0
  IsPosted p = (c.mock ≡ true) ⊎ ((body : Text) × (slack (approval_post d c p) ≡ answered 200 body))

  error_is_no_success : text "error" ≢ text "success"
  unfolding text
  error_is_no_success h = ground arith

  -- What the connector makes of Slack's answer.
  answer-success :
      (a : Answer)
      → ((read_answer is_ok (λ body. success (as_it_came d.value_of body)) a).status
          ≡ text "success")
        ↔ ((body : Text) × (a ≡ answered 200 body))
  unfolding read_answer
  answer-success (not_made e) = (λ h. absurd (error_is_no_success h), λ h. absurd (ground arith))
  answer-success (not_sent e) = (λ h. absurd (error_is_no_success h), λ h. absurd (ground arith))
  answer-success (broken code e) = (λ h. absurd (error_is_no_success h), λ h. absurd (ground arith))
  answer-success (answered code body) = elim (Bool-cases (eqb code 200)) [
    | inl e ↦ (λ h. (body, ground arith), λ h. rw e refl)
    | inr e ↦
        let out = read_answer is_ok (λ b. success (as_it_came d.value_of b)) (answered code body) in
        let refused : out.status ≡ text "error" = rw e refl in
        (λ h. absurd (error_is_no_success (sym refused ∙ h)), λ h. absurd (ground arith))
  ]

  -- A message that lacks something is refused.
  IsWhole-of_test :
      (p : ApprovalMessageParams)
      → (is_empty p.channel
          || is_empty p.approval_request_id
          || is_empty p.event_id
          || is_empty p.tenant_id)
        ≡ false
      → IsWhole p
  IsWhole-of_test p h = (λ e. ground arith, λ e. ground arith, λ e. ground arith, λ e. ground arith)

  test-of_IsWhole :
      (p : ApprovalMessageParams)
      → IsWhole p
      → (is_empty p.channel
          || is_empty p.approval_request_id
          || is_empty p.event_id
          || is_empty p.tenant_id)
        ≡ false
  test-of_IsWhole p h = ground arith

  -- The connector reports success exactly if the message is whole and was posted.
  pub approval_plan-success :
      (p : ApprovalMessageParams)
      → ((run slack (approval_plan d c p)).status ≡ text "success") ↔ (IsWhole p × IsPosted p)
  unfolding approval_plan run
  approval_plan-success p =
      let lacking =
        is_empty p.channel
        || is_empty p.approval_request_id
        || is_empty p.event_id
        || is_empty p.tenant_id in
      elim (Bool-cases lacking) [
        | inl e ↦
            let refused : (run slack (approval_plan d c p)).status ≡ text "error" = rw e refl in
            (
              λ h. absurd (error_is_no_success (sym refused ∙ h)),
              λ h. absurd (ground (arith, test-of_IsWhole p h.0)),
            )
        | inr e ↦ elim (Bool-cases c.mock) [
          | inl m ↦ (λ h. (IsWhole-of_test p e, inl m), λ h. rw (e, m) refl)
          | inr m ↦
              let answer = slack (approval_post d c p) in
              let posted = answer-success answer in
              let outcome : (run slack (approval_plan d c p)).status
                  ≡ (read_answer is_ok (λ body. success (as_it_came d.value_of body))
                      answer).status =
                rw (e, m) refl in
              (
                λ h. (IsWhole-of_test p e, inr (posted.0 (sym outcome ∙ h))),
                λ h. elim h.1 [
                  | inl mock ↦ absurd (ground arith)
                  | inr sent ↦ outcome ∙ posted.1 sent
                ],
              )
        ]
      ]
