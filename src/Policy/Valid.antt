-- ===== src/Policy/Valid.antt =====
-- The client of the policy fails closed.
use open_clause.Base.{
  ◌≡◌, inl, inr, refl, sym, ap, ◌∙◌, true, Text, text, text_dec, eqb, ok, arith, Option-cases,
  Result-cases, Bool-cases,
}
use open_clause.Types.Policy.{Decision, allow, deny, approve, other, decision, PolicyResult}
use open_clause.Policy.{
  Exchange, OpaAnswer, OpaResult, is_valid_decision, closed, policy_result, read_answer, evaluate,
}

closed-IsValid : (d : Decision) → is_valid_decision (closed d) ≡ true
unfolding closed is_valid_decision
closed-IsValid allow = refl
closed-IsValid deny = refl
closed-IsValid approve = refl
closed-IsValid (other s) = refl

closed-allow : (s : Text) → closed (decision s) ≡ allow → s ≡ text "allow"
unfolding closed is_valid_decision decision
closed-allow s h = elim (text_dec s (text "allow")) [ yes p ↦ p | no p ↦ absurd (ground arith) ]

-- What an evaluation that gives a result read.
read-answer :
    (x : Exchange) {p : PolicyResult}
    → evaluate x ≡ ok p
    → (a : OpaAnswer) × (r : OpaResult) × (x.sent ≡ ok a)
      × (a.status_code ≡ 200)
      × (a.decoded ≡ ok r)
      × (p ≡ policy_result r)
unfolding evaluate read_answer
read-answer x {p} h = elim (Option-cases x.marshal) [
  | inr (_, k) ↦ absurd (ground arith)
  | inl k ↦ elim (Option-cases x.new_request) [
    | inr (_, l) ↦ absurd (ground arith)
    | inl l ↦ elim (Result-cases x.sent) [
      | inr (_, m) ↦ absurd (ground arith)
      | inl (a, m) ↦ elim (Bool-cases (eqb a.status_code 200)) [
        | inr n ↦ absurd (ground arith)
        | inl n ↦ elim (Result-cases a.decoded) [
          | inr (_, o) ↦ absurd (ground arith)
          | inl (r, o) ↦ (a, r, m, ground arith, o, ground arith)
        ]
      ]
    ]
  ]
]

-- A policy evaluation that gives a result gives one of the three decisions, and `allow` only if
-- OPA answered status 200 with a body whose decision is `allow`.
pub evaluate-closed :
    (x : Exchange) {p : PolicyResult}
    → evaluate x ≡ ok p
    → (is_valid_decision p.decision ≡ true)
      × (p.decision ≡ allow
          → (a : OpaAnswer) × (r : OpaResult) × (x.sent ≡ ok a)
            × (a.status_code ≡ 200)
            × (a.decoded ≡ ok r)
            × (r.decision ≡ text "allow"))
unfolding policy_result
evaluate-closed x {p} h =
    let (a, r, sent, status, decoded, e) = read-answer x h in
    let same : p.decision ≡ closed (decision r.decision) = ap (λ q. q.decision) e in
    (
      ap is_valid_decision same ∙ closed-IsValid (decision r.decision),
      λ d. (a, r, sent, status, decoded, closed-allow r.decision (sym same ∙ d)),
    )
