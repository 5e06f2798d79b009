-- ===== src/Policy.antt =====
-- `Evaluate` of `pkg/policy/client.go`. What the call of OPA gives is an argument.
pub mod Valid
use open_clause.Base.{
  ℕ, Bool, true, false, Option, none, some, List, [], Text, text, ◌++◌, eqb, if◌then◌else◌, Result,
  ok, err, call, wrap, ◌>>=◌, ◌>>◌,
}
use open_clause.Types.Policy.{
  Decision, allow, deny, approve, other, decision, PolicyNotify, PolicyResult,
}

-- The `result` of OPA's response.
pub record OpaResult : Type 0 where
  pub decision : Text
  pub reason : Text
  pub requirements : List (Text × Text)
  pub notify : List PolicyNotify
  pub approver_group : Text

-- An HTTP response: its status, its body, and the body decoded.
pub record OpaAnswer : Type 0 where
  pub status_code : ℕ
  pub body : Text
  pub decoded : Result Text OpaResult

-- The errors of `json.Marshal` and of `http.NewRequestWithContext`, what `Do` gives, and a status in
-- decimal.
pub record Exchange : Type 0 where
  pub marshal : Option Text
  pub new_request : Option Text
  pub sent : Result Text OpaAnswer
  pub decimal : ℕ → Text

unfoldable pub is_valid_decision : Decision → Bool
is_valid_decision allow = true
is_valid_decision deny = true
is_valid_decision approve = true
is_valid_decision (other s) = false

-- An unknown decision is a denial.
unfoldable pub closed : Decision → Decision
closed d = if is_valid_decision d then d else deny

unfoldable pub policy_result : OpaResult → PolicyResult
policy_result r = record {
  decision = closed (decision r.decision);
  reason = r.reason;
  requirements = r.requirements;
  risk_overrides = [];
  notify = r.notify;
  approver_group = r.approver_group;
}

unfoldable pub read_answer : Exchange → OpaAnswer → Result Text PolicyResult
read_answer x a =
    if eqb a.status_code 200
    then (elim (wrap (text "policy decode response: ") a.decoded) [
      | err e ↦ err e
      | ok r ↦ ok (policy_result r)
    ])
    else err (text "policy OPA returned " ++ (x.decimal a.status_code ++ (text ": " ++ a.body)))

unfoldable pub evaluate : Exchange → Result Text PolicyResult
evaluate x = do
  call x.marshal (text "policy marshal: ")
  call x.new_request (text "policy new request: ")
  a ← wrap (text "policy request: ") x.sent
  read_answer x a
