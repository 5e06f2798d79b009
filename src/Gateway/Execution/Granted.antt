-- ===== src/Gateway/Execution/Granted.antt =====
-- When `HandleExecuteToolCall` runs a connector.
use open_clause.Base.{
  ℕ, ◌≡◌, refl, ◌⊎◌, inl, inr, Bool-cases, Option-cases, Result-cases, Bool, true, false, none,
  some, List, ◌∷◌, ◌++◌, Text, arith, Result, ok,
}
use open_clause.Types.ToolCall.{ToolCallRequest}
use open_clause.Types.Policy.{Decision, allow, deny, approve, other, ToolCallEnvelope}
use open_clause.Approvals.Model.{ApprovalGrant}
use open_clause.Gateway.Model.{
  Services, World, ExecResponse, Reading, Call, executed, fetched, looked_up, consumed,
}
use open_clause.Gateway.Calls.{find_and_consume_grant}
use open_clause.Gateway.ToolCalls.{exec_request}
use open_clause.Gateway.ToolCalls.Guarded.{executions}
use open_clause.Gateway.Execution.{
  execute_poll_count, is_foreign, needs_approval, wanted, execute_or_poll, resume,
  handle_execute_tool_call,
}
use open_clause.Gateway.Execution.Outcomes.{
  after, replay_execution-cases, poll_idle, execute-cases, find_event-cases,
}

-- The calls after `before` of a request that ran a connector: the parent was found, needs an
-- approval and had no execution yet, and a grant was consumed for it.
pub record IsResumed (rd : Reading) (parent_id : Text) (before after : List Call) : Type 0 where
  pub parent : ToolCallEnvelope
  pub grant : ApprovalGrant
  pub answer : Result Text ExecResponse
  pub later : List Call
  pub approved : parent.decision ≡ approve
  pub own : is_foreign rd.auth_tenant parent ≡ false
  pub once : executions later ≡ 0
  pub calls :
      after
      ≡ later
        ++ (executed (exec_request rd.id parent.request) answer
            ∷ consumed (wanted parent.request) (ok (some grant))
            ∷ looked_up parent_id (ok none)
            ∷ fetched parent_id (ok (some parent))
            ∷ before)

needs_approval-approve : (d : Decision) → needs_approval d ≡ true → d ≡ approve
unfolding needs_approval
needs_approval-approve approve h = refl
needs_approval-approve allow h = absurd (ground arith)
needs_approval-approve deny h = absurd (ground arith)
needs_approval-approve (other s) h = absurd (ground arith)

IsRun : Reading → Text → ToolCallRequest → List Call → List Call → Type 0
IsRun rd id r before calls =
    (grant : ApprovalGrant) × (answer : Result Text ExecResponse) × (later : List Call)
    × (executions later ≡ 0)
    × (calls
        ≡ later
          ++ (executed (exec_request rd.id r) answer
              ∷ consumed (wanted r) (ok (some grant))
              ∷ looked_up id (ok none)
              ∷ before))

module _ {S : Services} where
  resume-IsRun :
      (id : Text) (rd : Reading) (cancelled : ℕ → Bool) (parent : ToolCallEnvelope) (w : World S)
      → (executions (after (resume id rd cancelled parent) w) ≡ executions w.calls)
        ⊎ ((parent.decision ≡ approve)
            × IsRun rd id parent.request w.calls (after (resume id rd cancelled parent) w))
  unfolding resume find_and_consume_grant execute_or_poll IsRun
  resume-IsRun id rd cancelled parent w =
      let (found, st) = S.get_execution_by_parent_event id w.state in
      let w' : World S = record { state = st; calls = looked_up id found ∷ w.calls } in
      let (answer, st') = S.find_and_consume_grant (wanted parent.request) st in
      let w'' : World S = record {
        state = st';
        calls = consumed (wanted parent.request) answer ∷ looked_up id found ∷ w.calls;
      } in
      elim (Bool-cases (needs_approval parent.decision)) [
        | inr h ↦ inl (ground arith)
        | inl h ↦ elim (replay_execution-cases id w) [
          | inr (_, e) ↦ inl (ground arith)
          | inl (k, e) ↦ elim (Result-cases answer) [
            | inr (_, l) ↦ inl (ground arith)
            | inl (o, l) ↦ elim (Option-cases o) [
              | inl m ↦ inl (ground (arith, poll_idle id cancelled execute_poll_count w''))
              | inr (grant, m) ↦ elim (execute-cases id rd parent.request grant w'') [
                | inl same ↦ inl (ground arith)
                | inr (a, later, q, idle) ↦ inr (
                  needs_approval-approve parent.decision h,
                  (grant, a, later, idle, ground arith),
                )
              ]
            ]
          ]
        ]
      ]

  -- `HandleExecuteToolCall` runs no connector, or runs it once, after these calls: the parent event
  -- was fetched, is none of another tenant's than the key's and was answered `approve`; no execution
  -- was linked to it yet; and a grant was consumed for its tenant, agent, tool, action and resource.
  pub handle_execute_tool_call-IsResumed :
      (is_uuid : Text → Bool) (cancelled : ℕ → Bool) (rd : Reading) (id : Text) (w : World S)
      → let (_, w') = handle_execute_tool_call is_uuid cancelled rd id w in
        (executions w'.calls ≡ executions w.calls) ⊎ IsResumed rd id w.calls w'.calls
  unfolding handle_execute_tool_call IsRun
  handle_execute_tool_call-IsResumed is_uuid cancelled rd id w =
      let (found, st) = S.get_event id w.state in
      let w' : World S = record { state = st; calls = fetched id found ∷ w.calls } in
      elim (Bool-cases (is_uuid id)) [
        | inr h ↦ inl (ground arith)
        | inl h ↦ elim (find_event-cases rd.auth_tenant id w) [
          | inr (e, k) ↦ inl (ground arith)
          | inl (env, k, own, l) ↦ elim (resume-IsRun id rd cancelled env w') [
            | inl same ↦ inl (ground arith)
            | inr (approved, (grant, a, later, idle, e)) ↦ inr (record {
              parent = env;
              grant = grant;
              answer = a;
              later = later;
              approved = approved;
              own = own;
              once = idle;
              calls = ground arith;
            })
          ]
        ]
      ]
