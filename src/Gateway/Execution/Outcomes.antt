-- ===== src/Gateway/Execution/Outcomes.antt =====
-- The outcomes of the parts of `HandleExecuteToolCall`, and the calls that they make.
use open_clause.Base.{
  ℕ, zero, suc, ◌≡◌, refl, sym, ◌∙◌, ◌⊎◌, inl, inr, Bool-cases, Option-cases, Result-cases, Bool,
  true, false, none, some, List, [], ◌∷◌, ◌++◌, Text, text, arith, Result, ok, err,
}
use mathlib.Core.List.{append_assoc}
use open_clause.Types.Errors.{ApiError, internal, not_found}
use open_clause.Types.ToolCall.{ToolCallRequest}
use open_clause.Types.Policy.{ToolCallEnvelope, ExecutionResult}
use open_clause.Approvals.Model.{ApprovalGrant}
use open_clause.Gateway.Model.{
  Services, World, Handler, Reply, failed, replied, ExecResponse, Reading, Call, executed, recorded,
  fetched, looked_up, linked,
}
use open_clause.Gateway.Calls.{
  exec, record_event, get_event, get_execution, link_execution, marshal,
}
use open_clause.Gateway.ToolCalls.{exec_request, execution_result, execute_connector}
use open_clause.Gateway.ToolCalls.Guarded.{executions, executions-append}
use open_clause.Gateway.Execution.{
  is_foreign, execution_request, execution_envelope, own_event, find_event, replay,
  replay_execution, poll, replay_unlinked, finish, execute,
}

module _ {S : Services} where
  abbrev pub after : {A : Type 0} → Handler S A → World S → List Call
  after h w = (h w).1.calls

  -- What `replay_execution` answers and the one call that it makes.
  pub replay_execution-cases :
      (id : Text) (w : World S)
      → let (answer, st) = S.get_execution_by_parent_event id w.state in
        let w' : World S = record { state = st; calls = looked_up id answer ∷ w.calls } in
        ((answer ≡ ok none) × (replay_execution id w ≡ (ok tt, w')))
        ⊎ ((reply : Reply) × (replay_execution id w ≡ (err reply, w')))
  unfolding replay_execution get_execution replay
  replay_execution-cases id w =
      let (answer, st) = S.get_execution_by_parent_event id w.state in
      elim (Result-cases answer) [
        | inr (e, h) ↦
            inr (failed (internal (text "failed to retrieve prior execution")), ground arith)
        | inl (o, h) ↦ elim (Option-cases o) [
          | inr (prior, k) ↦ inr (replied prior, ground arith)
          | inl k ↦ inl (ground arith, ground arith)
        ]
      ]

  pub poll_idle :
      (id : Text) (cancelled : ℕ → Bool) (n : ℕ) (w : World S)
      → executions (after (poll id cancelled n) w) ≡ executions w.calls
  unfolding poll
  poll_idle id cancelled zero w = refl
  poll_idle id cancelled (suc n) w =
      let (answer, st) = S.get_execution_by_parent_event id w.state in
      let w' : World S = record { state = st; calls = looked_up id answer ∷ w.calls } in
      elim (Bool-cases (cancelled n)) [
        | inl h ↦ ground arith
        | inr h ↦ elim (replay_execution-cases id w) [
          | inl (_, e) ↦ ground (arith, poll_idle id cancelled n w')
          | inr (reply, e) ↦ ground arith
        ]
      ]

  replay_unlinked_idle :
      (id : Text) (b : Bool) (w : World S)
      → (later : List Call) × (after (replay_unlinked id b) w ≡ later ++ w.calls)
        × (executions later ≡ 0)
  unfolding replay_unlinked
  replay_unlinked_idle id true w = ([], refl, refl)
  replay_unlinked_idle id false w =
      let (answer, st) = S.get_execution_by_parent_event id w.state in
      elim (replay_execution-cases id w) [
        | inl (_, e) ↦ (looked_up id answer ∷ [], ground arith, refl)
        | inr (_, e) ↦ (looked_up id answer ∷ [], ground arith, refl)
      ]

  finish_idle :
      (id : Text) (rd : Reading) (result : ExecutionResult) (answer : Result Text Bool)
      (w : World S)
      → (later : List Call) × (after (finish id rd result answer) w ≡ later ++ w.calls)
        × (executions later ≡ 0)
  unfolding finish
  finish_idle id rd result (err e) w = ([], refl, refl)
  finish_idle id rd result (ok b) w =
      let (later, e, idle) = replay_unlinked_idle id b w in
      let (r, w') = replay_unlinked id b w in
      elim (Result-cases r) [
        | inl (_, h) ↦ (later, ground arith, idle)
        | inr (_, h) ↦ (later, ground arith, idle)
      ]

  pub execute-cases :
      (id : Text) (rd : Reading) (r : ToolCallRequest) (grant : ApprovalGrant) (w : World S)
      → (executions (after (execute id rd r grant) w) ≡ executions w.calls)
        ⊎ ((answer : Result Text ExecResponse) × (later : List Call) × (after
                (execute id rd r grant)
                w
              ≡ later ++ (executed (exec_request rd.id r) answer ∷ w.calls))
            × (executions later ≡ 0))
  unfolding execute marshal execute_connector exec record_event link_execution
  execute-cases id rd r grant w =
      let (answer, st) = S.exec (exec_request rd.id r) w.state in
      let result : ExecutionResult = execution_result rd.duration_ms answer in
      let env : ToolCallEnvelope = execution_envelope id rd r result in
      let (saved, st') = S.record_event env st in
      let (link, st'') = S.link_execution_to_parent id rd.id grant.id st' in
      let w' : World S = record {
        state = st'';
        calls =
            linked id rd.id grant.id link
            ∷ recorded env saved
            ∷ executed (exec_request rd.id r) answer
            ∷ w.calls;
      } in
      let (later, e, idle) = finish_idle id rd result link w' in
      elim (Option-cases (S.marshal r)) [
        | inr (_, h) ↦ inl (ground arith)
        | inl h ↦ elim (Option-cases (S.marshal (execution_request id r))) [
          | inr (_, k) ↦ inr (answer, [], ground arith, refl)
          | inl k ↦ elim (Result-cases saved) [
            | inr (_, l) ↦ inr (answer, recorded env saved ∷ [], ground arith, refl)
            | inl (env', l) ↦
                let more : List Call = linked id rd.id grant.id link ∷ recorded env saved ∷ [] in
                let rest : List Call = executed (exec_request rd.id r) answer ∷ w.calls in
                let e' : after (execute id rd r grant) w ≡ later ++ (more ++ rest) =
                  ground (arith, e) in
                inr (
                  answer,
                  later ++ more,
                  e' ∙ sym (append_assoc later more rest),
                  executions-append later more ∙ ground arith,
                )
          ]
        ]
      ]

  -- `find_event` answers an event only if it is found and is none of another tenant's.
  pub find_event-cases :
      (auth id : Text) (w : World S)
      → let (answer, st) = S.get_event id w.state in
        let w' : World S = record { state = st; calls = fetched id answer ∷ w.calls } in
        ((env : ToolCallEnvelope) × (answer ≡ ok (some env))
          × (is_foreign auth env ≡ false)
          × (find_event auth id w ≡ (ok env, w')))
        ⊎ ((e : ApiError) × (find_event auth id w ≡ (err (failed e), w')))
  unfolding find_event get_event own_event
  find_event-cases auth id w =
      let (answer, st) = S.get_event id w.state in
      elim (Result-cases answer) [
        | inr (e, h) ↦ inr (internal (text "failed to retrieve event"), ground arith)
        | inl (o, h) ↦ elim (Option-cases o) [
          | inl k ↦ inr (not_found (text "event not found"), ground arith)
          | inr (env, k) ↦ elim (Bool-cases (is_foreign auth env)) [
            | inl l ↦ inr (not_found (text "event not found"), ground arith)
            | inr l ↦ inl (env, ground arith, l, ground arith)
          ]
        ]
      ]
