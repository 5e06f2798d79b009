-- ===== src/Gateway/ToolCalls/Guarded.antt =====
-- When `HandleToolCall` runs a connector.
use open_clause.Base.{
  ℕ, ◌≡◌, ◌+◌, ◌++◌, ◌≢◌, refl, suc, ◌⊎◌, inl, inr, Bool-cases, Option-cases, Result-cases, Bool,
  true, false, none, some, List, [], ◌∷◌, Text, arith, if◌then◌else◌, Result, ok, Unicode,
}
use open_clause.Types.ToolCall.{ToolCallRequest, ValidationError, normalize_and_validate}
use open_clause.Types.Policy.{Decision, allow, deny, approve, other, PolicyResult, ToolCallEnvelope}
use open_clause.Gateway.Model.{
  Services, World, Handler, Reply, ExecResponse, Reading, PolicyInput, Call, checked, evaluated,
  executed, recorded, requested, fetched, looked_up, consumed, linked,
}
use open_clause.Gateway.Calls.{
  check_idempotency, evaluate, exec, record_event, create_request, allow_rate, marshal,
}
use open_clause.Gateway.ToolCalls.{
  exec_request, execution_result, override_tenant, envelope, or_deny, execute_connector, act,
  decide, replay_or_decide, serve, handle_tool_call,
}

abbrev is_execution : Call → Bool
is_execution (executed _ _) = true
is_execution (checked _ _ _) = false
is_execution (evaluated _ _) = false
is_execution (recorded _ _) = false
is_execution (requested _ _) = false
is_execution (fetched _ _) = false
is_execution (looked_up _ _) = false
is_execution (consumed _ _) = false
is_execution (linked _ _ _ _) = false

-- How many of the calls ran a connector.
abbrev pub executions : List Call → ℕ
executions [] = 0
executions (c ∷ calls) = if is_execution c then suc (executions calls) else executions calls

pub executions-append : (xs ys : List Call) → executions (xs ++ ys) ≡ executions xs + executions ys
executions-append [] ys = omega arith
executions-append (x ∷ xs) ys = ground (arith, executions-append xs ys)

-- The calls after `before` of a request that ran its connector.
pub record IsAllowed (rd : Reading) (r : ToolCallRequest) (before after : List Call) : Type 0 where
  pub result : PolicyResult
  pub answer : Result Text ExecResponse
  pub saved : Result Text ToolCallEnvelope
  pub allowed : result.decision ≡ allow
  pub calls :
      after
      ≡ recorded
          (record (envelope rd r result) {
            execution_result = some (execution_result rd.duration_ms answer);
          })
          saved
        ∷ executed (exec_request rd.id r) answer
        ∷ evaluated (record { tool_call = r; timestamp = rd.evaluated_at }) (ok result)
        ∷ checked r.tenant_id r.idempotency_key (ok none)
        ∷ before

allow-cases : (d : Decision) → (d ≡ allow) ⊎ (d ≢ allow)
allow-cases allow = inl refl
allow-cases deny = inr (λ h. ground arith)
allow-cases approve = inr (λ h. ground arith)
allow-cases (other s) = inr (λ h. ground arith)

module _ {S : Services} (url : Text) (rd : Reading) where
  abbrev after : Handler S Reply → World S → List Call
  after h w = (h w).1.calls

  act_idle :
      (r : ToolCallRequest) (p : PolicyResult) (d : Decision) (w : World S)
      → d ≢ allow
      → executions (after (act url rd r p d) w) ≡ executions w.calls
  unfolding act record_event create_request
  act_idle r p deny w h = refl
  act_idle r p approve w h = refl
  act_idle r p (other s) w h = refl
  act_idle r p allow w h = absurd (h refl)

  act_allow :
      (r : ToolCallRequest) (p : PolicyResult) (w : World S)
      → (answer : Result Text ExecResponse) × (saved : Result Text ToolCallEnvelope) × (after
            (act url rd r p allow)
            w
          ≡ recorded
              (record (envelope rd r p) {
                execution_result = some (execution_result rd.duration_ms answer);
              })
              saved
            ∷ executed (exec_request rd.id r) answer
            ∷ w.calls)
  unfolding act record_event execute_connector exec
  act_allow r p w =
      let (answer, st) = S.exec (exec_request rd.id r) w.state in
      let env : ToolCallEnvelope = record (envelope rd r p) {
        execution_result = some (execution_result rd.duration_ms answer);
      } in
      (
        answer,
        (S.record_event env st).0,
        elim (Result-cases (S.record_event env st).0) [
          | inl (_, e) ↦ ground arith
          | inr (_, e) ↦ ground arith
        ],
      )

  decide_guarded :
      (r : ToolCallRequest) (w : World S)
      → (executions (after (decide url rd r) w) ≡ executions w.calls)
        ⊎ ((p : PolicyResult) × (answer : Result Text ExecResponse) × (saved : Result Text
              ToolCallEnvelope)
            × (p.decision ≡ allow)
            × (after (decide url rd r) w
                ≡ recorded
                    (record (envelope rd r p) {
                      execution_result = some (execution_result rd.duration_ms answer);
                    })
                    saved
                  ∷ executed (exec_request rd.id r) answer
                  ∷ evaluated (record { tool_call = r; timestamp = rd.evaluated_at }) (ok p)
                  ∷ w.calls))
  unfolding decide marshal evaluate or_deny
  decide_guarded r w = elim (Option-cases (S.marshal r)) [
    | inr (e, h) ↦ inl (ground arith)
    | inl h ↦
        let input : PolicyInput = record { tool_call = r; timestamp = rd.evaluated_at } in
        let (result, st) = S.evaluate input w.state in
        let w' : World S = record { state = st; calls = evaluated input result ∷ w.calls } in
        elim (Result-cases result) [
          | inr (e, k) ↦
              inl (ground (arith, act_idle r (or_deny result) deny w' (λ q. ground arith)))
          | inl (p, k) ↦ elim (allow-cases p.decision) [
            | inr d ↦ inl (ground (arith, act_idle r p p.decision w' d))
            | inl d ↦
                let (answer, saved, e) = act_allow r p w' in inr (p, answer, saved, d, ground arith)
          ]
        ]
  ]

  serve-IsAllowed :
      (r : ToolCallRequest) (w : World S)
      → (executions (after (serve url rd r) w) ≡ executions w.calls)
        ⊎ IsAllowed rd r w.calls (after (serve url rd r) w)
  unfolding serve allow_rate check_idempotency replay_or_decide
  serve-IsAllowed r w =
      let (admitted, st) = S.allow_rate r.tenant_id w.state in
      let (answer, st') = S.check_idempotency r.tenant_id r.idempotency_key st in
      let w' : World S = record {
        state = st';
        calls = checked r.tenant_id r.idempotency_key answer ∷ w.calls;
      } in
      elim (Bool-cases admitted) [
        | inr h ↦ inl (ground arith)
        | inl h ↦ elim (Result-cases answer) [
          | inr (e, k) ↦ inl (ground arith)
          | inl (prior, k) ↦ elim (Option-cases prior) [
            | inr (reply, l) ↦ inl (ground arith)
            | inl l ↦ elim (decide_guarded r w') [
              | inl same ↦ inl (ground arith)
              | inr (p, result, saved, d, e) ↦ inr (record {
                result = p;
                answer = result;
                saved = saved;
                allowed = d;
                calls = ground arith;
              })
            ]
          ]
        ]
      ]

module _ {S : Services} (u : Unicode) (message : ValidationError → Text) where
  -- `HandleToolCall` runs no connector, or its calls are these, in this order: the check of the
  -- idempotency key of a valid request, in the tenant of the API key, which found nothing; the
  -- evaluation of the policy, which answered `allow`; one run of the connector, for that request;
  -- and the record of the run in the evidence.
  pub handle_tool_call-IsAllowed :
      (url : Text) (rd : Reading) (req : ToolCallRequest) (w : World S)
      → let (_, w') = handle_tool_call u message url rd (ok req) w in
        (executions w'.calls ≡ executions w.calls)
        ⊎ ((r : ToolCallRequest) × (normalize_and_validate u rd.now req ≡ ok r)
            × IsAllowed rd (override_tenant rd.auth_tenant r) w.calls w'.calls)
  unfolding handle_tool_call
  handle_tool_call-IsAllowed url rd req w =
      elim (Result-cases (normalize_and_validate u rd.now req)) [
        | inr (e, h) ↦ inl (ground arith)
        | inl (r, h) ↦ elim (serve-IsAllowed url rd (override_tenant rd.auth_tenant r) w) [
          | inl same ↦ inl (ground arith)
          | inr run ↦ inr (r, h, rw (h, handle_tool_call) run)
        ]
      ]
