-- ===== src/Gateway/ToolCalls/Recorded.antt =====
-- Which responses of `HandleToolCall` stand on recorded evidence.
use mathlib.Core.Path.{subst}
use open_clause.Base.{
  ◌≡◌, refl, sym, ap, ◌∙◌, ◌⊎◌, inl, inr, Bool-cases, Option-cases, Result-cases, some, List, ◌∷◌,
  Text, arith, Result, ok, Unicode, is_empty, if◌then◌else◌,
}
use open_clause.Types.ToolCall.{ToolCallRequest, ValidationError, normalize_and_validate}
use open_clause.Types.Policy.{
  Decision, allow, deny, approve, other, PolicyResult, ToolCallEnvelope, ToolCallResponse,
}
use open_clause.Gateway.Model.{
  Services, World, Reply, replied, PolicyInput, Reading, Call, checked, evaluated, executed,
  recorded,
}
use open_clause.Gateway.Calls.{
  check_idempotency, evaluate, exec, record_event, create_request, allow_rate, marshal,
}
use open_clause.Gateway.ToolCalls.{
  exec_request, execution_result, override_tenant, envelope, response, or_deny, execute_connector,
  act, decide, replay_or_decide, serve, handle_tool_call,
}

-- The last call of the handler answered the response from the evidence, by the tenant and the
-- idempotency key of the request, or recorded it there with the request.
abbrev pub IsEvident : ToolCallRequest → ToolCallResponse → List Call → Type 0
IsEvident r reply calls =
    ((before : List Call) × (calls
        ≡ checked r.tenant_id r.idempotency_key (ok (some reply)) ∷ before))
    ⊎ ((env : ToolCallEnvelope) × (env' : ToolCallEnvelope) × (before : List Call) × (calls
          ≡ recorded env (ok env') ∷ before)
        × (env.request ≡ r)
        × (env.event_id ≡ reply.event_id)
        × (env.decision ≡ reply.decision)
        × (env.execution_result ≡ reply.result))

-- The request in the tenant of the API key, or in its own if there is no key.
abbrev pub for_tenant : Text → ToolCallRequest → ToolCallRequest
for_tenant auth r = record r { tenant_id = if is_empty auth then r.tenant_id else auth }

override_tenant-for_tenant :
    (auth : Text) (r : ToolCallRequest) → override_tenant auth r ≡ for_tenant auth r
unfolding override_tenant
override_tenant-for_tenant auth r = elim (Bool-cases (is_empty auth)) [
  | inl e ↦ rw e refl
  | inr e ↦ rw e refl
]

-- What holds of the outcome of a handler that answers `allow`.
abbrev IsBacked : {S : Services} → ToolCallRequest → Result Reply Reply × World S → Type 0
IsBacked {S} r out =
    (reply : ToolCallResponse)
    → out.0 ≡ ok (replied reply)
    → reply.decision ≡ allow
    → IsEvident r reply out.1.calls

module _ {S : Services} (url : Text) (rd : Reading) where
  act-IsBacked :
      (r : ToolCallRequest) (p : PolicyResult) (w : World S) (d : Decision)
      → p.decision ≡ d
      → IsBacked r (act url rd r p d w)
  unfolding act record_event create_request execute_connector exec response envelope
  act-IsBacked r p w deny e reply h k = absurd (ground arith)
  act-IsBacked r p w approve e reply h k = absurd (ground arith)
  act-IsBacked r p w (other s) e reply h k = absurd (ground arith)
  act-IsBacked r p w allow e reply h k =
      let (answer, st) = S.exec (exec_request rd.id r) w.state in
      let env : ToolCallEnvelope = record (envelope rd r p) {
        execution_result = some (execution_result rd.duration_ms answer);
      } in
      elim (Result-cases (S.record_event env st).0) [
        | inr (_, l) ↦ absurd (ground arith)
        | inl (env', l) ↦ inr (
          env,
          env',
          executed (exec_request rd.id r) answer ∷ w.calls,
          ground arith,
          refl,
          ground arith,
          ground arith,
          ground arith,
        )
      ]

  decide-IsBacked : (r : ToolCallRequest) (w : World S) → IsBacked r (decide url rd r w)
  unfolding decide marshal evaluate
  decide-IsBacked r w reply h k =
      let input : PolicyInput = record { tool_call = r; timestamp = rd.evaluated_at } in
      let (answer, st) = S.evaluate input w.state in
      let w' : World S = record { state = st; calls = evaluated input answer ∷ w.calls } in
      elim (Option-cases (S.marshal r)) [
        | inr (_, l) ↦ absurd (ground arith)
        | inl l ↦
            let p = or_deny answer in
            let same : decide url rd r w ≡ act url rd r p p.decision w' =
              rw (l, decide, marshal) refl in
            subst (λ calls. IsEvident r reply calls) (sym (ap (λ out. out.1.calls) same))
              (act-IsBacked r p w' p.decision refl reply (sym (ap (λ out. out.0) same) ∙ h) k)
      ]

  serve-IsBacked : (r : ToolCallRequest) (w : World S) → IsBacked r (serve url rd r w)
  unfolding serve allow_rate check_idempotency replay_or_decide
  serve-IsBacked r w reply h k =
      let (admitted, st) = S.allow_rate r.tenant_id w.state in
      let (answer, st') = S.check_idempotency r.tenant_id r.idempotency_key st in
      let w' : World S = record {
        state = st';
        calls = checked r.tenant_id r.idempotency_key answer ∷ w.calls;
      } in
      elim (Bool-cases admitted) [
        | inr l ↦ absurd (ground arith)
        | inl l ↦ elim (Result-cases answer) [
          | inr (e, m) ↦ absurd (ground arith)
          | inl (prior, m) ↦ elim (Option-cases prior) [
            | inr (found, n) ↦ inl (w.calls, ground arith)
            | inl n ↦
                let same : serve url rd r w ≡ decide url rd r w' = ground arith in
                subst (λ calls. IsEvident r reply calls) (sym (ap (λ out. out.1.calls) same))
                  (decide-IsBacked r w' reply (sym (ap (λ out. out.0) same) ∙ h) k)
          ]
        ]
      ]

module _ {S : Services} (u : Unicode) (message : ValidationError → Text) where
  -- A response of `HandleToolCall` that says `allow` was either found in the evidence, by the
  -- idempotency key of the validated request in the tenant of the API key, or in its own without a
  -- key; or an event with that request, for that tenant, and with the id, the decision and the
  -- result of the response, was recorded there without an error before it was written.
  pub handle_tool_call-IsEvident :
      (url : Text) (rd : Reading) (req : ToolCallRequest) (w : World S) {reply : ToolCallResponse}
      {w' : World S}
      → handle_tool_call u message url rd (ok req) w ≡ (ok (replied reply), w')
      → reply.decision ≡ allow
      → (r : ToolCallRequest) × (normalize_and_validate u rd.now req ≡ ok r)
        × IsEvident (for_tenant rd.auth_tenant r) reply w'.calls
  unfolding handle_tool_call
  handle_tool_call-IsEvident url rd req w {reply} {w'} h k =
      elim (Result-cases (normalize_and_validate u rd.now req)) [
        | inr (e, l) ↦ absurd (ground arith)
        | inl (r, l) ↦
            let r' = override_tenant rd.auth_tenant r in
            let same : serve url rd r' w ≡ (ok (replied reply), w') = ground arith in
            (
              r,
              l,
              subst (λ x. IsEvident x reply w'.calls) (override_tenant-for_tenant rd.auth_tenant r)
                  (subst (λ calls. IsEvident r' reply calls) (ap (λ out. out.1.calls) same)
                    (serve-IsBacked url rd r' w reply (ap (λ out. out.0) same) k)),
            )
      ]
