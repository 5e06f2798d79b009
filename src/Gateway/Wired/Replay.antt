-- ===== src/Gateway/Wired/Replay.antt =====
-- A tool call that was allowed and recorded is not executed again.
use open_clause.Base.{
  ◌≡◌, ◌≢◌, refl, sym, ap, ◌∙◌, inl, inr, Bool-cases, Option-cases, Result-cases, true, none, some,
  ◌∷◌, Text, arith, ok, Faults, Unicode,
}
use open_clause.Types.ToolCall.{ToolCallRequest, ValidationError, normalize_and_validate}
use open_clause.Types.Policy.{
  Decision, allow, deny, approve, other, PolicyResult, ToolCallEnvelope, ToolCallResponse,
}
use open_clause.Evidence.Store.Tables.{Db}
use open_clause.Evidence.Store.Write as EvidenceWrite
use open_clause.Evidence.Store.Read as EvidenceRead
use open_clause.Evidence.Store.Later.{here}
use open_clause.Evidence.Store.Idempotency.{replay, check_idempotency-record_event}
use open_clause.Gateway.Model.{World, replied, PolicyInput, Reading, checked, evaluated}
use open_clause.Gateway.Calls.{
  check_idempotency, evaluate, exec, record_event, create_request, allow_rate, marshal,
}
use open_clause.Gateway.ToolCalls.{
  exec_request, execution_result, override_tenant, envelope, response, or_deny, execute_connector,
  act, decide, replay_or_decide, serve, handle_tool_call,
}
use open_clause.Gateway.ToolCalls.Guarded.{executions}
use open_clause.Gateway.Wired.{Rest, wired}

module _ (sha256 : Text → Text) (codec : EvidenceWrite.Codec) (o : Rest) (url : Text) where
  -- The tables are what a successful record of the event left.
  IsStored : ToolCallRequest → ToolCallResponse → Db → Type 0
  IsStored r reply db =
      (f : Faults) × (env : ToolCallEnvelope) × (env' : ToolCallEnvelope) × (before : Db)
      × (EvidenceWrite.record_event sha256 codec f env before ≡ (ok env', db))
      × (env.request ≡ r)
      × (env.event_id ≡ reply.event_id)
      × (env.decision ≡ allow)

  act-IsStored :
      (rd : Reading) (r : ToolCallRequest) (p : PolicyResult) (w : World (wired sha256 codec o))
      (d : Decision) {reply : ToolCallResponse} {w' : World (wired sha256 codec o)}
      → p.decision ≡ d
      → act url rd r p d w ≡ (ok (replied reply), w')
      → reply.decision ≡ allow
      → IsStored r reply w'.state.0
  unfolding act record_event create_request execute_connector exec response envelope IsStored
  act-IsStored rd r p w deny e h k = absurd (ground arith)
  act-IsStored rd r p w approve e h k = absurd (ground arith)
  act-IsStored rd r p w (other s) e h k = absurd (ground arith)
  act-IsStored rd r p w allow {reply} {w'} e h k =
      let (answer, s) = o.exec (exec_request rd.id r) w.state.1 in
      let env : ToolCallEnvelope = record (envelope rd r p) {
        execution_result = some (execution_result rd.duration_ms answer);
      } in
      let f = o.faults s in
      elim (Result-cases (EvidenceWrite.record_event sha256 codec f env w.state.0).0) [
        | inr (_, l) ↦ absurd (ground arith)
        | inl (env', l) ↦ (f, env, env', w.state.0, ground arith, refl, ground arith, e)
      ]

  decide-IsStored :
      (rd : Reading) (r : ToolCallRequest) (w : World (wired sha256 codec o))
      {reply : ToolCallResponse} {w' : World (wired sha256 codec o)}
      → decide url rd r w ≡ (ok (replied reply), w')
      → reply.decision ≡ allow
      → IsStored r reply w'.state.0
  unfolding decide marshal evaluate
  decide-IsStored rd r w {reply} {w'} h k =
      let input : PolicyInput = record { tool_call = r; timestamp = rd.evaluated_at } in
      let (answer, s) = o.evaluate input w.state.1 in
      let w1 : World (wired sha256 codec o) = record {
        state = (w.state.0, s);
        calls = evaluated input answer ∷ w.calls;
      } in
      elim (Option-cases (o.marshal r)) [
        | inr (_, l) ↦ absurd (ground arith)
        | inl l ↦
            let p = or_deny answer in
            act-IsStored rd r p w1 p.decision refl (sym (rw (l, decide, marshal) refl) ∙ h) k
      ]

  serve-IsStored :
      (rd : Reading) (r : ToolCallRequest) (w : World (wired sha256 codec o))
      {reply : ToolCallResponse} {w' : World (wired sha256 codec o)}
      → serve url rd r w ≡ (ok (replied reply), w')
      → reply.decision ≡ allow
      → executions w'.calls ≢ executions w.calls
      → IsStored r reply w'.state.0
  unfolding serve allow_rate check_idempotency replay_or_decide
  serve-IsStored rd r w {reply} {w'} h k ran =
      let (admitted, s) = o.allow_rate r.tenant_id w.state.1 in
      let answer =
        EvidenceRead.check_idempotency (o.faults s) r.tenant_id r.idempotency_key w.state.0 in
      let w1 : World (wired sha256 codec o) = record {
        state = (w.state.0, s);
        calls = checked r.tenant_id r.idempotency_key answer ∷ w.calls;
      } in
      elim (Bool-cases admitted) [
        | inr l ↦ absurd (ground arith)
        | inl l ↦ elim (Result-cases answer) [
          | inr (e, m) ↦ absurd (ground arith)
          | inl (prior, m) ↦ elim (Option-cases prior) [
            | inr (found, n) ↦ absurd (ran (ground arith))
            | inl n ↦ decide-IsStored rd r w1 {reply = reply} {w' = w'} (ground arith) k
          ]
        ]
      ]

  -- The reply to a later call with the tenant and key of a stored event.
  serve-replay :
      (rd : Reading) (r r' : ToolCallRequest) (reply : ToolCallResponse)
      (w : World (wired sha256 codec o))
      → IsStored r reply w.state.0
      → r'.tenant_id ≡ r.tenant_id
      → r'.idempotency_key ≡ r.idempotency_key
      → (o.allow_rate r'.tenant_id w.state.1).0 ≡ true
      → o.faults (o.allow_rate r'.tenant_id w.state.1).1 ≡ (λ _. none)
      → (again : ToolCallResponse) × (w' : World (wired sha256 codec o)) × (serve url rd r' w
          ≡ (ok (replied again), w'))
        × (again.event_id ≡ reply.event_id)
        × (again.decision ≡ allow)
        × (executions w'.calls ≡ executions w.calls)
  unfolding serve allow_rate check_idempotency replay_or_decide IsStored
  serve-replay rd r r' reply w (f, env, env', before, stored, same, id, allowed) t k admitted
        quiet =
      let (_, s) = o.allow_rate r'.tenant_id w.state.1 in
      let answer =
        EvidenceRead.check_idempotency (o.faults s) r'.tenant_id r'.idempotency_key w.state.0 in
      let found : answer ≡ ok (some (replay env)) =
        (λ i.
          EvidenceRead.check_idempotency (quiet i) ((t ∙ ap (λ q. q.tenant_id) (sym same)) i)
            ((k ∙ ap (λ q. q.idempotency_key) (sym same)) i) w.state.0)
        ∙ check_idempotency-record_event sha256 codec f (λ _. none) env before stored here refl in
      (
        replay env,
        record {
          state = (w.state.0, s);
          calls = checked r'.tenant_id r'.idempotency_key answer ∷ w.calls;
        },
        ground (arith, admitted, found),
        id,
        allowed,
        refl,
      )

  module _ (u : Unicode) (message : ValidationError → Text) where
    -- On the modelled evidence store: after a tool call that ran its connector and was answered
    -- `allow`, another one that is valid, starts in the state that the first left, has the same
    -- tenant and idempotency key and is admitted by the rate limit, while the driver does not fail,
    -- runs no connector and is answered with the first one's event and decision.
    pub handle_tool_call_again :
        (rd later : Reading) (req req' : ToolCallRequest) {r r' : ToolCallRequest}
        (w : World (wired sha256 codec o)) {reply : ToolCallResponse}
        {w1 : World (wired sha256 codec o)}
        → normalize_and_validate u rd.now req ≡ ok r
        → normalize_and_validate u later.now req' ≡ ok r'
        → handle_tool_call u message url rd (ok req) w ≡ (ok (replied reply), w1)
        → reply.decision ≡ allow
        → executions w1.calls ≢ executions w.calls
        → (override_tenant later.auth_tenant r').tenant_id
          ≡ (override_tenant rd.auth_tenant r).tenant_id
        → (override_tenant later.auth_tenant r').idempotency_key
          ≡ (override_tenant rd.auth_tenant r).idempotency_key
        → (o.allow_rate (override_tenant later.auth_tenant r').tenant_id w1.state.1).0 ≡ true
        → o.faults (o.allow_rate (override_tenant later.auth_tenant r').tenant_id w1.state.1).1
          ≡ (λ _. none)
        → (again : ToolCallResponse) × (w2 : World (wired sha256 codec o)) × (handle_tool_call u
              message url later
              (ok req')
              w1
            ≡ (ok (replied again), w2))
          × (again.event_id ≡ reply.event_id)
          × (again.decision ≡ allow)
          × (executions w2.calls ≡ executions w1.calls)
    unfolding handle_tool_call
    handle_tool_call_again rd later req req' {r} {r'} w {reply} {w1} v v' h d ran t k admitted
          quiet =
        let s = override_tenant rd.auth_tenant r in
        let s' = override_tenant later.auth_tenant r' in
        let first : serve url rd s w ≡ (ok (replied reply), w1) =
          sym (rw (v, handle_tool_call) refl) ∙ h in
        let stored = serve-IsStored rd s w {reply = reply} {w' = w1} first d ran in
        let (again, w2, e, same_id, allowed, none_ran) =
          serve-replay later s s' reply w1 stored t k admitted quiet in
        (again, w2, rw (v', handle_tool_call) e, same_id, allowed, none_ran)
