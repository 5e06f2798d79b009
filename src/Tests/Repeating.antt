-- ===== src/Tests/Repeating.antt =====
-- A tool call that is sent twice, on the modelled evidence store.
use open_clause.Base.{
  ◌≡◌, refl, true, none, [], text, text_dec, to_lower, trim_space, Result, ok, err, arith,
}
use open_clause.Types.ToolCall.{normalize_and_validate, valid_tool_action}
use open_clause.Types.Policy.{allow, ToolCallResponse}
use open_clause.Evidence.Canonical.{canonical_json}
use open_clause.Evidence.Store.Tables.{
  has_tenant, has_event, has_key, has_result, insert_event, insert_result,
}
use open_clause.Evidence.Store.Write as EvidenceWrite
use open_clause.Evidence.Store.Read as EvidenceRead
use open_clause.Gateway.Model.{World, Reply, replied, Reading}
use open_clause.Gateway.Calls.{
  allow_rate as ask_rate, check_idempotency, marshal, evaluate, exec, record_event,
}
use open_clause.Gateway.ToolCalls.{
  handle_tool_call, override_tenant, serve, replay_or_decide, decide, act, or_deny,
  execute_connector, response, envelope, execution_result,
}
use open_clause.Gateway.ToolCalls.Guarded.{executions}
use open_clause.Gateway.Wired.{Rest, wired}
use open_clause.Gateway.Wired.Replay.{handle_tool_call_again}
use open_clause.Tests.Fixtures.{
  no_unicode, no_faults, request, policy_result, empty_message, codec, keep, no_events,
}
use open_clause.Tests.Serving.{reading, message, response_of}

abbrev pub rest : Rest
rest = record {
  State = Unit {0};
  faults = λ st. no_faults;
  evaluate = λ input st. (ok (policy_result allow), st);
  exec = λ x st.
      (ok (record { status = text "success"; output_json = empty_message; error = [] }), st);
  create_request = λ input st. (err (text "no approvals"), st);
  find_and_consume_grant = λ x st. (ok none, st);
  allow_rate = λ t st. (true, st);
  marshal = λ r. none;
}

abbrev world : World (wired keep codec rest)
world = record { state = (no_events, tt); calls = [] }

abbrev later : Reading
later = record reading { now = 20; received_at = 21; id = text "3" }

abbrev first : Result Reply Reply × World (wired keep codec rest)
first = handle_tool_call no_unicode message (text "u") reading (ok request) world

is_valid : normalize_and_validate no_unicode 9 request ≡ ok request
unfolding normalize_and_validate valid_tool_action text text_dec to_lower trim_space
is_valid = refl

is_valid_later : normalize_and_validate no_unicode 20 request ≡ ok request
unfolding normalize_and_validate valid_tool_action text text_dec to_lower trim_space
is_valid_later = refl

answered : first ≡ (ok (replied (response_of first.0)), first.1)
unfolding handle_tool_call normalize_and_validate valid_tool_action text text_dec to_lower
    trim_space serve ask_rate check_idempotency replay_or_decide decide marshal evaluate act or_deny
    execute_connector exec record_event EvidenceRead.check_idempotency EvidenceWrite.record_event
    EvidenceWrite.record_event_tx canonical_json EvidenceWrite.canonical_result insert_event
    has_tenant envelope override_tenant has_event has_key insert_result execution_result has_result
answered = refl

is_allowed : (response_of first.0).decision ≡ allow
unfolding handle_tool_call normalize_and_validate valid_tool_action text text_dec to_lower
    trim_space serve ask_rate check_idempotency replay_or_decide decide marshal evaluate act or_deny
    execute_connector exec record_event response EvidenceRead.check_idempotency
    EvidenceWrite.record_event EvidenceWrite.record_event_tx canonical_json
    EvidenceWrite.canonical_result insert_event has_tenant envelope override_tenant has_event
    has_key insert_result execution_result has_result
is_allowed = refl

one_run : executions first.1.calls ≡ 1
unfolding handle_tool_call normalize_and_validate valid_tool_action text text_dec to_lower
    trim_space serve ask_rate check_idempotency replay_or_decide decide marshal evaluate act or_deny
    execute_connector exec record_event response EvidenceRead.check_idempotency
    EvidenceWrite.record_event EvidenceWrite.record_event_tx canonical_json
    EvidenceWrite.canonical_result insert_event has_tenant envelope override_tenant has_event
    has_key insert_result execution_result has_result
one_run = refl

handle_tool_call_again_example :
    (again : ToolCallResponse) × (w2 : World (wired keep codec rest)) × (handle_tool_call no_unicode
        message
        (text "u")
        later
        (ok request)
        first.1
      ≡ (ok (replied again), w2))
    × (again.event_id ≡ (response_of first.0).event_id)
    × (again.decision ≡ allow)
    × (executions w2.calls ≡ executions first.1.calls)
handle_tool_call_again_example =
    handle_tool_call_again keep codec rest (text "u") no_unicode message reading later request
      request world is_valid is_valid_later answered is_allowed (λ h. ground (arith, one_run, h))
      refl refl refl refl
