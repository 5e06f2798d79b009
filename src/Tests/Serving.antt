-- ===== src/Tests/Serving.antt =====
-- Tool calls, executions and the rate limit, with services that answer the same always.
use open_clause.Base.{
  ◌≡◌, ◌⊎◌, refl, Bool, true, false, none, some, [], ◌∷◌, Text, text, text_dec, to_lower,
  trim_space, Result, ok, err, arith,
}
use open_clause.Types.ToolCall.{
  ToolCallRequest, ValidationError, normalize_and_validate, valid_tool_action,
}
use open_clause.Types.Policy.{allow, deny, approve, ToolCallResponse}
use open_clause.Gateway.Model.{Services, World, Reply, replied, shown, Reading}
use open_clause.Gateway.ToolCalls.{
  handle_tool_call, override_tenant, serve, replay_or_decide, decide, act, or_deny,
  execute_connector, response,
}
use open_clause.Gateway.Calls.{
  allow_rate as ask_rate, check_idempotency, marshal, evaluate, exec, record_event, get_event,
}
use open_clause.Gateway.ToolCalls.Guarded.{executions, IsAllowed, handle_tool_call-IsAllowed}
use open_clause.Gateway.ToolCalls.Recorded.{IsEvident, for_tenant, handle_tool_call-IsEvident}
use open_clause.Gateway.Execution.{
  is_foreign, find_event, own_event, handle_execute_tool_call, handle_get_event,
}
use open_clause.Gateway.Execution.Granted.{IsResumed, handle_execute_tool_call-IsResumed}
use open_clause.Gateway.Execution.Isolated.{handle_get_event-own}
use open_clause.Gateway.RateLimiter.{Limiters, State, allow_rate}
use open_clause.Gateway.RateLimiter.Distinct.{is_in}
use open_clause.Gateway.RateLimiter.Lru.{IsLru, allow_rate-IsLru}
use open_clause.Tests.Fixtures.{no_unicode, request, policy_result, event, empty_message}
use open_clause.Tests.Granting.{grant}

-- The policy allows, the connector succeeds, the event `1` awaits its approval, which is given.
abbrev services : Services
services = record {
  State = Unit {0};
  record_event = λ env st. (ok env, st);
  check_idempotency = λ t k st. (ok none, st);
  get_event = λ id st. (ok (some (event approve (text "1"))), st);
  get_execution_by_parent_event = λ id st. (ok none, st);
  link_execution_to_parent = λ parent execution g st. (ok true, st);
  evaluate = λ input st. (ok (policy_result allow), st);
  exec = λ x st.
      (ok (record { status = text "success"; output_json = empty_message; error = [] }), st);
  create_request = λ input st. (err (text "no approvals"), st);
  find_and_consume_grant = λ x st. (ok (some grant), st);
  allow_rate = λ t st. (true, st);
  marshal = λ r. none;
}

abbrev world : World services
world = record { state = tt; calls = [] }

abbrev pub reading : Reading
reading = record {
  now = 9;
  received_at = 10;
  evaluated_at = 11;
  duration_ms = 3;
  id = text "2";
  auth_tenant = text "t";
}

abbrev pub message : ValidationError → Text
message e = e.field

abbrev any_id : Text → Bool
any_id id = true

handle_tool_call-IsAllowed_example :
    let (_, w') = handle_tool_call no_unicode message (text "u") reading (ok request) world in
    (executions w'.calls ≡ 0)
    ⊎ ((r : ToolCallRequest) × (normalize_and_validate no_unicode 9 request ≡ ok r)
        × IsAllowed reading (override_tenant (text "t") r) [] w'.calls)
handle_tool_call-IsAllowed_example =
    handle_tool_call-IsAllowed no_unicode message (text "u") reading request world

handle_execute_tool_call-IsResumed_example :
    let (_, w') = handle_execute_tool_call any_id (λ _. false) reading (text "1") world in
    (executions w'.calls ≡ 0) ⊎ IsResumed reading (text "1") [] w'.calls
handle_execute_tool_call-IsResumed_example =
    handle_execute_tool_call-IsResumed any_id (λ _. false) reading (text "1") world

abbrev outcome : Result Reply Reply × World services
outcome = handle_tool_call no_unicode message (text "u") reading (ok request) world

abbrev pub response_of : Result Reply Reply → ToolCallResponse
response_of (ok (replied r)) = r
response_of _ = record {
  event_id = [];
  decision = deny;
  reason = [];
  approval_url = [];
  result = none;
}

answered : outcome ≡ (ok (replied (response_of outcome.0)), outcome.1)
unfolding handle_tool_call normalize_and_validate valid_tool_action text text_dec to_lower
    trim_space serve ask_rate check_idempotency replay_or_decide decide marshal evaluate act or_deny
    execute_connector exec record_event
answered = refl

is_allowed : (response_of outcome.0).decision ≡ allow
unfolding handle_tool_call normalize_and_validate valid_tool_action text text_dec to_lower
    trim_space serve ask_rate check_idempotency replay_or_decide decide marshal evaluate act or_deny
    execute_connector exec record_event response
is_allowed = refl

handle_tool_call-IsEvident_example :
    (r : ToolCallRequest) × (normalize_and_validate no_unicode 9 request ≡ ok r)
    × IsEvident (for_tenant (text "t") r) (response_of outcome.0) outcome.1.calls
handle_tool_call-IsEvident_example =
    handle_tool_call-IsEvident no_unicode message (text "u") reading request world answered
      is_allowed

shown_event : handle_get_event any_id (text "t") (text "1") world ≡ (
  ok (shown (event approve (text "1"))),
  (handle_get_event any_id (text "t") (text "1") world).1,
)
unfolding handle_get_event text text_dec find_event get_event own_event is_foreign
shown_event = refl

handle_get_event-own_example :
    (any_id (text "1") ≡ true)
    × (is_foreign (text "t") (event approve (text "1")) ≡ false)
    × ((services.get_event (text "1") tt).0 ≡ ok (some (event approve (text "1"))))
handle_get_event-own_example = handle_get_event-own any_id (text "t") (text "1") world shown_event

-- A limiter that always allows.
abbrev limiters : Limiters
limiters = record {
  Limiter = Unit {0};
  new_limiter = λ rate burst. tt;
  allow = λ now lim. (true, lim);
}

is_lru : IsLru limiters 1 (record { rate_limiters = (text "t", tt) ∷ []; rl_order = text "t" ∷ [] })
is_lru = record {
  distinct_keys = (refl, tt);
  distinct_order = (refl, tt);
  same = λ t. refl;
  same_length = refl;
  bounded = omega arith;
}

allow_rate-IsLru_example :
    (answer : Bool) × (st' : State limiters) × (allow_rate limiters 1 3
        (text "s")
        9
        (record { rate_limiters = (text "t", tt) ∷ []; rl_order = text "t" ∷ [] })
      ≡ some (answer, st'))
    × IsLru limiters 1 st'
    × (is_in (text "s") st'.rl_order ≡ true)
allow_rate-IsLru_example =
    allow_rate-IsLru limiters 1 3 (text "s") 9 ((text "t", tt) ∷ []) (text "t" ∷ []) (omega arith)
      is_lru
