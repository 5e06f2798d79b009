-- ===== src/Sdk.antt =====
-- `pkg/sdk/client/client.go`: the client of the gateway. The JSON codec, the identifiers that are
-- drawn and what the gateway answers are parameters.
pub mod First
use open_clause.Base.{
  ℕ, Bool, true, false, ◌||◌, Option, none, some, List, [], ◌∷◌, ◌++◌, Text, text, eqb, is_empty,
  if◌then◌else◌, Result, ok, err,
}
use open_clause.Base.Decimal.{decimal}
use open_clause.Types.ToolCall.{ToolCallRequest}
use open_clause.Types.Errors.{ApiError}
use open_clause.Types.Policy.{ToolCallResponse}
use open_clause.Http.{
  HttpRequest, Answer, not_made, not_sent, broken, answered, Plan, done, send, run, is_success,
  limited,
}

-- The `http.Client` is the world.
pub record Client : Type 0 where
  pub base_url : Text
  pub api_key : Text

-- An error of the gateway, or another.
pub data SdkError : Type 0 where
  api : ApiError → SdkError
  other : Text → SdkError

-- `json.Marshal` of a request; the decoder on a response, and on an error of the gateway. What is
-- decoded of a body that breaks off is a parameter too.
pub record Codec : Type 0 where
  pub encode : ToolCallRequest → Result Text Text
  pub decode : Text → Result Text ToolCallResponse
  pub decode_error : Text → Option ApiError

-- The error for a status code outside 200 to 299.
unfoldable pub status_error : ℕ → Option ApiError → SdkError
status_error code none = other (text "http status " ++ decimal code)
status_error code (some e) =
    if is_empty e.message
    then other (text "http status " ++ decimal code)
    else api (record e { http_code = code })

abbrev decoded : Result Text ToolCallResponse → Result SdkError ToolCallResponse
decoded (ok r) = ok r
decoded (err e) = err (other e)

-- `doJSON`, from the answer on.
unfoldable pub do_json : Codec → Answer → Result SdkError ToolCallResponse
unfolding status_error
do_json c (not_made e) = err (other e)
do_json c (not_sent e) = err (other e)
do_json c (broken code e) = if is_success code then err (other e) else err (status_error code none)
do_json c (answered code body) =
    if is_success code
    then decoded (c.decode (limited body))
    else err (status_error code (c.decode_error (limited body)))

-- An empty text is replaced by a new identifier.
abbrev or_new : Text → Text → Text
or_new id v = if is_empty v then id else v

-- `Submit`. `key` and `trace` are the identifiers that it draws.
unfoldable pub submit :
    Codec → Client → Text → Text → ToolCallRequest → Plan (Result SdkError ToolCallResponse)
submit c client key trace r =
    let r' = record r {
      idempotency_key = or_new key r.idempotency_key;
      trace_id = or_new trace r.trace_id;
    } in
    elim (c.encode r') [
      | err e ↦ done (err (other e))
      | ok body ↦
          send
            (record {
              method = text "POST";
              url = client.base_url ++ text "/v1/toolcalls";
              headers =
                  (text "Content-Type", text "application/json")
                  ∷ (text "X-API-Key", client.api_key)
                  ∷ [];
              body = body;
            })
            (do_json c)
    ]

abbrev execute_request : Client → Text → HttpRequest
execute_request client parent = record {
  method = text "POST";
  url = client.base_url ++ (text "/v1/toolcalls/" ++ (parent ++ text "/execute"));
  headers = (text "X-API-Key", client.api_key) ∷ [];
  body = [];
}

-- `Execute`.
unfoldable pub execute : Codec → Client → Text → Plan (Result SdkError ToolCallResponse)
execute c client parent = send (execute_request client parent) (do_json c)

-- `isRetryable`: what may succeed later, or an approval that is awaited.
unfoldable pub is_retryable : SdkError → Bool
is_retryable (api e) = e.retryable || eqb e.http_code 409
is_retryable (other e) = false

-- What the loop of `WaitForApprovalThenExecute` meets: the context is done, with its error, or the
-- ticker fires, in a world that answers.
pub data Event : Type 0 where
  ended : Text → Event
  tick : (HttpRequest → Answer) → Event

-- The loop over the events: `none` while it waits for more.
unfoldable pub wait_for_approval_then_execute :
    Codec → Client → Text → List Event → Option (Result SdkError ToolCallResponse)
wait_for_approval_then_execute c client id [] = none
wait_for_approval_then_execute c client id (ended e ∷ events) = some (err (other e))
wait_for_approval_then_execute c client id (tick world ∷ events) =
    let again = wait_for_approval_then_execute c client id events in
    elim (run world (execute c client id)) [
      | ok r ↦ some (ok r)
      | err e ↦ if is_retryable e then again else some (err e)
    ]
