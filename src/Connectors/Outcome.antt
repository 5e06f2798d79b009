-- ===== src/Connectors/Outcome.antt =====
-- What the connectors of `cmd` share: their responses, and what they make of an answer of the
-- service that they call.
use open_clause.Base.{ℕ, Bool, [], ◌++◌, Text, text, if◌then◌else◌}
use open_clause.Json.{Json, null, obj, end, field}
use open_clause.Types.ToolCall.{RawMessage}
use open_clause.Evidence.Canonical.{marshal}
use open_clause.Gateway.Model.{ExecResponse}
use open_clause.Http.{Answer, not_made, not_sent, broken, answered, limited}

abbrev pub nothing : RawMessage
nothing = record { bytes = []; value = null }

-- A value that the connector makes itself, by `json.Marshal`.
unfoldable pub made : Json → RawMessage
made v = record { bytes = marshal v; value = v }

abbrev pub success : RawMessage → ExecResponse
success output = record { status = text "success"; output_json = output; error = [] }

abbrev pub failure : Text → ExecResponse
failure e = record { status = text "error"; output_json = nothing; error = e }

-- The response to an answer: `accepts` is the test of the status code, `read` what is made of an
-- accepted body.
unfoldable pub read_answer : (ℕ → Bool) → (Text → ExecResponse) → Answer → ExecResponse
read_answer accepts read (not_made e) = failure e
read_answer accepts read (not_sent e) = failure e
read_answer accepts read (broken code e) = failure (text "read response: " ++ e)
read_answer accepts read (answered code body) =
    if accepts code then read (limited body) else failure (limited body)

-- A body as it came, with the value that it denotes.
abbrev pub as_it_came : (Text → Json) → Text → RawMessage
as_it_came value_of body = record { bytes = body; value = value_of body }

abbrev pub unsupported : Text → ExecResponse
unsupported action = failure (text "unsupported action: " ++ action)

-- A map with one entry, and one more entry in front.
abbrev pub entry : Text → Json → Json
entry k v = obj (field k v end)
