-- ===== src/Types/ToolCall.antt =====
-- `ToolCallRequest` of `pkg/types/toolcall.go` and `NormalizeAndValidate`.
pub mod Validation
use open_clause.Base.{
  ℕ, ◌+◌, ◌*◌, Bool, true, false, not, ◌&&◌, ◌||◌, List, [], ◌∷◌, ◌++◌, Text, text, ◌==◌, Result,
  ok, err, length, all, leb, ltb, eqb, if◌then◌else◌, is_empty, Unicode, trim_space, to_lower,
}
use open_clause.Base.Int.{ℤ, pos, ltb_ℤ}
use open_clause.Json.{Json}

abbrev pub max_params_bytes : ℕ
max_params_bytes = 64 * 1024

abbrev pub max_resource_bytes : ℕ
max_resource_bytes = 2 * 1024

abbrev pub max_idempotency_key_bytes : ℕ
max_idempotency_key_bytes = 256

abbrev pub max_labels_count : ℕ
max_labels_count = 50

abbrev pub max_risk_score : ℕ
max_risk_score = 10

abbrev pub current_schema_ver : Text
current_schema_ver = text "1.0"

-- Nanoseconds since the zero `time.Time`, for which `IsZero` holds.
abbrev pub Time : Type 0
Time = ℕ

-- A `json.RawMessage`: its bytes, none if it is nil, and the value that they denote.
pub record RawMessage : Type 0 where
  pub bytes : Text
  pub value : Json

pub record ToolCallRequest : Type 0 where
  pub tenant_id : Text
  pub agent_id : Text
  pub tool : Text
  pub action : Text
  pub params : RawMessage
  pub resource : Text
  pub risk_score : ℤ
  pub risk_factors : List Text
  pub user_id : Text
  pub session_id : Text
  pub labels : List (Text × Text)
  pub source_ip : Text
  pub trace_id : Text
  pub idempotency_key : Text
  pub requested_at : Time
  pub schema_version : Text

-- The reasons of a `ValidationError`: their format strings with the arguments.
pub data Reason : Type 0 where
  required : Reason
  invalid_characters : Reason
  exceeds_bytes : ℕ → Reason
  out_of_range : ℕ → Reason
  exceeds_entries : ℕ → Reason
  unsupported_version : Text → Text → Reason

pub record ValidationError : Type 0 where
  pub field : Text
  pub reason : Reason

abbrev invalid : Text → Reason → Result ValidationError ToolCallRequest
invalid field reason = err (record { field = field; reason = reason })

-- `[a-z0-9]`
abbrev pub is_word : ℕ → Bool
is_word c = (leb b'a' c && leb c b'z') || (leb b'0' c && leb c b'9')

-- `[a-z0-9._-]`
abbrev pub is_name_byte : ℕ → Bool
is_name_byte c = is_word c || eqb c b'.' || eqb c b'_' || eqb c b'-'

-- `validToolAction.MatchString`, for `^[a-z0-9][a-z0-9._-]{0,63}$`.
unfoldable pub valid_tool_action : Text → Bool
valid_tool_action [] = false
valid_tool_action (c ∷ s) = is_word c && leb (length s) 63 && all is_name_byte s

module _ (u : Unicode) where
  unfoldable pub normalize : ToolCallRequest → ToolCallRequest
  normalize r = record r {
    tool = to_lower u (trim_space u r.tool);
    action = to_lower u (trim_space u r.action);
  }

  -- The last two steps: the schema version and the time of the request.
  unfoldable pub complete : Time → ToolCallRequest → Result ValidationError ToolCallRequest
  complete now r =
      let at = if eqb r.requested_at 0 then now else r.requested_at in
      if is_empty r.schema_version
      then ok (record r { schema_version = current_schema_ver; requested_at = at })
      else if not (r.schema_version == current_schema_ver)
      then invalid (text "schema_version") (unsupported_version r.schema_version current_schema_ver)
      else ok (record r { requested_at = at })

  -- The checks after `Normalize`, in their order.
  unfoldable pub check : Time → ToolCallRequest → Result ValidationError ToolCallRequest
  unfolding complete
  check now r =
      if is_empty r.tenant_id
      then invalid (text "tenant_id") required
      else if is_empty r.agent_id
      then invalid (text "agent_id") required
      else if is_empty r.tool
      then invalid (text "tool") required
      else if not (valid_tool_action r.tool)
      then invalid (text "tool") invalid_characters
      else if is_empty r.action
      then invalid (text "action") required
      else if not (valid_tool_action r.action)
      then invalid (text "action") invalid_characters
      else if is_empty r.idempotency_key
      then invalid (text "idempotency_key") required
      else if ltb max_idempotency_key_bytes (length r.idempotency_key)
      then invalid (text "idempotency_key") (exceeds_bytes max_idempotency_key_bytes)
      else if ltb_ℤ r.risk_score (pos 0) || ltb_ℤ (pos max_risk_score) r.risk_score
      then invalid (text "risk_score") (out_of_range max_risk_score)
      else if ltb max_params_bytes (length r.params.bytes)
      then invalid (text "params") (exceeds_bytes max_params_bytes)
      else if ltb max_resource_bytes (length r.resource)
      then invalid (text "resource") (exceeds_bytes max_resource_bytes)
      else if ltb max_labels_count (length r.labels)
      then invalid (text "labels") (exceeds_entries max_labels_count)
      else complete now r

  -- `NormalizeAndValidate`: the request as the call leaves it, or the error. `now` is what
  -- `time.Now().UTC()` returns.
  unfoldable pub normalize_and_validate :
      Time → ToolCallRequest → Result ValidationError ToolCallRequest
  unfolding normalize check
  normalize_and_validate now r = check now (normalize r)

-- `ToolAction`.
unfoldable pub tool_action : ToolCallRequest → Text
tool_action r = r.tool ++ (b'.' ∷ r.action)
