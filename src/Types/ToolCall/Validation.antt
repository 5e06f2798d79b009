-- ===== src/Types/ToolCall/Validation.antt =====
-- What `NormalizeAndValidate` accepts, and what it leaves.
use open_clause.Base.{
  is_plain, sym, ap, ◌∙◌, ℕ, ◌≤◌, ◌≡◌, ◌≢◌, ◌↔◌, refl, true, false, ◌⊎◌, [], ◌∷◌, Text, ok, arith,
  length, all, All, is_empty, eqb, Unicode, IsPlain, trim_space_of_IsPlain, to_lower_of_IsPlain,
  if◌then◌else◌,
}
use open_clause.Base.Int.{pos}
use open_clause.Types.ToolCall.{
  ToolCallRequest, Time, is_name_byte, valid_tool_action, normalize, check, normalize_and_validate,
  current_schema_ver,
}

-- A lower-case letter or a digit.
abbrev IsWord : ℕ → Type 0
IsWord c = (b'a' ≤ c) × (c ≤ b'z') ⊎ (b'0' ≤ c) × (c ≤ b'9')

-- One of these, a dot, an underscore or a dash.
abbrev IsNameByte : ℕ → Type 0
IsNameByte c = IsWord c ⊎ ((c ≡ b'.') ⊎ ((c ≡ b'_') ⊎ (c ≡ b'-')))

-- A name of a tool or an action: 1 to 64 of the allowed bytes, the first a letter or a digit.
abbrev pub IsName : Text → Type 0
IsName [] = ⊥
IsName (c ∷ s) = IsWord c × (length s ≤ 63) × All IsNameByte s

-- The limits on a request whose tool and action are normalized.
pub record IsAcceptable (r : ToolCallRequest) : Type 0 where
  pub tenant_id : r.tenant_id ≢ []
  pub agent_id : r.agent_id ≢ []
  pub tool : IsName r.tool
  pub action : IsName r.action
  pub has_key : r.idempotency_key ≢ []
  pub key_within : length r.idempotency_key ≤ 256
  pub risk_score : (n : ℕ) × (r.risk_score ≡ pos n) × (n ≤ 10)
  pub params : length r.params.bytes ≤ 65536
  pub resource : length r.resource ≤ 2048
  pub labels : length r.labels ≤ 50
  pub schema_version : (r.schema_version ≡ []) ⊎ (r.schema_version ≡ current_schema_ver)

-- The request that an accepted one becomes.
pub completed : Time → ToolCallRequest → ToolCallRequest
completed now r = record r {
  schema_version = current_schema_ver;
  requested_at = if eqb r.requested_at 0 then now else r.requested_at;
}

all-is_name_byte : (s : Text) → (all is_name_byte s ≡ true) ↔ All IsNameByte s
all-is_name_byte [] = (λ h. tt, λ h. refl)
all-is_name_byte (c ∷ s) =
    (λ h. ground (arith, (all-is_name_byte s).0), λ h. ground (arith, (all-is_name_byte s).1))

pub valid_tool_action-IsName : (s : Text) → (valid_tool_action s ≡ true) ↔ IsName s
unfolding valid_tool_action
valid_tool_action-IsName [] = (λ h. ground arith, λ h. absurd h)
valid_tool_action-IsName (c ∷ s) =
    (λ h. ground (arith, (all-is_name_byte s).0), λ h. ground (arith, (all-is_name_byte s).1))

All-is_plain : (s : Text) → All IsNameByte s → All (λ c. is_plain c ≡ true) s
unfolding is_plain
All-is_plain [] h = tt
All-is_plain (c ∷ s) h = (ground arith, All-is_plain s h.1)

IsPlain-of_IsName : (s : Text) → IsName s → IsPlain s
unfolding is_plain IsPlain
IsPlain-of_IsName [] h = absurd h
IsPlain-of_IsName (c ∷ s) h = (ground arith, All-is_plain s h.2)

is_empty-valid_tool_action : (s : Text) → valid_tool_action s ≡ true → is_empty s ≡ false
unfolding valid_tool_action
is_empty-valid_tool_action [] h = ground arith
is_empty-valid_tool_action (c ∷ s) h = refl

module _ (u : Unicode) (now : Time) where
  check_of_IsAcceptable :
      (r : ToolCallRequest) → IsAcceptable r → check u now r ≡ ok (completed now r)
  unfolding check completed
  check_of_IsAcceptable r a =
      let tool = (valid_tool_action-IsName r.tool).1 a.tool in
      let action = (valid_tool_action-IsName r.action).1 a.action in
      ground (arith, is_empty-valid_tool_action r.tool, is_empty-valid_tool_action r.action)

  IsAcceptable-of_check :
      (r : ToolCallRequest) {r' : ToolCallRequest}
      → check u now r ≡ ok r'
      → IsAcceptable r × (r' ≡ completed now r)
  unfolding check completed
  IsAcceptable-of_check r h = (
    record {
      tenant_id = ground arith;
      agent_id = ground arith;
      tool = (valid_tool_action-IsName r.tool).0 (ground arith);
      action = (valid_tool_action-IsName r.action).0 (ground arith);
      has_key = ground arith;
      key_within = ground arith;
      risk_score = ground arith;
      params = ground arith;
      resource = ground arith;
      labels = ground arith;
      schema_version = ground arith;
    },
    ground arith,
  )

  -- A request is accepted exactly if, its tool and action normalized, it keeps all the limits. It
  -- then comes back normalized, with the schema version filled in, and with the time of the call
  -- if it had none.
  pub normalize_and_validate-IsAcceptable :
      (r r' : ToolCallRequest)
      → (normalize_and_validate u now r ≡ ok r')
        ↔ (IsAcceptable (normalize u r) × (r' ≡ completed now (normalize u r)))
  unfolding normalize_and_validate
  normalize_and_validate-IsAcceptable r r' = (
    IsAcceptable-of_check (normalize u r),
    λ a. check_of_IsAcceptable (normalize u r) a.0 ∙ ap ok (sym a.1),
  )

  normalize_of_IsName : (r : ToolCallRequest) → IsName r.tool → IsName r.action → normalize u r ≡ r
  unfolding normalize
  normalize_of_IsName r h k =
      let p = IsPlain-of_IsName r.tool h in
      let q = IsPlain-of_IsName r.action k in
      ground (
        arith,
        trim_space_of_IsPlain u r.tool p,
        trim_space_of_IsPlain u r.action q,
        to_lower_of_IsPlain u r.tool p,
        to_lower_of_IsPlain u r.action q,
      )

-- What was accepted once is accepted again at any later time, and is not changed any more. The
-- clock must not read the zero time.
pub normalize_and_validate_again :
    (u : Unicode) (now later : Time) (r : ToolCallRequest) {r' : ToolCallRequest}
    → now ≢ 0
    → normalize_and_validate u now r ≡ ok r'
    → normalize_and_validate u later r' ≡ ok r'
unfolding completed
normalize_and_validate_again u now later r {r'} clock h =
    let (a, e) = (normalize_and_validate-IsAcceptable u now r r').0 h in
    let n : normalize u r' ≡ r' = rw e (normalize_of_IsName u now _ a.tool a.action) in
    (normalize_and_validate-IsAcceptable u later r' r').1 (rw n (ground arith))
