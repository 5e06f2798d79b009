-- ===== src/Tests/Requests.antt =====
-- Requests that are accepted, and values with one canonical form.
use open_clause.Base.{◌≡◌, ◌≢◌, ◌↔◌, refl, text, ok, arith, to_lower, trim_space, text_dec}
use open_clause.Json.{null, str, obj, field, end}
use open_clause.Types.ToolCall.{normalize, normalize_and_validate, valid_tool_action}
use open_clause.Types.ToolCall.Validation.{
  IsAcceptable, completed, normalize_and_validate-IsAcceptable, normalize_and_validate_again,
}
use open_clause.Evidence.Canonical.{canonical_json}
use open_clause.Evidence.Canonical.Order.{Same, SameFields, canonical_json-Same}
use open_clause.Tests.Fixtures.{no_unicode, request}

normalize_and_validate-IsAcceptable_example :
    (normalize_and_validate no_unicode 9 request ≡ ok request) ↔ (
      IsAcceptable (normalize no_unicode request)
      × (request ≡ completed 9 (normalize no_unicode request)))
normalize_and_validate-IsAcceptable_example =
    normalize_and_validate-IsAcceptable no_unicode 9 request request

accepted : normalize_and_validate no_unicode 9 request ≡ ok request
unfolding normalize_and_validate valid_tool_action to_lower trim_space text text_dec
accepted = refl

normalize_and_validate_again_example : normalize_and_validate no_unicode 12 request ≡ ok request
normalize_and_validate_again_example =
    normalize_and_validate_again no_unicode 9 12 request (λ h. ground arith) accepted

b≢a : text "b" ≢ text "a"
unfolding text
b≢a h = ground arith

canonical_json-Same_example :
    canonical_json (ok (obj (field (text "b") null (field (text "a") (str (text "x")) end))))
    ≡ canonical_json (ok (obj (field (text "a") (str (text "x")) (field (text "b") null end))))
canonical_json-Same_example =
    canonical_json-Same
      (Same.maps (SameFields.exchange (text "b") (text "a") null (str (text "x")) end (b≢a)))
