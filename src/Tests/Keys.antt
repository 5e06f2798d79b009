-- ===== src/Tests/Keys.antt =====
-- A key, an approver and a policy decision that are accepted.
use open_clause.Base.{
  ◌≡◌, refl, true, false, none, some, [], Text, text, text_dec, is_empty, split, cut, trim_space,
  to_lower, ok,
}
use open_clause.Base.Dict
use open_clause.Types.Policy.{allow}
use open_clause.Auth.{
  entry, add_entry, add_entries, new_key_store, lookup, Request, passed, is_skipped, api_key_of,
  api_key_auth,
}
use open_clause.Auth.Keyed.{Any, IsConfigured, api_key_auth-IsConfigured}
use open_clause.Approvals.Authorizer
use open_clause.Approvals.Authorizer.{
  canonical, values_of, tenant_entry, add_values, add_all, parse_tenant_list,
}
use open_clause.Approvals.Authorizer.Listed.{IsListed, allow-IsListed}
use open_clause.Policy.{
  Exchange, OpaAnswer, OpaResult, is_valid_decision, policy_result, read_answer, evaluate,
}
use open_clause.Policy.Valid.{evaluate-closed}
use open_clause.Tests.Fixtures.{no_unicode, keep}

abbrev keys : Text
keys = text "t1:k1, t2:k2"

abbrev keyed : Request
keyed = record { path = text "/v1/toolcalls"; x_api_key = text "k2"; authorization = [] }

passes : api_key_auth keep (new_key_store keep no_unicode keys) keyed ≡ passed (some (text "t2"))
unfolding api_key_auth new_key_store entry add_entries trim_space text text_dec is_skipped
    api_key_of lookup Dict.lookup split add_entry cut Dict.insert
passes = refl

api_key_auth-IsConfigured_example :
    (is_empty (api_key_of keyed) ≡ false)
    × Any (IsConfigured keep no_unicode (keep (api_key_of keyed)) (text "t2")) (split b',' keys)
api_key_auth-IsConfigured_example = api_key_auth-IsConfigured keep no_unicode keys keyed passes

abbrev approvers : Text
approvers = text "t1:ann@x.org|bob@x.org,t2:eve@x.org"

may_approve :
    Authorizer.allow no_unicode
      (parse_tenant_list no_unicode approvers)
      (text "t1")
      (text "Bob@x.org ")
    ≡ true
unfolding Authorizer.allow parse_tenant_list canonical trim_space to_lower text text_dec Dict.lookup
    add_all split add_values tenant_entry cut Dict.insert values_of
may_approve = refl

allow-IsListed_example :
    (is_empty (text "Bob@x.org ") ≡ false)
    × Any
        (IsListed no_unicode (text "t1") (canonical no_unicode (text "Bob@x.org ")))
        (split b',' approvers)
allow-IsListed_example =
    allow-IsListed no_unicode approvers (text "t1") (text "Bob@x.org ") may_approve

abbrev opa_result : OpaResult
opa_result = record {
  decision = text "allow";
  reason = [];
  requirements = [];
  notify = [];
  approver_group = [];
}

abbrev exchange : Exchange
exchange = record {
  marshal = none;
  new_request = none;
  sent = ok (record { status_code = 200; body = []; decoded = ok opa_result });
  decimal = λ n. [];
}

evaluates : evaluate exchange ≡ ok (policy_result opa_result)
unfolding evaluate read_answer
evaluates = refl

evaluate-closed_example :
    (is_valid_decision (policy_result opa_result).decision ≡ true)
    × ((policy_result opa_result).decision ≡ allow
        → (a : OpaAnswer) × (r : OpaResult) × (exchange.sent ≡ ok a)
          × (a.status_code ≡ 200)
          × (a.decoded ≡ ok r)
          × (r.decision ≡ text "allow"))
evaluate-closed_example = evaluate-closed exchange evaluates
