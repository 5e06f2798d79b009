-- ===== src/Tests/Granting.antt =====
-- A request that is denied, and a grant that is used.
use open_clause.Base.{
  ◌+◌, ◌<◌, ◌≡◌, refl, inl, inr, Bool, false, Option, none, some, List, [], ◌∷◌, Text, text,
  text_dec, Result, ok, arith,
}
use open_clause.Base.Sort.{order_by}
use open_clause.Base.Int.{pos}
use open_clause.Approvals.Model
use open_clause.Approvals.Model.{Status}
use open_clause.Approvals.Store.Requests.{has_request, find_request}
use open_clause.Approvals.Store.Grants.{
  Wanted, star, grant_expiry, has_grant, match_resource, grant_request, find_and_consume_grant,
  consume_grant_tx, candidates, first_match,
}
use open_clause.Approvals.Store.Candidates.{find_grant}
use open_clause.Approvals.Store.Uses.{
  IsUsable, IsUsed, find_and_consume_grant-IsUsed, find_and_consume_grant_complete,
}
use open_clause.Approvals.Store.Counts.{Call, run, run-uses_left}
use open_clause.Approvals.Store.Expiry.{grant_expiry_overflow}
use open_clause.Approvals.Store.Lifecycle.{Reach, Step, Has, IsSound, Reach-IsSound, Reach-final}
use open_clause.Tests.Fixtures.{no_faults}

-- No pattern but `*` matches more than its own text.
abbrev equal_match : Text → Text → Option Bool
equal_match pattern name = some false

abbrev pub grant : Model.ApprovalGrant
grant = record {
  id = text "g";
  request_id = text "1";
  tenant_id = text "t";
  approver = text "ann";
  scope = record {
    tool = text "jira";
    action = star;
    resource_pattern = star;
    tenant_id = text "t";
    agent_id = [];
  };
  max_uses = 2;
  uses_left = 2;
  expires_at = 100;
  granted_at = 10;
}

abbrev wanted : Wanted
wanted = record {
  tenant_id = text "t";
  agent_id = text "a";
  tool = text "jira";
  action = text "list";
  resource = text "r";
}

abbrev granted : Model.Db
granted = record { requests = []; grants = grant ∷ []; outbox = [] }

abbrev use_outcome : Result Text (Option Model.ApprovalGrant) × Model.Db
use_outcome = find_and_consume_grant equal_match no_faults wanted 20 granted

grant_is_used : use_outcome ≡ (ok (some (record grant { uses_left = 1 })), use_outcome.1)
unfolding find_and_consume_grant consume_grant_tx match_resource text text_dec first_match
    candidates order_by
grant_is_used = refl

find_and_consume_grant-IsUsed_example :
    IsUsed equal_match wanted 20 granted use_outcome.1 (record grant { uses_left = 1 })
unfolding has_grant
find_and_consume_grant-IsUsed_example =
    find_and_consume_grant-IsUsed equal_match no_faults wanted 20 granted (refl, tt) grant_is_used

is_found : find_grant (text "g") granted.grants ≡ some grant
unfolding find_grant text text_dec
is_found = refl

is_usable : IsUsable equal_match wanted 20 grant
unfolding match_resource text text_dec
is_usable = record {
  tenant = refl;
  left = omega arith;
  current = omega arith;
  tool = inl refl;
  action = inr refl;
  agent = inl refl;
  resource = refl;
}

find_and_consume_grant_complete_example :
    (used : Model.ApprovalGrant) × (db' : Model.Db) × (find_and_consume_grant equal_match
        (λ _. none)
        wanted
        20
        granted
      ≡ (ok (some used), db'))
find_and_consume_grant_complete_example =
    find_and_consume_grant_complete equal_match wanted 20 granted (text "g") grant is_found
      is_usable

abbrev calls : List Call
calls =
    record { faults = no_faults; wanted = wanted; now = 20 }
    ∷ record { faults = no_faults; wanted = wanted; now = 21 }
    ∷ record { faults = no_faults; wanted = wanted; now = 22 }
    ∷ []

run-uses_left_example :
    let (n, db') = run equal_match (text "g") calls granted in
    (g' : Model.ApprovalGrant) × (find_grant (text "g") db'.grants ≡ some g')
    × (n + g'.uses_left ≡ 2)
unfolding has_grant
run-uses_left_example = run-uses_left equal_match (text "g") calls granted grant (refl, tt) is_found

grant_expiry_overflow_example :
    grant_expiry 63000000000000000000 (pos 9223372037) < 63000000000000000000
grant_expiry_overflow_example =
    grant_expiry_overflow 63000000000000000000 9223372037 (omega arith) (omega arith) (omega arith)

abbrev denied_request : Model.ApprovalRequest
denied_request = record {
  id = text "1";
  event_id = text "e";
  tenant_id = text "t";
  agent_id = text "a";
  tool = text "jira";
  action = text "list";
  resource = text "r";
  risk_score = pos 1;
  reason = [];
  deny_reason = [];
  denied_by = text "ann";
  status = Status.denied;
  created_at = 10;
  expires_at = 100;
}

abbrev denied : Model.Db
denied = record { requests = denied_request ∷ []; grants = []; outbox = [] }

abbrev grant_input : Model.GrantInput
grant_input = record {
  approver = text "bob";
  max_uses = pos 1;
  expires_in_sec = pos 60;
  resource_pattern = [];
}

-- A grant is asked for the denied request.
asked :
    Reach equal_match denied (grant_request no_faults (text "g") 20 (text "1") grant_input denied).1
asked = Reach.next Reach.here (Step.grant no_faults (text "g") 20 (text "1") grant_input)

sound : IsSound denied
unfolding has_request
sound = record {
  distinct = (refl, tt);
  single = λ id. omega arith;
  approved_first = λ id h. absurd (omega arith);
}

Reach-IsSound_example :
    IsSound (grant_request no_faults (text "g") 20 (text "1") grant_input denied).1
Reach-IsSound_example = Reach-IsSound equal_match sound asked

is_denied : Has (text "1") Status.denied denied
unfolding find_request text text_dec
is_denied = (denied_request, refl, refl)

Reach-final_example :
    Has
      (text "1")
      Status.denied
      (grant_request no_faults (text "g") 20 (text "1") grant_input denied).1
Reach-final_example = Reach-final equal_match (text "1") Status.denied sound tt is_denied asked
