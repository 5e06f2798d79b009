-- ===== src/Approvals/Store/Grants.antt =====
-- `GrantRequest`, `FindAndConsumeGrant` and `matchResource`. `path.Match` is a parameter: whether
-- a text matches a pattern, or `none` for a pattern that is not well formed.
use open_clause.Base.{
  ℕ, ◌+◌, ◌-◌, ◌*◌, ◌%◌, ◌^◌, Bool, true, false, ◌&&◌, ◌||◌, Option, none, some, List, [], ◌∷◌,
  ◌++◌, Text, text, ◌==◌, is_empty, Result, ok, err, Faults, call, ◌>>=◌, ◌>>◌, ltb, leb,
  if◌then◌else◌, select,
}
use open_clause.Base.Int.{ℤ, pos, ltb_ℤ, pos_part}
use open_clause.Base.Sort.{order_by}
use open_clause.Types.ToolCall.{Time}
use open_clause.Approvals.Model
use open_clause.Approvals.Store.Requests.{update_requests, find_request, is_pending, nanoseconds}

-- `time.Duration(sec) * time.Second` in 64 bits, by its bit pattern.
unfoldable pub seconds : ℕ → ℕ
seconds sec = sec * 1000000000 % 2 ^ 64

-- `t.Add(d)` for a duration given by its bit pattern: from 2^63 on it is negative. No time lies
-- before the zero time.
unfoldable pub add_duration : Time → ℕ → Time
add_duration t d = if ltb d (2 ^ 63) then t + d else t - (2 ^ 64 - d)

-- The default of one use.
unfoldable pub grant_uses : ℤ → ℕ
grant_uses max_uses = if ltb_ℤ (pos 0) max_uses then pos_part max_uses else 1

-- The default of one hour.
unfoldable pub grant_expiry : Time → ℤ → Time
unfolding seconds add_duration
grant_expiry now sec =
    if ltb_ℤ (pos 0) sec then add_duration now (seconds (pos_part sec)) else now + nanoseconds 3600

abbrev pub new_grant : Text → Time → Model.GrantInput → Model.ApprovalRequest → Model.ApprovalGrant
new_grant id now i r = record {
  id = id;
  request_id = r.id;
  tenant_id = r.tenant_id;
  approver = i.approver;
  scope = record {
    tool = r.tool;
    action = r.action;
    resource_pattern = if is_empty i.resource_pattern then r.resource else i.resource_pattern;
    tenant_id = r.tenant_id;
    agent_id = r.agent_id;
  };
  max_uses = grant_uses i.max_uses;
  uses_left = grant_uses i.max_uses;
  expires_at = grant_expiry now i.expires_in_sec;
  granted_at = now;
}

unfoldable pub has_grant : Text → List Model.ApprovalGrant → Bool
has_grant id [] = false
has_grant id (g ∷ rows) = g.id == id || has_grant id rows

-- `INSERT INTO approval_grants`: the primary key and the range of the INTEGER columns.
unfoldable pub insert_grant :
    Model.ApprovalGrant → List Model.ApprovalGrant → Result Text (List Model.ApprovalGrant)
insert_grant g rows =
    if has_grant g.id rows
    then err (text "approvals.GrantRequest insert: approval_grants_pkey")
    else if ltb 2147483647 g.max_uses
    then err (text "approvals.GrantRequest insert: integer out of range")
    else ok (rows ++ (g ∷ []))

-- The UPDATE of `GrantRequest`.
unfoldable pub approve_rows :
    Text → Time → List Model.ApprovalRequest → List Model.ApprovalRequest × Bool
unfolding update_requests
approve_rows id now =
    update_requests (λ r. r.id == id && is_pending r.status && ltb now r.expires_at)
      (λ r. record r { status = Model.Status.approved })

unfoldable pub fetch : Option Model.ApprovalRequest → Result Text Model.ApprovalRequest
fetch none = err (text "approvals.GrantRequest fetch: no rows in result set")
fetch (some r) = ok r

-- The test of `RowsAffected`.
abbrev affected : Bool → Text → Result Text (Unit {0})
affected true id = ok tt
affected false id =
    err (text "approval request " ++ (id ++ text " not found, not pending, or expired"))

-- The transaction of `GrantRequest`. The database's clock and the service's are the same here.
unfoldable pub grant_request_tx :
    Faults
    → Text
    → Time
    → Text
    → Model.GrantInput
    → Model.Db
    → Result Text (Model.ApprovalGrant × Model.Db)
grant_request_tx f grant_id now id i db = do
  let (requests, hit) = approve_rows id now db.requests
  call (f 0) (text "approvals.GrantRequest begin tx: ")
  call (f 1) (text "approvals.GrantRequest update: ")
  affected hit id
  call (f 2) (text "approvals.GrantRequest fetch: ")
  r ← fetch (find_request id requests)
  let grant = new_grant grant_id now i r
  call (f 3) (text "approvals.GrantRequest insert: ")
  grants ← insert_grant grant db.grants
  call (f 4) (text "approvals.GrantRequest commit: ")
  ok (grant, record db { requests = requests; grants = grants })

-- `GrantRequest`.
unfoldable pub grant_request :
    Faults
    → Text
    → Time
    → Text
    → Model.GrantInput
    → Model.Db
    → Result Text Model.ApprovalGrant × Model.Db
grant_request f grant_id now id i db =
    if is_empty i.approver
    then (err (text "approvals.GrantRequest: approver is required"), db)
    else elim (grant_request_tx f grant_id now id i db) [
      | err e ↦ (err e, db)
      | ok (grant, db') ↦ (ok grant, db')
    ]

-- What `FindAndConsumeGrant` is asked for.
pub record Wanted : Type 0 where
  pub tenant_id : Text
  pub agent_id : Text
  pub tool : Text
  pub action : Text
  pub resource : Text

abbrev pub star : Text
star = text "*"

-- The WHERE clause of the candidates.
unfoldable pub is_candidate : Wanted → Time → Model.ApprovalGrant → Bool
is_candidate w now g =
    g.tenant_id == w.tenant_id
    && ltb 0 g.uses_left
    && ltb now g.expires_at
    && (g.scope.tool == w.tool || g.scope.tool == star)
    && (g.scope.action == w.action || g.scope.action == star)
    && (is_empty g.scope.agent_id || g.scope.agent_id == w.agent_id)

-- `ORDER BY granted_at DESC`.
abbrev pub newer : Model.ApprovalGrant → Model.ApprovalGrant → Bool
newer a b = leb b.granted_at a.granted_at

-- `UPDATE approval_grants SET uses_left = uses_left - 1 WHERE id = $1`.
unfoldable pub consume : Text → List Model.ApprovalGrant → List Model.ApprovalGrant
consume id [] = []
consume id (g ∷ rows) =
    (if g.id == id then record g { uses_left = g.uses_left - 1 } else g) ∷ consume id rows

module _ (path_match : Text → Text → Option Bool) where
  abbrev matched : Option Bool → Bool
  matched none = false
  matched (some m) = m

  -- `matchResource`.
  unfoldable pub match_resource : Text → Text → Bool
  match_resource pattern resource =
      if is_empty pattern || pattern == star then true else matched (path_match pattern resource)

  -- The loop over the rows: the first whose pattern matches.
  unfoldable pub first_match : Text → List Model.ApprovalGrant → Option Model.ApprovalGrant
  first_match resource [] = none
  first_match resource (g ∷ rows) =
      if match_resource g.scope.resource_pattern resource then some g else first_match resource rows

  unfoldable pub candidates : Wanted → Time → List Model.ApprovalGrant → List Model.ApprovalGrant
  unfolding is_candidate
  candidates w now rows = order_by newer (select (is_candidate w now) rows)

  -- The transaction of `FindAndConsumeGrant`: the grant that was used, with the uses that are left.
  unfoldable pub consume_grant_tx :
      Faults → Wanted → Time → Model.Db → Result Text (Option Model.ApprovalGrant × Model.Db)
  consume_grant_tx f w now db = do
    call (f 0) (text "approvals.FindAndConsumeGrant begin: ")
    call (f 1) (text "approvals.FindAndConsumeGrant query: ")
    call (f 2) (text "approvals.FindAndConsumeGrant scan: ")
    elim (first_match w.resource (candidates w now db.grants)) [
      | none ↦ do call (f 5) (text "approvals.FindAndConsumeGrant iteration: "); ok (none, db)
      | some g ↦ do
        call (f 3) (text "approvals.FindAndConsumeGrant update: ")
        call (f 4) (text "approvals.FindAndConsumeGrant commit: ")
        ok (
          some (record g { uses_left = g.uses_left - 1 }),
          record db { grants = consume g.id db.grants },
        )
    ]

  -- `FindAndConsumeGrant`.
  unfoldable pub find_and_consume_grant :
      Faults → Wanted → Time → Model.Db → Result Text (Option Model.ApprovalGrant) × Model.Db
  find_and_consume_grant f w now db = elim (consume_grant_tx f w now db) [
    | err e ↦ (err e, db)
    | ok (g, db') ↦ (ok g, db')
  ]
