-- ===== src/Approvals/Store/Accepted.antt =====
-- When the operations that decide on a request succeed.
use open_clause.Base.{
  ℕ, ◌≡◌, ◌<◌, ◌≤◌, Bool, true, false, none, some, List, [], ◌∷◌, Text, is_empty, Faults, ok, arith,
}
use open_clause.Types.ToolCall.{Time}
use open_clause.Approvals.Model
use open_clause.Approvals.Model.{Status}
use open_clause.Approvals.Store.Requests.{find_request, update_requests, deny_request, deny_rows}
use open_clause.Approvals.Store.Grants.{
  grant_request, grant_request_tx, approve_rows, fetch, insert_grant, new_grant, grant_uses,
  has_grant,
}
use open_clause.Approvals.Store.Rows.{
  may_approve, approve, may_deny, deny, id-find_request, find_request-approve_rows,
}

-- An UPDATE whose test the row of an id passes affects a row.
hit_of_find_request :
    (p : Model.ApprovalRequest → Bool) (g : Model.ApprovalRequest → Model.ApprovalRequest)
    (id : Text) (rows : List Model.ApprovalRequest) {r : Model.ApprovalRequest}
    → find_request id rows ≡ some r
    → p r ≡ true
    → (update_requests p g rows).1 ≡ true
unfolding find_request update_requests
hit_of_find_request p g id [] e h = absurd (ground arith)
hit_of_find_request p g id (x ∷ rows) {r} e h =
    ground (arith, hit_of_find_request p g id rows {r = r})

module _ (f : Faults) (sound : (k : ℕ) → f k ≡ none) (id : Text) (db : Model.Db)
    {r : Model.ApprovalRequest} (found : find_request id db.requests ≡ some r)
    (pending : r.status ≡ Status.pending) where
  -- A pending request that has not expired is granted, if nothing fails.
  pub grant_request-accepted :
      (grant_id : Text) (now : Time) (i : Model.GrantInput)
      → now < r.expires_at
      → is_empty i.approver ≡ false
      → has_grant grant_id db.grants ≡ false
      → grant_uses i.max_uses ≤ 2147483647
      → (grant_request f grant_id now id i db).0 ≡ ok (new_grant grant_id now i (approve id now r))
  unfolding grant_request grant_request_tx fetch insert_grant approve_rows
  grant_request-accepted grant_id now i current named fresh few =
      let passes : may_approve id now r ≡ true =
        ground (arith, id-find_request id db.requests {r = r} found) in
      let hit =
        hit_of_find_request (may_approve id now) (approve id now) id db.requests found passes in
      let after = find_request-approve_rows id now id db.requests found in
      ground (arith, hit, after, sound 0, sound 1, sound 2, sound 3, sound 4)

  pub deny_request-accepted :
      (i : Model.DenyInput) → is_empty i.approver ≡ false → (deny_request f id i db).0 ≡ ok tt
  unfolding deny_request deny_rows
  deny_request-accepted i named =
      let passes : may_deny id i r ≡ true =
        ground (arith, id-find_request id db.requests {r = r} found) in
      let hit = hit_of_find_request (may_deny id i) (deny id i) id db.requests found passes in
      ground (arith, hit, sound 0)
