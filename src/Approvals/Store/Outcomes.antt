-- ===== src/Approvals/Store/Outcomes.antt =====
-- What each operation on requests and grants may do to the tables.
use open_clause.Base.{
  ℕ, ◌<◌, ◌≡◌, ◌⊎◌, inl, inr, Bool-cases, Result-cases, Option-cases, Bool, true, false, Option,
  some, [], ◌∷◌, ◌++◌, Text, ok, arith, if◌then◌else◌, Faults, is_empty,
}
use open_clause.Types.ToolCall.{Time}
use open_clause.Evidence.Store.Tables.{Db as EvidenceDb}
use open_clause.Approvals.Model
use open_clause.Approvals.Model.{Status}
use open_clause.Approvals.Store.Requests.{
  has_request, find_request, create_request, create_request_tx, insert_request, new_request,
  deny_request, deny_rows,
}
use open_clause.Approvals.Store.Grants.{
  approve_rows, grant_request, grant_request_tx, new_grant, insert_grant, fetch, consume,
  find_and_consume_grant, consume_grant_tx, first_match, candidates, Wanted,
}
use open_clause.Approvals.Store.Rows.{
  Distinct, hit-approve_rows, find_request-approve_rows, approve, may_approve,
}

-- What a successful transaction of `GrantRequest` found and left.
pub record IsGranted (now : Time) (id : Text) (i : Model.GrantInput) (db db' : Model.Db)
    (g : Model.ApprovalGrant) : Type 0 where
  pub request : Model.ApprovalRequest
  pub found : find_request id db.requests ≡ some request
  pub pending : request.status ≡ Status.pending
  pub current : now < request.expires_at
  pub approved : find_request id db'.requests ≡ some (record request { status = Status.approved })
  pub scope : g ≡ new_grant g.id now i (record request { status = Status.approved })
  pub requests : db'.requests ≡ (approve_rows id now db.requests).0
  pub grants : db'.grants ≡ db.grants ++ (g ∷ [])

pub grant_request_tx-IsGranted :
    (f : Faults) (grant_id : Text) (now : Time) (id : Text) (i : Model.GrantInput) (db : Model.Db)
    {g : Model.ApprovalGrant} {db' : Model.Db}
    → Distinct db.requests
    → grant_request_tx f grant_id now id i db ≡ ok (g, db')
    → IsGranted now id i db db' g
unfolding grant_request_tx fetch insert_grant
grant_request_tx-IsGranted f grant_id now id i db {g} {db'} d h =
    let (r, found, passes) = hit-approve_rows id now db.requests d (ground arith) in
    let after = find_request-approve_rows id now id db.requests found in
    granted r found passes after
  where
    granted :
        (r : Model.ApprovalRequest)
        → find_request id db.requests ≡ some r
        → may_approve id now r ≡ true
        → find_request id (approve_rows id now db.requests).0
          ≡ some (if may_approve id now r then approve id now r else r)
        → IsGranted now id i db db' g
    granted r found passes after = record {
      request = r;
      found = found;
      pending = ground arith;
      current = ground arith;
      approved = ground arith;
      scope = ground arith;
      requests = ground arith;
      grants = ground arith;
    }

-- `CreateRequest` adds one pending request with a fresh id, or it changes nothing.
pub create_request-cases :
    (ev : EvidenceDb) (f : Faults) (ids : ℕ → Text) (now : Time) (i : Model.CreateApprovalInput)
    (db : Model.Db)
    → let db' = (create_request ev f ids now i db).1 in
      (db' ≡ db)
      ⊎ ((has_request (ids 0) db.requests ≡ false)
          × (db'.requests ≡ db.requests ++ (new_request (ids 0) now i ∷ []))
          × (db'.grants ≡ db.grants))
unfolding create_request create_request_tx insert_request
create_request-cases ev f ids now i db = ground arith

pub grant_request-cases :
    (f : Faults) (grant_id : Text) (now : Time) (id : Text) (i : Model.GrantInput) (db : Model.Db)
    → Distinct db.requests
    → let db' = (grant_request f grant_id now id i db).1 in
      (db' ≡ db) ⊎ ((g : Model.ApprovalGrant) × IsGranted now id i db db' g)
unfolding grant_request
grant_request-cases f grant_id now id i db d =
    elim (Result-cases (grant_request_tx f grant_id now id i db)) [
      | inr (e, p) ↦ inl (ground arith)
      | inl (r, p) ↦ elim (Bool-cases (is_empty i.approver)) [
        | inl e ↦ inl (ground arith)
        | inr e ↦
            inr (
              r.0,
              rw (e, p, grant_request) (grant_request_tx-IsGranted f grant_id now id i db d p),
            )
      ]
    ]

-- `FindAndConsumeGrant` touches no request, and no grant but one.
pub find_and_consume_grant-cases :
    (path_match : Text → Text → Option Bool) (f : Faults) (w : Wanted) (now : Time) (db : Model.Db)
    → let db' = (find_and_consume_grant path_match f w now db).1 in
      (db'.requests ≡ db.requests)
      × ((db'.grants ≡ db.grants) ⊎ ((id : Text) × (db'.grants ≡ consume id db.grants)))
unfolding find_and_consume_grant consume_grant_tx
find_and_consume_grant-cases path_match f w now db =
    elim (Option-cases
      (first_match path_match w.resource (candidates path_match w now db.grants))) [
        | inl e ↦ ground arith
        | inr (g, e) ↦ elim (Result-cases (consume_grant_tx path_match f w now db)) [
          | inr (x, p) ↦ (ground arith, inl (ground arith))
          | inl (r, p) ↦ (ground arith, inr (g.id, ground arith))
        ]
      ]

pub deny_request-cases :
    (f : Faults) (id : Text) (i : Model.DenyInput) (db : Model.Db)
    → let db' = (deny_request f id i db).1 in
      (db' ≡ db) ⊎ ((db'.requests ≡ (deny_rows id i db.requests).0) × (db'.grants ≡ db.grants))
unfolding deny_request
deny_request-cases f id i db = ground arith
