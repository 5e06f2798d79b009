-- ===== src/Approvals/Store/Decisions.antt =====
-- What an operation that decides on a request found and left, and what no operation changes of a
-- request.
use open_clause.Base.{
  ◌≡◌, inl, inr, refl, Bool-cases, Result-cases, Bool, true, Option, some, List, Text, ok, err,
  arith, Faults, ℕ, is_empty, if◌then◌else◌, ◌∙◌,
}
use open_clause.Types.ToolCall.{Time}
use open_clause.Approvals.Model
use open_clause.Approvals.Model.{Status}
use open_clause.Evidence.Store.Tables.{Db as EvidenceDb}
use open_clause.Approvals.Store.Requests.{
  create_request, create_request_tx, insert_request, find_request, deny_request, deny_rows,
  new_request,
}
use open_clause.Approvals.Store.Grants.{grant_request, grant_request_tx}
use open_clause.Approvals.Store.Rows.{
  Distinct, deny, may_deny, hit-update, find_request-deny_rows, find_request-approve_rows,
  find_request-append, find_request-absent, approve, may_approve,
}
use open_clause.Approvals.Store.Outcomes.{
  IsGranted, grant_request_tx-IsGranted, create_request-cases, grant_request-cases,
  deny_request-cases, find_and_consume_grant-cases,
}
use open_clause.Approvals.Store.Lifecycle.{
  Step, Reach, create, grant, use_grant, here, next, IsSound, Reach-IsSound,
}
use open_clause.Approvals.Store.Lifecycle

pub create_request-ok :
    (ev : EvidenceDb) (f : Faults) (ids : ℕ → Text) (now : Time) (i : Model.CreateApprovalInput)
    (db : Model.Db) {r : Model.ApprovalRequest}
    → (create_request ev f ids now i db).0 ≡ ok r
    → (r.status ≡ Status.pending)
      × (find_request r.id (create_request ev f ids now i db).1.requests ≡ some r)
unfolding create_request create_request_tx insert_request
create_request-ok ev f ids now i db {r} h =
    let e : r ≡ new_request (ids 0) now i = ground arith in
    (rw e refl, ground (arith, find_request-append (ids 0) db.requests (new_request (ids 0) now i)))

pub create_request-err :
    (ev : EvidenceDb) (f : Faults) (ids : ℕ → Text) (now : Time) (i : Model.CreateApprovalInput)
    (db : Model.Db) {e : Text}
    → (create_request ev f ids now i db).0 ≡ err e
    → (create_request ev f ids now i db).1 ≡ db
unfolding create_request
create_request-err ev f ids now i db h = ground arith

-- What a successful `DenyRequest` found and left.
pub record IsDenied (id : Text) (i : Model.DenyInput) (db db' : Model.Db) : Type 0 where
  pub request : Model.ApprovalRequest
  pub found : find_request id db.requests ≡ some request
  pub pending : request.status ≡ Status.pending
  pub denied : find_request id db'.requests ≡ some (deny id i request)
  pub requests : db'.requests ≡ (deny_rows id i db.requests).0
  pub grants : db'.grants ≡ db.grants

hit-deny_rows :
    (id : Text) (i : Model.DenyInput) (rows : List Model.ApprovalRequest)
    → Distinct rows
    → (deny_rows id i rows).1 ≡ true
    → (r : Model.ApprovalRequest) × (find_request id rows ≡ some r) × (may_deny id i r ≡ true)
unfolding deny_rows
hit-deny_rows id i rows d h =
    hit-update (may_deny id i) (deny id i) (λ r. refl) id (λ r e. ground arith) rows d h

-- A grant that is answered was made, and an error leaves the tables as they are.
module _ (f : Faults) (grant_id : Text) (now : Time) (id : Text) (i : Model.GrantInput)
    (db : Model.Db) where
  pub grant_request-err :
      {e : Text}
      → (grant_request f grant_id now id i db).0 ≡ err e
      → (grant_request f grant_id now id i db).1 ≡ db
  unfolding grant_request
  grant_request-err h = ground arith

  pub grant_request-ok :
      {g : Model.ApprovalGrant}
      → Distinct db.requests
      → (grant_request f grant_id now id i db).0 ≡ ok g
      → IsGranted now id i db (grant_request f grant_id now id i db).1 g
  unfolding grant_request
  grant_request-ok {g} d h = elim (Bool-cases (is_empty i.approver)) [
    | inl q ↦ absurd (ground arith)
    | inr q ↦ elim (Result-cases (grant_request_tx f grant_id now id i db)) [
      | inr (e, p) ↦ absurd (ground arith)
      | inl (r, p) ↦
          let same : r.0 ≡ g = ground arith in
          rw (q, p, grant_request, ← same) (grant_request_tx-IsGranted f grant_id now id i db d p)
    ]
  ]

module _ (f : Faults) (id : Text) (i : Model.DenyInput) (db : Model.Db) where
  pub deny_request-err :
      {e : Text} → (deny_request f id i db).0 ≡ err e → (deny_request f id i db).1 ≡ db
  unfolding deny_request
  deny_request-err h = ground arith

  pub deny_request-ok :
      Distinct db.requests
      → (deny_request f id i db).0 ≡ ok tt
      → IsDenied id i db (deny_request f id i db).1
  unfolding deny_request
  deny_request-ok d h =
      let (r, found, passes) = hit-deny_rows id i db.requests d (ground arith) in
      denied r found passes (find_request-deny_rows id i id db.requests found)
    where
      denied :
          (r : Model.ApprovalRequest)
          → find_request id db.requests ≡ some r
          → may_deny id i r ≡ true
          → find_request id (deny_rows id i db.requests).0
            ≡ some (if may_deny id i r then deny id i r else r)
          → IsDenied id i db (deny_request f id i db).1
      denied r found passes after = record {
        request = r;
        found = found;
        pending = ground arith;
        denied = ground arith;
        requests = ground arith;
        grants = ground arith;
      }

-- The request of an id is there still, for the same event and tenant.
pub record IsSameCall (id : Text) (r : Model.ApprovalRequest) (db : Model.Db) : Type 0 where
  pub later : Model.ApprovalRequest
  pub found : find_request id db.requests ≡ some later
  pub tenant_id : later.tenant_id ≡ r.tenant_id
  pub event_id : later.event_id ≡ r.event_id

module _ (path_match : Text → Text → Option Bool) (id : Text) where
  Step-IsSameCall :
      {db db' : Model.Db} (r : Model.ApprovalRequest)
      → IsSound db
      → find_request id db.requests ≡ some r
      → Step path_match db db'
      → IsSameCall id r db'
  Step-IsSameCall {db} r v e (create ev f ids now i) =
      elim (create_request-cases ev f ids now i db) [
        | inl same ↦ rw same (record { later = r; found = e; tenant_id = refl; event_id = refl })
        | inr (fresh, added, _) ↦ record {
          later = r;
          found = rw added (
              ground (
                arith,
                e,
                find_request-absent id db.requests,
                find_request-append id db.requests (new_request (ids 0) now i) fresh,
              ));
          tenant_id = refl;
          event_id = refl;
        }
      ]
  Step-IsSameCall {db} r v e (grant f grant_id now j i) =
      elim (grant_request-cases f grant_id now j i db v.distinct) [
        | inl same ↦ rw same (record { later = r; found = e; tenant_id = refl; event_id = refl })
        | inr (g, a) ↦ record {
          later = if may_approve j now r then approve j now r else r;
          found = rw a.requests (find_request-approve_rows j now id db.requests e);
          tenant_id = ground arith;
          event_id = ground arith;
        }
      ]
  Step-IsSameCall {db} r v e (Lifecycle.Step.deny f j i) = elim (deny_request-cases f j i db) [
    | inl same ↦ rw same (record { later = r; found = e; tenant_id = refl; event_id = refl })
    | inr (changed, _) ↦ record {
      later = if may_deny j i r then deny j i r else r;
      found = rw changed (find_request-deny_rows j i id db.requests e);
      tenant_id = ground arith;
      event_id = ground arith;
    }
  ]
  Step-IsSameCall {db} r v e (use_grant f w now) = record {
    later = r;
    found = rw ((find_and_consume_grant-cases path_match f w now db).0) e;
    tenant_id = refl;
    event_id = refl;
  }

  -- No operation changes the event or the tenant of a request, nor takes one away.
  pub Reach-IsSameCall :
      {db db' : Model.Db} (r : Model.ApprovalRequest)
      → IsSound db
      → find_request id db.requests ≡ some r
      → Reach path_match db db'
      → IsSameCall id r db'
  Reach-IsSameCall r v e here = record { later = r; found = e; tenant_id = refl; event_id = refl }
  Reach-IsSameCall r v e (next rest step) =
      let before = Reach-IsSameCall r v e rest in
      let after =
        Step-IsSameCall before.later (Reach-IsSound path_match v rest) before.found step in
      record {
        later = after.later;
        found = after.found;
        tenant_id = after.tenant_id ∙ before.tenant_id;
        event_id = after.event_id ∙ before.event_id;
      }
