-- ===== src/Approvals/Store/Lifecycle.antt =====
-- The life of an approval request: what each operation of the store may do to the tables, and
-- what holds in every state that the operations reach.
use open_clause.Base.{
  ℕ, ◌≤◌, ◌<◌, ◌≡◌, inl, inr, refl, ap, ◌∙◌, Bool, false, Option, some, List, [], ◌∷◌, Text, arith,
  Faults, text_dec,
}
use native.Mathlib.Decide.{dec_lt}
use open_clause.Types.ToolCall.{Time}
use open_clause.Evidence.Store.Tables.{Db as EvidenceDb}
use open_clause.Approvals.Model
use open_clause.Approvals.Model.{Status}
use open_clause.Approvals.Store.Requests.{
  find_request, is_pending, create_request, new_request, deny_request,
}
use open_clause.Approvals.Store.Grants.{grant_request, consume, find_and_consume_grant, Wanted}
use open_clause.Approvals.Store.Rows.{
  Distinct, grants_of, grants_of-append, id-find_request, find_request-absent, find_request-append,
  Distinct-append, find_request-approve_rows, Distinct-approve_rows, approve,
  find_request-deny_rows, Distinct-deny_rows,
}
use open_clause.Approvals.Store.Outcomes.{
  IsGranted, create_request-cases, grant_request-cases, find_and_consume_grant-cases,
  deny_request-cases,
}

-- The request of an id has a status.
abbrev pub Has : Text → Status → Model.Db → Type 0
Has id s db = (r : Model.ApprovalRequest) × (find_request id db.requests ≡ some r) × (r.status ≡ s)

-- A call of one of the operations on requests and grants, with all that the environment chooses:
-- the failures of the driver, fresh ids, the time and the arguments.
pub data Step (path_match : Text → Text → Option Bool) (db : Model.Db) : Model.Db → Type 0 where
  create :
      (ev : EvidenceDb) (f : Faults) (ids : ℕ → Text) (now : Time) (i : Model.CreateApprovalInput)
      → Step path_match db (create_request ev f ids now i db).1
  grant :
      (f : Faults) (grant_id : Text) (now : Time) (id : Text) (i : Model.GrantInput)
      → Step path_match db (grant_request f grant_id now id i db).1
  deny :
      (f : Faults) (id : Text) (i : Model.DenyInput) → Step path_match db (deny_request f id i db).1
  use_grant :
      (f : Faults) (w : Wanted) (now : Time)
      → Step path_match db (find_and_consume_grant path_match f w now db).1

pub data Reach (path_match : Text → Text → Option Bool) (db : Model.Db) : Model.Db → Type 0 where
  here : Reach path_match db db
  next :
      {db1 db2 : Model.Db}
      → Reach path_match db db1
      → Step path_match db1 db2
      → Reach path_match db db2

-- What holds in every state: the ids of the requests are distinct, a request has at most one
-- grant, and one with a grant is approved.
pub record IsSound (db : Model.Db) : Type 0 where
  pub distinct : Distinct db.requests
  pub single : (id : Text) → grants_of id db.grants ≤ 1
  pub approved_first : (id : Text) → 0 < grants_of id db.grants → Has id Status.approved db

-- Approved, denied and expired requests stay as they are.
abbrev pub IsFinal : Status → Type 0
IsFinal Status.pending = ⊥
IsFinal _ = Unit

final_not_pending : (s : Status) → IsFinal s → is_pending s ≡ false
final_not_pending Status.pending h = absurd h
final_not_pending Status.approved h = refl
final_not_pending Status.denied h = refl
final_not_pending Status.expired h = refl

grants_of-consume :
    (id g : Text) (rows : List Model.ApprovalGrant)
    → grants_of id (consume g rows) ≡ grants_of id rows
unfolding consume
grants_of-consume id g [] = refl
grants_of-consume id g (x ∷ rows) = ground (arith, grants_of-consume id g rows)

module _ (path_match : Text → Text → Option Bool) where
  -- In a sound state no operation changes the status of a request that is no longer pending.
  pub Step-final :
      (id : Text) (s : Status) {db db' : Model.Db}
      → IsSound db
      → IsFinal s
      → Has id s db
      → Step path_match db db'
      → Has id s db'
  Step-final id s {db} v fin (r, e, st) (create ev f ids now i) =
      elim (create_request-cases ev f ids now i db) [
        | inl same ↦ rw same (r, e, st)
        | inr (fresh, added, _) ↦ (
          r,
          rw added (
              ground (
                arith,
                e,
                find_request-absent id db.requests,
                find_request-append id db.requests (new_request (ids 0) now i) fresh,
              )),
          st,
        )
      ]
  Step-final id s {db} v fin (r, e, st) (grant f grant_id now j i) =
      elim (grant_request-cases f grant_id now j i db v.distinct) [
        | inl same ↦ rw same (r, e, st)
        | inr (g, a) ↦ (
          r,
          rw a.requests (
              find_request-approve_rows j now id db.requests e
              ∙ ap some (ground (arith, final_not_pending r.status (rw st fin)))),
          st,
        )
      ]
  Step-final id s {db} v fin (r, e, st) (deny f j i) = elim (deny_request-cases f j i db) [
    | inl same ↦ rw same (r, e, st)
    | inr (changed, _) ↦ (
      r,
      rw changed (
          find_request-deny_rows j i id db.requests e
          ∙ ap some (ground (arith, final_not_pending r.status (rw st fin)))),
      st,
    )
  ]
  Step-final id s {db} v fin (r, e, st) (use_grant f w now) =
      (r, rw ((find_and_consume_grant-cases path_match f w now db).0) e, st)

  IsFinal-approved : IsFinal Status.approved
  IsFinal-approved = tt

  Step-Distinct : {db db' : Model.Db} → IsSound db → Step path_match db db' → Distinct db'.requests
  Step-Distinct {db} v (create ev f ids now i) = elim (create_request-cases ev f ids now i db) [
    | inl same ↦ rw same v.distinct
    | inr (fresh, added, _) ↦
        rw added (Distinct-append db.requests (new_request (ids 0) now i) fresh v.distinct)
  ]
  Step-Distinct {db} v (grant f grant_id now j i) =
      elim (grant_request-cases f grant_id now j i db v.distinct) [
        | inl same ↦ rw same v.distinct
        | inr (g, a) ↦ rw a.requests (Distinct-approve_rows j now db.requests v.distinct)
      ]
  Step-Distinct {db} v (deny f j i) = elim (deny_request-cases f j i db) [
    | inl same ↦ rw same v.distinct
    | inr (changed, _) ↦ rw changed (Distinct-deny_rows j i db.requests v.distinct)
  ]
  Step-Distinct {db} v (use_grant f w now) =
      rw ((find_and_consume_grant-cases path_match f w now db).0) v.distinct

  -- Where the grants of a request do not grow, what holds of them is kept.
  kept :
      {db db' : Model.Db} (id : Text)
      → IsSound db
      → Step path_match db db'
      → grants_of id db'.grants ≡ grants_of id db.grants
      → (grants_of id db'.grants ≤ 1) × (0 < grants_of id db'.grants → Has id Status.approved db')
  kept id v step same = (
    omega (arith, v.single id),
    λ p. Step-final id Status.approved v tt (v.approved_first id (omega arith)) step,
  )

  no_grant :
      {db : Model.Db} (id : Text)
      → IsSound db
      → (r : Model.ApprovalRequest) → find_request id db.requests ≡ some r
      → r.status ≡ Status.pending
      → grants_of id db.grants ≡ 0
  no_grant {db} id v r found st = elim (dec_lt 0 (grants_of id db.grants)) [
    | no p ↦ omega arith
    | yes p ↦
        let (r', found', st') = v.approved_first id p in
        absurd (ground (arith, found, found', st, st'))
  ]

  Step-grants :
      {db db' : Model.Db} (id : Text)
      → IsSound db
      → Step path_match db db'
      → (grants_of id db'.grants ≤ 1) × (0 < grants_of id db'.grants → Has id Status.approved db')
  Step-grants {db} id v (create ev f ids now i) =
      kept id v (create ev f ids now i) (elim (create_request-cases ev f ids now i db) [
        | inl same ↦ rw same
        | inr (_, _, same) ↦ rw same
      ])
  Step-grants {db} id v (grant f grant_id now j i) =
      elim (grant_request-cases f grant_id now j i db v.distinct) [
        | inl same ↦ kept id v (grant f grant_id now j i) (rw same)
        | inr (g, a) ↦ granted g a (text_dec g.request_id id)
      ]
    where
      granted :
          (g : Model.ApprovalGrant)
          → IsGranted now j i db (grant_request f grant_id now j i db).1 g
          → Dec (g.request_id ≡ id)
          → let db' = (grant_request f grant_id now j i db).1 in
            (grants_of id db'.grants ≤ 1)
            × (0 < grants_of id db'.grants → Has id Status.approved db')
      granted g a (no other) =
          kept id v (grant f grant_id now j i)
            (rw a.grants (ground (arith, grants_of-append id db.grants g)))
      granted g a (yes same) =
          let named : j ≡ id =
            ground (arith, a.scope, same, id-find_request j db.requests {r = a.request} a.found) in
          (
            rw a.grants (
                ground (
                  arith,
                  same,
                  grants_of-append id db.grants g,
                  no_grant id v a.request (rw (← named) a.found) a.pending,
                )),
            λ p. (approve j now a.request, rw (← named) a.approved, refl),
          )
  Step-grants {db} id v (deny f j i) =
      kept id v (deny f j i)
        (elim (deny_request-cases f j i db) [ inl same ↦ rw same | inr (_, same) ↦ rw same ])
  Step-grants {db} id v (use_grant f w now) =
      kept id v (use_grant f w now) (elim ((find_and_consume_grant-cases path_match f w now db).1) [
        | inl same ↦ rw same
        | inr (g, used) ↦ rw used (grants_of-consume id g db.grants)
      ])

  Step-IsSound : {db db' : Model.Db} → IsSound db → Step path_match db db' → IsSound db'
  Step-IsSound v step = record {
    distinct = Step-Distinct v step;
    single = λ id. (Step-grants id v step).0;
    approved_first = λ id. (Step-grants id v step).1;
  }

  -- Whatever operations run, in any order and with any failures, a sound state stays sound: the
  -- ids of the requests are distinct, no request gets a second grant, and every request that has
  -- a grant is approved.
  pub Reach-IsSound : {db db' : Model.Db} → IsSound db → Reach path_match db db' → IsSound db'
  Reach-IsSound v here = v
  Reach-IsSound v (next r step) = Step-IsSound (Reach-IsSound v r) step

  -- From a sound state, a request that is approved, denied or expired keeps that status whatever
  -- operations run afterwards: a denied request is never approved, nor an approved one denied.
  pub Reach-final :
      (id : Text) (s : Status) {db db' : Model.Db}
      → IsSound db
      → IsFinal s
      → Has id s db
      → Reach path_match db db'
      → Has id s db'
  Reach-final id s v fin h here = h
  Reach-final id s v fin h (next r step) =
      Step-final id s (Reach-IsSound v r) fin (Reach-final id s v fin h r) step
