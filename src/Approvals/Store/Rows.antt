-- ===== src/Approvals/Store/Rows.antt =====
-- Lemmas on the rows of requests and grants.
use open_clause.Base.{
  ℕ, ◌+◌, ◌≡◌, refl, Bool-cases, inl, inr, Bool, true, false, ◌&&◌, ◌||◌, none, some, List, [], ◌∷◌,
  ◌++◌, Text, ◌==◌, arith, ltb, if◌then◌else◌,
}
use open_clause.Types.ToolCall.{Time}
use open_clause.Approvals.Model
use open_clause.Approvals.Store.Requests.{
  has_request, find_request, update_requests, is_pending, deny_rows,
}
use open_clause.Approvals.Store.Grants.{approve_rows}

-- No two requests have one id.
abbrev pub Distinct : List Model.ApprovalRequest → Type 0
Distinct [] = Unit
Distinct (r ∷ rows) = (has_request r.id rows ≡ false) × Distinct rows

-- How many grants were made for a request.
abbrev pub grants_of : Text → List Model.ApprovalGrant → ℕ
grants_of id [] = 0
grants_of id (g ∷ rows) = (if g.request_id == id then 1 else 0) + grants_of id rows

pub grants_of-append :
    (id : Text) (rows : List Model.ApprovalGrant) (g : Model.ApprovalGrant)
    → grants_of id (rows ++ (g ∷ [])) ≡ grants_of id rows + (if g.request_id == id then 1 else 0)
grants_of-append id [] g = ground arith
grants_of-append id (x ∷ rows) g = ground (arith, grants_of-append id rows g)

pub id-find_request :
    (id : Text) (rows : List Model.ApprovalRequest) {r : Model.ApprovalRequest}
    → find_request id rows ≡ some r
    → r.id ≡ id
unfolding find_request
id-find_request id [] h = absurd (ground arith)
id-find_request id (x ∷ rows) {r} h = ground (arith, id-find_request id rows {r = r})

pub find_request-absent :
    (id : Text) (rows : List Model.ApprovalRequest)
    → has_request id rows ≡ false
    → find_request id rows ≡ none
unfolding find_request has_request
find_request-absent id [] h = refl
find_request-absent id (x ∷ rows) h = ground (arith, find_request-absent id rows)

pub find_request-append :
    (id : Text) (rows : List Model.ApprovalRequest) (r : Model.ApprovalRequest)
    → has_request r.id rows ≡ false
    → find_request id (rows ++ (r ∷ [])) ≡ (if r.id == id then some r else find_request id rows)
unfolding find_request has_request
find_request-append id [] r h = refl
find_request-append id (x ∷ rows) r h = ground (arith, find_request-append id rows r)

pub Distinct-append :
    (rows : List Model.ApprovalRequest) (r : Model.ApprovalRequest)
    → has_request r.id rows ≡ false
    → Distinct rows
    → Distinct (rows ++ (r ∷ []))
unfolding has_request
Distinct-append [] r h d = ground arith
Distinct-append (x ∷ rows) r h d =
    ground (arith, Distinct-append rows r, has_request-append x.id rows r)
  where
    has_request-append :
        (id : Text) (rows : List Model.ApprovalRequest) (r : Model.ApprovalRequest)
        → has_request id (rows ++ (r ∷ [])) ≡ (has_request id rows || r.id == id)
    has_request-append id [] r = ground arith
    has_request-append id (x ∷ rows) r = ground (arith, has_request-append id rows r)

module _ (p : Model.ApprovalRequest → Bool) (g : Model.ApprovalRequest → Model.ApprovalRequest)
    (keeps : (r : Model.ApprovalRequest) → (g r).id ≡ r.id) where
  has_request-update :
      (id : Text) (rows : List Model.ApprovalRequest)
      → has_request id (update_requests p g rows).0 ≡ has_request id rows
  unfolding has_request update_requests
  has_request-update id [] = refl
  has_request-update id (r ∷ rows) = ground (arith, keeps r, has_request-update id rows)

  pub Distinct-update :
      (rows : List Model.ApprovalRequest) → Distinct rows → Distinct (update_requests p g rows).0
  unfolding update_requests
  Distinct-update [] d = tt
  Distinct-update (r ∷ rows) d =
      ground (arith, keeps r, has_request-update r.id rows, Distinct-update rows d.1)

  -- An UPDATE changes the row of a request only if the row passes the test.
  pub find_request-update :
      (id : Text) (rows : List Model.ApprovalRequest) {r : Model.ApprovalRequest}
      → find_request id rows ≡ some r
      → find_request id (update_requests p g rows).0 ≡ some (if p r then g r else r)
  unfolding find_request update_requests
  find_request-update id [] h = absurd (ground arith)
  find_request-update id (x ∷ rows) {r} h =
      ground (arith, keeps x, find_request-update id rows {r = r})

  -- If it affects a row, and the test names an id, it is the row of that id.
  pub hit-update :
      (id : Text)
      → ((r : Model.ApprovalRequest) → p r ≡ true → r.id ≡ id)
      → (rows : List Model.ApprovalRequest) → Distinct rows
      → (update_requests p g rows).1 ≡ true
      → (r : Model.ApprovalRequest) × (find_request id rows ≡ some r) × (p r ≡ true)
  unfolding find_request update_requests
  hit-update id named [] d h = absurd (ground arith)
  hit-update id named (x ∷ rows) d h = elim (Bool-cases (p x)) [
    | inl e ↦ (x, ground (arith, named x e), e)
    | inr e ↦
        let (r, found, passes) = hit-update id named rows d.1 (ground arith) in
        (r, ground (arith, found, d.0, find_request-absent x.id rows), passes)
  ]

module _ (id : Text) (now : Time) where
  abbrev pub may_approve : Model.ApprovalRequest → Bool
  may_approve r = r.id == id && is_pending r.status && ltb now r.expires_at

  abbrev pub approve : Model.ApprovalRequest → Model.ApprovalRequest
  approve r = record r { status = Model.Status.approved }

  pub Distinct-approve_rows :
      (rows : List Model.ApprovalRequest) → Distinct rows → Distinct (approve_rows id now rows).0
  unfolding approve_rows
  Distinct-approve_rows rows d = Distinct-update may_approve approve (λ r. refl) rows d

  -- The UPDATE leaves a row as it is or approves it, and only one that is pending.
  pub find_request-approve_rows :
      (j : Text) (rows : List Model.ApprovalRequest) {r : Model.ApprovalRequest}
      → find_request j rows ≡ some r
      → find_request j (approve_rows id now rows).0 ≡ some (if may_approve r then approve r else r)
  unfolding approve_rows
  find_request-approve_rows j rows h = find_request-update may_approve approve (λ r. refl) j rows h

  pub hit-approve_rows :
      (rows : List Model.ApprovalRequest)
      → Distinct rows
      → (approve_rows id now rows).1 ≡ true
      → (r : Model.ApprovalRequest) × (find_request id rows ≡ some r) × (may_approve r ≡ true)
  unfolding approve_rows
  hit-approve_rows rows d h =
      hit-update may_approve approve (λ r. refl) id (λ r e. ground arith) rows d h

module _ (id : Text) (i : Model.DenyInput) where
  abbrev pub may_deny : Model.ApprovalRequest → Bool
  may_deny r = r.id == id && is_pending r.status

  abbrev pub deny : Model.ApprovalRequest → Model.ApprovalRequest
  deny r = record r { status = Model.Status.denied; deny_reason = i.reason; denied_by = i.approver }

  pub Distinct-deny_rows :
      (rows : List Model.ApprovalRequest) → Distinct rows → Distinct (deny_rows id i rows).0
  unfolding deny_rows
  Distinct-deny_rows rows d = Distinct-update may_deny deny (λ r. refl) rows d

  -- The UPDATE leaves a row as it is or denies it, and only one that is pending.
  pub find_request-deny_rows :
      (j : Text) (rows : List Model.ApprovalRequest) {r : Model.ApprovalRequest}
      → find_request j rows ≡ some r
      → find_request j (deny_rows id i rows).0 ≡ some (if may_deny r then deny r else r)
  unfolding deny_rows
  find_request-deny_rows j rows h = find_request-update may_deny deny (λ r. refl) j rows h
