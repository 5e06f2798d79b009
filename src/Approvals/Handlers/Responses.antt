-- ===== src/Approvals/Handlers/Responses.antt =====
-- What a response of the handlers says of the tables.
use open_clause.Base.{◌≡◌, ◌⊎◌, refl, some, [], ◌∷◌, ◌++◌, Text, arith}
use open_clause.Types.ToolCall.{Time}
use open_clause.Approvals.Model
use open_clause.Approvals.Model.{Status}
use open_clause.Approvals.Store.Requests.{find_request}
use open_clause.Approvals.Store.Rows.{deny, approve, id-find_request}
use open_clause.Approvals.Store.Outcomes.{IsGranted}
use open_clause.Approvals.Store.Lifecycle.{Has}
use open_clause.Approvals.Store.Decisions.{IsDenied}
use open_clause.Approvals.Handlers.{
  Response, failed, created, shown, granted, denied, listed, acted, plain, page,
}

-- A pending request was approved, with a grant.
abbrev pub IsGrantOf : Model.ApprovalGrant → Model.Db → Model.Db → Type 0
IsGrantOf g db db' =
    Has g.request_id Status.pending db
    × Has g.request_id Status.approved db'
    × (db'.grants ≡ db.grants ++ (g ∷ []))

abbrev pub IsDenialIn : Model.Db → Model.Db → Type 0
IsDenialIn db db' =
    (id : Text) × Has id Status.pending db × Has id Status.denied db' × (db'.grants ≡ db.grants)

-- What a response says of the tables that were read, and of those before and after the change.
abbrev pub IsHonest : Response → Model.Db → Model.Db → Model.Db → Type 0
IsHonest (failed e) seen db db' = db' ≡ db
IsHonest (created r) seen db db' =
    (r.status ≡ Status.pending) × (find_request r.id db'.requests ≡ some r)
IsHonest (shown r) seen db db' = (db' ≡ db) × (find_request r.id seen.requests ≡ some r)
IsHonest (granted g) seen db db' = IsGrantOf g db db'
IsHonest denied seen db db' = IsDenialIn db db'
IsHonest (listed rows) seen db db' = db' ≡ db
IsHonest (plain code msg) seen db db' = db' ≡ db
IsHonest (page tenant rows) seen db db' = db' ≡ db
IsHonest (acted t) seen db db' =
    ((g : Model.ApprovalGrant) × IsGrantOf g db db') ⊎ IsDenialIn db db'

pub grant_of :
    {now : Time} {id : Text} {i : Model.GrantInput} {db db' : Model.Db} {g : Model.ApprovalGrant}
    → IsGranted now id i db db' g
    → IsGrantOf g db db'
grant_of {now = now} {id = id} {db = db} {g = g} a =
    let named : id ≡ g.request_id =
      ground (arith, a.scope, id-find_request id db.requests {r = a.request} a.found) in
    (
      (a.request, rw (← named) a.found, a.pending),
      (approve id now a.request, rw (← named) a.approved, refl),
      a.grants,
    )

pub denial_in :
    {id : Text} {i : Model.DenyInput} {db db' : Model.Db} → IsDenied id i db db' → IsDenialIn db db'
denial_in {id = id} {i = i} a =
    (id, (a.request, a.found, a.pending), (deny id i a.request, a.denied, refl), a.grants)
