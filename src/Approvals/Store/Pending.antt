-- ===== src/Approvals/Store/Pending.antt =====
-- `ListPending`.
use open_clause.Base.{
  ℕ, Bool, ◌&&◌, ◌||◌, not, List, Text, text, ◌==◌, Result, ok, Faults, call, ◌>>◌, ltb, leb,
  if◌then◌else◌, take, drop, select,
}
use open_clause.Base.Int.{ℤ, pos, ltb_ℤ, pos_part}
use open_clause.Base.Sort.{order_by}
use open_clause.Types.ToolCall.{Time}
use open_clause.Approvals.Model
use open_clause.Approvals.Store.Requests.{is_pending}

abbrev pub default_pending_limit : ℕ
default_pending_limit = 200

-- The limit and the offset that the query is given.
unfoldable pub page_limit : ℤ → ℕ
page_limit limit =
    if not (ltb_ℤ (pos 0) limit) || ltb_ℤ (pos default_pending_limit) limit
    then default_pending_limit
    else pos_part limit

-- Pending and not expired, for the tenant.
unfoldable pub is_open : Text → Time → Model.ApprovalRequest → Bool
is_open tenant now r = r.tenant_id == tenant && is_pending r.status && ltb now r.expires_at

-- `ListPending`.
unfoldable pub list_pending :
    Faults → Text → ℤ → ℤ → Time → Model.Db → Result Text (List Model.ApprovalRequest)
unfolding page_limit is_open
list_pending f tenant limit offset now db = do
  call (f 0) (text "approvals.ListPending: ")
  call (f 1) (text "approvals.ListPending scan: ")
  call (f 2) (text "approvals.ListPending iteration: ")
  let rows =
      order_by (λ a b. leb b.created_at a.created_at) (select (is_open tenant now) db.requests)
  ok (take (page_limit limit) (drop (pos_part offset) rows))
