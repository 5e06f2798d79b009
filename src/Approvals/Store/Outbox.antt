-- ===== src/Approvals/Store/Outbox.antt =====
-- The outbox operations of `pkg/approvals/store.go`.
pub mod Claims
use open_clause.Base.{
  ℕ, zero, suc, ◌+◌, ◌*◌, Bool, true, false, ◌&&◌, ◌||◌, not, Option, none, some, List, [], ◌∷◌,
  ◌++◌, map, Text, text, ◌==◌, leb, if◌then◌else◌, Result, ok, err, Faults, call, ◌>>=◌, ◌>>◌, take,
  select, any,
}
use open_clause.Base.Sort.{order_by}
use open_clause.Types.ToolCall.{Time}
use open_clause.Approvals.Model

abbrev pub is_waiting : Model.OutboxStatus → Bool
is_waiting Model.OutboxStatus.pending = true
is_waiting Model.OutboxStatus.processing = false
is_waiting Model.OutboxStatus.sent = false
is_waiting Model.OutboxStatus.failed = false

unfoldable pub is_due : Time → Model.NotificationOutbox → Bool
is_due now n = is_waiting n.status && leb n.next_attempt_at now

-- A limit that is not positive stands for the default.
unfoldable pub batch_limit : ℕ → ℕ
batch_limit zero = 100
batch_limit (suc n) = suc n

abbrev pub is_listed : List Text → Text → Bool
is_listed ids id = any (λ x. x == id) ids

-- The ids of `due`.
unfoldable pub due_ids : ℕ → Time → List Model.NotificationOutbox → List Text
due_ids limit now rows =
    map (λ n. n.id)
      (take limit (order_by (λ a b. leb a.created_at b.created_at) (select (is_due now) rows)))

unfoldable pub claim : Model.NotificationOutbox → Model.NotificationOutbox
claim n = record n { status = Model.OutboxStatus.processing; attempts = n.attempts + 1 }

-- The UPDATE of the claimed rows and what it returns, here in the order of the table.
unfoldable pub claim_rows :
    List Text
    → List Model.NotificationOutbox
    → List Model.NotificationOutbox × List Model.NotificationOutbox
claim_rows ids [] = ([], [])
claim_rows ids (n ∷ rows) =
    let (rows', out) = claim_rows ids rows in
    if is_listed ids n.id then (claim n ∷ rows', claim n ∷ out) else (n ∷ rows', out)

-- What the loop over the returned rows answers.
unfoldable pub read_claimed :
    Faults → List Model.NotificationOutbox → Result Text (List Model.NotificationOutbox)
read_claimed f out = do
  call (f 1) (text "approvals.ClaimDueNotifications scan: ")
  call (f 2) (text "approvals.ClaimDueNotifications unmarshal risk factors: ")
  call (f 3) (text "approvals.ClaimDueNotifications iteration: ")
  ok out

-- `ClaimDueNotifications`. An error after the query leaves the rows claimed.
unfoldable pub claim_due_notifications :
    Faults → ℕ → Time → Model.Db → Result Text (List Model.NotificationOutbox) × Model.Db
claim_due_notifications f limit now db =
    let (rows, out) = claim_rows (due_ids (batch_limit limit) now db.outbox) db.outbox in
    elim (f 0) [
      | some e ↦ (err (text "approvals.ClaimDueNotifications: " ++ e), db)
      | none ↦ (read_claimed f out, record db { outbox = rows })
    ]

unfoldable pub update_notification :
    Text
    → (Model.NotificationOutbox → Model.NotificationOutbox)
    → List Model.NotificationOutbox
    → List Model.NotificationOutbox × Bool
update_notification id g [] = ([], false)
update_notification id g (n ∷ rows) =
    let (rest, hit) = update_notification id g rows in
    if n.id == id then (g n ∷ rest, true) else (n ∷ rest, hit)

-- The common body of the three marks.
unfoldable pub mark :
    Text
    → (Model.NotificationOutbox → Model.NotificationOutbox)
    → Faults
    → Text
    → Model.Db
    → Result Text (Unit {0}) × Model.Db
mark name g f id db =
    let (rows, hit) = update_notification id g db.outbox in
    elim (f 0) [
      | some e ↦ (err (name ++ (text ": " ++ e)), db)
      | none ↦
          if hit
          then (ok tt, record db { outbox = rows })
          else (err (name ++ (text ": no rows updated for id " ++ id)), db)
    ]

abbrev pub as_sent : Model.NotificationOutbox → Model.NotificationOutbox
as_sent n = record n { status = Model.OutboxStatus.sent; last_error = [] }

abbrev pub as_retry : ℕ → Time → Text → Model.NotificationOutbox → Model.NotificationOutbox
as_retry attempts at e n = record n {
  status = Model.OutboxStatus.pending;
  attempts = attempts;
  next_attempt_at = at;
  last_error = e;
}

abbrev pub as_failed : Text → Model.NotificationOutbox → Model.NotificationOutbox
as_failed e n = record n { status = Model.OutboxStatus.failed; last_error = e }

unfoldable pub mark_notification_sent : Faults → Text → Model.Db → Result Text (Unit {0}) × Model.Db
mark_notification_sent f id db = mark (text "approvals.MarkNotificationSent") as_sent f id db

unfoldable pub mark_notification_retry :
    Faults → Text → ℕ → Time → Text → Model.Db → Result Text (Unit {0}) × Model.Db
mark_notification_retry f id attempts at e db =
    mark (text "approvals.MarkNotificationRetry") (as_retry attempts at e) f id db

unfoldable pub mark_notification_failed :
    Faults → Text → Text → Model.Db → Result Text (Unit {0}) × Model.Db
mark_notification_failed f id e db =
    mark (text "approvals.MarkNotificationFailed") (as_failed e) f id db
