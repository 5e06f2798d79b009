-- ===== src/Approvals/Notifier.antt =====
-- `DispatchOnce` and `backoffForAttempt` of `pkg/approvals/notifier.go`. The deliveries, which call
-- other services, are a parameter: the error of each, and the time after it.
pub mod Settled
use open_clause.Base.{
  ℕ, zero, suc, ◌+◌, ◌*◌, ◌^◌, min, Bool, true, false, Option, none, some, List, [], ◌∷◌, ◌++◌,
  Text, text, ◌==◌, is_empty, leb, ltb, if◌then◌else◌, Result, ok, err, Faults, Unicode, to_lower,
}
use open_clause.Types.ToolCall.{Time}
use open_clause.Approvals.Model
use open_clause.Approvals.Store.Grants.{seconds}
use open_clause.Approvals.Store.Outbox.{
  claim_due_notifications, mark_notification_sent, mark_notification_retry,
  mark_notification_failed,
}

abbrev pub default_dispatch_batch_size : ℕ
default_dispatch_batch_size = 100

abbrev pub max_dispatch_backoff : ℕ
max_dispatch_backoff = 300 * 1000000000

abbrev pub max_notification_attempts : ℕ
max_notification_attempts = 10

-- `attempt` is no negative number: it was counted up from 0.
unfoldable pub backoff_for_attempt : ℕ → ℕ
backoff_for_attempt zero = 1000000000
backoff_for_attempt (suc n) =
    let d = 1000000000 * 2 ^ min (suc n) 8 in
    if ltb max_dispatch_backoff d then max_dispatch_backoff else d

pub record Deliveries : Type 0 where
  pub webhook : Model.NotificationOutbox → Option Text
  pub slack : Model.NotificationOutbox → Option Text
  pub now : Model.NotificationOutbox → Time

-- After a delivery, for its error if there was one. The errors of the marks are only logged.
unfoldable pub after_delivery :
    Faults → Time → Model.NotificationOutbox → Option Text → Model.Db → Model.Db
after_delivery f now item none db = (mark_notification_sent f item.id db).1
after_delivery f now item (some e) db =
    if leb max_notification_attempts item.attempts
    then (mark_notification_failed f item.id (text "max retries exceeded: " ++ e) db).1
    else (mark_notification_retry f item.id item.attempts (now + backoff_for_attempt item.attempts)
        e db).1

-- The body of the loop.
unfoldable pub dispatch_item :
    Unicode → Deliveries → Faults → Model.NotificationOutbox → Model.Db → Model.Db
dispatch_item u d f item db =
    let kind = to_lower u item.notify_kind in
    if kind == text "webhook"
    then (if is_empty item.notify_url
        then (mark_notification_failed f item.id (text "webhook notify_url is empty") db).1
        else after_delivery f (d.now item) item (d.webhook item) db)
    else if kind == text "slack"
    then (if is_empty item.slack_channel
        then (mark_notification_failed f item.id (text "slack channel is empty") db).1
        else after_delivery f (d.now item) item (d.slack item) db)
    else (mark_notification_failed f item.id (text "unsupported notify kind") db).1

-- `g` gives the failures of the marks, by the id of the item.
unfoldable pub dispatch_items :
    Unicode → Deliveries → (Text → Faults) → List Model.NotificationOutbox → Model.Db → Model.Db
dispatch_items u d g [] db = db
dispatch_items u d g (item ∷ items) db =
    dispatch_items u d g items (dispatch_item u d (g item.id) item db)

unfoldable pub dispatch_once :
    Unicode
    → Deliveries
    → Faults
    → (Text → Faults)
    → Time
    → Model.Db
    → Result Text (Unit {0}) × Model.Db
dispatch_once u d f g now db =
    let (answer, db') = claim_due_notifications f default_dispatch_batch_size now db in
    elim answer [ err e ↦ (err e, db') | ok items ↦ (ok tt, dispatch_items u d g items db') ]
