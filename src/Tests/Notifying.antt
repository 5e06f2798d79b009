-- ===== src/Tests/Notifying.antt =====
-- A notification that is claimed, and delivered.
use open_clause.Base.{
  ◌≤◌, ◌≡◌, refl, false, none, some, List, [], ◌∷◌, Text, text, text_dec, All, Result, ok,
}
use open_clause.Base.Int.{pos}
use open_clause.Base.Sort.{order_by}
use open_clause.Approvals.Model
use open_clause.Approvals.Store.Outbox.{
  is_due, batch_limit, due_ids, claim, claim_rows, read_claimed, claim_due_notifications,
}
use open_clause.Approvals.Notifier.{
  Deliveries, backoff_for_attempt, default_dispatch_batch_size, dispatch_once,
}
use open_clause.Approvals.Notifier.Settled.{
  is_stuck, backoff_for_attempt-bounds, dispatch_once_settles,
}
use open_clause.Tests.Fixtures.{no_faults, no_unicode}

abbrev notification : Model.NotificationOutbox
notification = record {
  id = text "n";
  approval_request_id = text "1";
  tenant_id = text "t";
  event_id = text "e";
  trace_id = [];
  tool = text "jira";
  action = text "list";
  resource = [];
  risk_score = pos 1;
  risk_factors = [];
  reason = [];
  approval_url = [];
  approver_group = [];
  notify_kind = text "webhook";
  notify_url = text "https://example.org";
  secret_ref = [];
  slack_channel = [];
  attempts = 0;
  status = Model.OutboxStatus.pending;
  next_attempt_at = 5;
  created_at = 4;
  last_error = [];
}

abbrev notified : Model.Db
notified = record { requests = []; grants = []; outbox = notification ∷ [] }

abbrev claimed : Result Text (List Model.NotificationOutbox) × Model.Db
claimed = claim_due_notifications no_faults default_dispatch_batch_size 20 notified

abbrev claimed_again : Result Text (List Model.NotificationOutbox) × Model.Db
claimed_again = claim_due_notifications no_faults 1 30 claimed.1

is_claimed : claimed ≡ (
  ok (record notification { status = Model.OutboxStatus.processing; attempts = 1 } ∷ []),
  claimed.1,
)
unfolding claim_due_notifications claim_rows claim read_claimed due_ids is_due batch_limit order_by
    text text_dec
is_claimed = refl

-- The webhook answers with an error.
abbrev deliveries : Deliveries
deliveries = record { webhook = λ n. some (text "HTTP 500"); slack = λ n. none; now = λ n. 21 }

dispatch_once_settles_example :
    let (answer, db') =
      dispatch_once no_unicode deliveries no_faults (λ id. no_faults) 20 notified in
    (answer ≡ ok tt)
    × All
        (λ item. is_stuck item.id db'.outbox ≡ false)
        (record notification { status = Model.OutboxStatus.processing; attempts = 1 } ∷ [])
dispatch_once_settles_example =
    dispatch_once_settles no_unicode deliveries no_faults (λ id. no_faults) 20 notified (λ id. refl)
      is_claimed

backoff_for_attempt-bounds_example :
    (1000000000 ≤ backoff_for_attempt 3)
    × (backoff_for_attempt 3 ≤ 256000000000)
    × (backoff_for_attempt 3 ≤ backoff_for_attempt 4)
backoff_for_attempt-bounds_example = backoff_for_attempt-bounds 3
