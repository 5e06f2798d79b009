-- ===== src/Approvals/Notifier/Settled.antt =====
-- What a round of the dispatcher leaves, and the bounds of the backoff.
use open_clause.Base.{
  ℕ, zero, suc, ◌≤◌, ◌≡◌, refl, min, Bool, true, false, ◌&&◌, Option, none, some, List, [], ◌∷◌,
  Text, text, ◌==◌, is_empty, if◌then◌else◌, ok, Faults, Unicode, to_lower, All, any, arith,
  Bool-cases, Option-cases, inl, inr,
}
use open_clause.Types.ToolCall.{Time}
use open_clause.Approvals.Model
use open_clause.Approvals.Store.Outbox.{
  update_notification, mark, mark_notification_sent, mark_notification_retry,
  mark_notification_failed, claim_due_notifications, as_sent, as_failed, as_retry,
}
use open_clause.Approvals.Notifier.{
  backoff_for_attempt, Deliveries, after_delivery, dispatch_item, dispatch_items, dispatch_once,
  default_dispatch_batch_size,
}

abbrev pub is_processing : Model.OutboxStatus → Bool
is_processing Model.OutboxStatus.processing = true
is_processing Model.OutboxStatus.pending = false
is_processing Model.OutboxStatus.sent = false
is_processing Model.OutboxStatus.failed = false

-- A row of the id is still being processed.
abbrev pub is_stuck : Text → List Model.NotificationOutbox → Bool
is_stuck id rows = any (λ n. n.id == id && is_processing n.status) rows

-- An UPDATE that ends the processing of its rows.
module _ (id : Text) (g : Model.NotificationOutbox → Model.NotificationOutbox)
    (same_id : (n : Model.NotificationOutbox) → (g n).id ≡ n.id)
    (ends : (n : Model.NotificationOutbox) → is_processing (g n).status ≡ false) where
  is_stuck-update_same :
      (rows : List Model.NotificationOutbox) → is_stuck id (update_notification id g rows).0 ≡ false
  unfolding update_notification
  is_stuck-update_same [] = refl
  is_stuck-update_same (n ∷ rows) = ground (arith, is_stuck-update_same rows, same_id n, ends n)

  is_stuck-update :
      (k : Text) (rows : List Model.NotificationOutbox)
      → is_stuck k rows ≡ false
      → is_stuck k (update_notification id g rows).0 ≡ false
  unfolding update_notification
  is_stuck-update k [] h = refl
  is_stuck-update k (n ∷ rows) h = ground (arith, is_stuck-update k rows, same_id n, ends n)

capped : (n : ℕ) → min (suc (suc (suc (suc (suc (suc (suc (suc n)))))))) 8 ≡ 8
capped n = omega arith

-- The backoff of the dispatcher is between one second and 256 seconds and does not shrink with the
-- attempts: the maximum of five minutes is never reached.
pub backoff_for_attempt-bounds :
    (n : ℕ)
    → (1000000000 ≤ backoff_for_attempt n)
      × (backoff_for_attempt n ≤ 256000000000)
      × (backoff_for_attempt n ≤ backoff_for_attempt (suc n))
unfolding backoff_for_attempt
backoff_for_attempt-bounds zero = (omega arith, omega arith, omega arith)
backoff_for_attempt-bounds (suc zero) = (omega arith, omega arith, omega arith)
backoff_for_attempt-bounds (suc (suc zero)) = (omega arith, omega arith, omega arith)
backoff_for_attempt-bounds (suc (suc (suc zero))) = (omega arith, omega arith, omega arith)
backoff_for_attempt-bounds (suc (suc (suc (suc zero)))) = (omega arith, omega arith, omega arith)
backoff_for_attempt-bounds (suc (suc (suc (suc (suc zero))))) =
    (omega arith, omega arith, omega arith)
backoff_for_attempt-bounds (suc (suc (suc (suc (suc (suc zero)))))) =
    (omega arith, omega arith, omega arith)
backoff_for_attempt-bounds (suc (suc (suc (suc (suc (suc (suc zero))))))) =
    (omega arith, omega arith, omega arith)
backoff_for_attempt-bounds (suc (suc (suc (suc (suc (suc (suc (suc n)))))))) =
    rw (capped n, capped (suc n)) (omega arith, omega arith, omega arith)

-- A row that a mark does not find is not there.
is_stuck-missed :
    (id : Text) (g : Model.NotificationOutbox → Model.NotificationOutbox)
    (rows : List Model.NotificationOutbox)
    → (update_notification id g rows).1 ≡ false
    → is_stuck id rows ≡ false
unfolding update_notification
is_stuck-missed id g [] h = refl
is_stuck-missed id g (n ∷ rows) h = ground (arith, is_stuck-missed id g rows)

module _ (name id : Text) (g : Model.NotificationOutbox → Model.NotificationOutbox) (f : Faults)
    (same_id : (n : Model.NotificationOutbox) → (g n).id ≡ n.id)
    (ends : (n : Model.NotificationOutbox) → is_processing (g n).status ≡ false) where
  mark_keeps :
      (k : Text) (db : Model.Db)
      → is_stuck k db.outbox ≡ false
      → is_stuck k (mark name g f id db).1.outbox ≡ false
  unfolding mark
  mark_keeps k db h =
      let kept = is_stuck-update id g same_id ends k db.outbox h in
      elim (Option-cases (f 0)) [
        | inr (e, p) ↦ ground arith
        | inl p ↦ elim (Bool-cases (update_notification id g db.outbox).1) [
          | inl q ↦ ground arith
          | inr q ↦ ground arith
        ]
      ]

  mark_ends : (db : Model.Db) → f 0 ≡ none → is_stuck id (mark name g f id db).1.outbox ≡ false
  unfolding mark
  mark_ends db p =
      let ended = is_stuck-update_same id g same_id ends db.outbox in
      elim (Bool-cases (update_notification id g db.outbox).1) [
        | inl q ↦ ground arith
        | inr q ↦ ground (arith, is_stuck-missed id g db.outbox)
      ]

-- What holds in both branches.
either_branch {ℓ} :
    {A : Type ℓ} (P : A → Type 0) (b : Bool) (x y : A) → P x → P y → P (if b then x else y)
either_branch P true x y h k = h
either_branch P false x y h k = k

module _ (f : Faults) (item : Model.NotificationOutbox) (db : Model.Db) (P : Model.Db → Type 0)
    (sent : P (mark_notification_sent f item.id db).1)
    (failed : (e : Text) → P (mark_notification_failed f item.id e db).1)
    (retry : (at : Time) (e : Text)
      → P (mark_notification_retry f item.id item.attempts at e db).1) where
  after_delivery_by_mark : (now : Time) (o : Option Text) → P (after_delivery f now item o db)
  unfolding after_delivery
  after_delivery_by_mark now none = sent
  after_delivery_by_mark now (some e) = either_branch P _ _ _ (failed _) (retry _ e)

  -- Each way through the body of the loop is one of the marks.
  dispatch_item_by_mark : (u : Unicode) (d : Deliveries) → P (dispatch_item u d f item db)
  unfolding dispatch_item
  dispatch_item_by_mark u d =
      let kind = to_lower u item.notify_kind in
      either_branch P (kind == text "webhook") _ _
        (either_branch P (is_empty item.notify_url) _ _
          (failed (text "webhook notify_url is empty"))
          (after_delivery_by_mark (d.now item) (d.webhook item)))
        (either_branch P (kind == text "slack") _ _
          (either_branch P (is_empty item.slack_channel) _ _
            (failed (text "slack channel is empty"))
            (after_delivery_by_mark (d.now item) (d.slack item)))
          (failed (text "unsupported notify kind")))

module _ (u : Unicode) (d : Deliveries) where
  dispatch_item_keeps :
      (f : Faults) (item : Model.NotificationOutbox) (k : Text) (db : Model.Db)
      → is_stuck k db.outbox ≡ false
      → is_stuck k (dispatch_item u d f item db).outbox ≡ false
  unfolding mark_notification_sent mark_notification_failed mark_notification_retry
  dispatch_item_keeps f item k db h =
      dispatch_item_by_mark f item db (λ db'. is_stuck k db'.outbox ≡ false)
        (mark_keeps _ item.id as_sent f (λ n. refl) (λ n. refl) k db h)
        (λ e. mark_keeps _ item.id (as_failed e) f (λ n. refl) (λ n. refl) k db h)
        (λ at e.
          mark_keeps _ item.id (as_retry item.attempts at e) f (λ n. refl) (λ n. refl) k db h)
        u d

  dispatch_item_ends :
      (f : Faults) (item : Model.NotificationOutbox) (db : Model.Db)
      → f 0 ≡ none
      → is_stuck item.id (dispatch_item u d f item db).outbox ≡ false
  unfolding mark_notification_sent mark_notification_failed mark_notification_retry
  dispatch_item_ends f item db p =
      dispatch_item_by_mark f item db (λ db'. is_stuck item.id db'.outbox ≡ false)
        (mark_ends _ item.id as_sent f (λ n. refl) (λ n. refl) db p)
        (λ e. mark_ends _ item.id (as_failed e) f (λ n. refl) (λ n. refl) db p)
        (λ at e. mark_ends _ item.id (as_retry item.attempts at e) f (λ n. refl) (λ n. refl) db p) u
        d

  dispatch_items_keeps :
      (g : Text → Faults) (items : List Model.NotificationOutbox) (k : Text) (db : Model.Db)
      → is_stuck k db.outbox ≡ false
      → is_stuck k (dispatch_items u d g items db).outbox ≡ false
  unfolding dispatch_items
  dispatch_items_keeps g [] k db h = h
  dispatch_items_keeps g (item ∷ items) k db h =
      dispatch_items_keeps g items k (dispatch_item u d (g item.id) item db)
        (dispatch_item_keeps (g item.id) item k db h)

  dispatch_items_end :
      (g : Text → Faults) (items : List Model.NotificationOutbox) (db : Model.Db)
      → ((id : Text) → g id 0 ≡ none)
      → All (λ item. is_stuck item.id (dispatch_items u d g items db).outbox ≡ false) items
  unfolding dispatch_items
  dispatch_items_end g [] db p = tt
  dispatch_items_end g (item ∷ items) db p =
      let db' = dispatch_item u d (g item.id) item db in
      (
        dispatch_items_keeps g items item.id db'
            (dispatch_item_ends (g item.id) item db (p item.id)),
        dispatch_items_end g items db' p,
      )

  -- A round of the dispatcher in which the marks do not fail leaves none of the notifications that
  -- it claimed in processing, whatever its deliveries answer: each is sent, failed or pending.
  pub dispatch_once_settles :
      (f : Faults) (g : Text → Faults) (now : Time) (db : Model.Db)
      {items : List Model.NotificationOutbox} {db1 : Model.Db}
      → ((id : Text) → g id 0 ≡ none)
      → claim_due_notifications f default_dispatch_batch_size now db ≡ (ok items, db1)
      → let (answer, db') = dispatch_once u d f g now db in
        (answer ≡ ok tt) × All (λ item. is_stuck item.id db'.outbox ≡ false) items
  unfolding dispatch_once
  dispatch_once_settles f g now db {items} {db1} p h =
      rw (h, dispatch_once)
        (
          refl,
          dispatch_items_end g items
              (claim_due_notifications f default_dispatch_batch_size now db).1 p,
        )
