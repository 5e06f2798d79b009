-- ===== src/Archiver.antt =====
-- `ArchiveTenant` of `pkg/archiver/archiver.go` over the evidence store. What is uploaded is kept
-- with its key; the upload may fail.
pub mod Windows
pub mod Checkpoints
pub mod Run
pub mod Kept
pub mod Complete
use open_clause.Base.{
  ℕ, Bool, Option, none, some, List, [], ◌∷◌, ◌++◌, Text, text, is_empty, if◌then◌else◌, Result, ok,
  err, Faults, length,
}
use open_clause.Types.ToolCall.{Time}
use open_clause.Evidence.HashChain.{ChainEvent, ChainError, verify_chain_from}
use open_clause.Evidence.Store.Tables.{Db}
use open_clause.Evidence.Store.Read.{
  get_archive_checkpoint, get_chain_events, upsert_archive_checkpoint,
}

pub record Bundle : Type 0 where
  pub tenant_id : Text
  pub created_at : Time
  pub event_count : ℕ
  pub checkpoint : Text
  pub since : Time
  pub until : Time
  pub chain_records : List ChainEvent

-- The tables and the objects that were uploaded, the latest first.
pub record Archive : Type 0 where
  pub db : Db
  pub objects : List (Text × Bundle)

-- `events[len(events)-1]`.
unfoldable pub last_event : ChainEvent → List ChainEvent → ChainEvent
last_event ev [] = ev
last_event ev (next ∷ events) = last_event next events

unfoldable pub bundle : Text → Time → Time → ChainEvent → List ChainEvent → Bundle
bundle tenant now since ev events = record {
  tenant_id = tenant;
  created_at = now;
  event_count = length (ev ∷ events);
  checkpoint = (last_event ev events).hash;
  since = since;
  until = (last_event ev events).received_at;
  chain_records = ev ∷ events;
}

unfoldable pub object_key : Text → Text → Text → Text
object_key tenant from to =
    text "evidence/"
    ++ (tenant
        ++ (text "/"
            ++ ((if is_empty from then text "genesis" else from)
                ++ (text "_to_" ++ (to ++ text ".json")))))

-- What the calls of the store, by their number, and the upload answer.
pub record Outside : Type 0 where
  pub checkpoint : Faults
  pub events : Faults
  pub upload : Option Text
  pub upsert : Faults

module _ (sha256 : Text → Text) (message : ChainError → Text) where
  -- From the verified events on: the upload and the new checkpoint.
  unfoldable pub store_bundle :
      Outside
      → Text
      → Time
      → Time
      → Text
      → ChainEvent
      → List ChainEvent
      → Archive
      → Result Text Text × Archive
  store_bundle out tenant now since from ev events a =
      let last = last_event ev events in
      let key = object_key tenant from last.hash in
      elim out.upload [
        | some e ↦ (err e, a)
        | none ↦
            let sent = (key, bundle tenant now since ev events) ∷ a.objects in
            let (answer, db') =
              upsert_archive_checkpoint out.upsert tenant last.received_at last.hash last.event_seq
                a.db in
            elim answer [
              | err e ↦ (err e, record { db = db'; objects = sent })
              | ok _ ↦ (ok key, record { db = db'; objects = sent })
            ]
      ]

  unfoldable pub archive_events :
      Outside → Text → Time → Time → Text → List ChainEvent → Archive → Result Text Text × Archive
  archive_events out tenant now since from [] a = (ok [], a)
  archive_events out tenant now since from (ev ∷ events) a =
      elim (verify_chain_from sha256 from (ev ∷ events)) [
        | err e ↦ (err (text "verify chain: " ++ message e), a)
        | ok _ ↦ store_bundle out tenant now since from ev events a
      ]

  unfoldable pub archive_tenant : Outside → Text → Time → Archive → Result Text Text × Archive
  archive_tenant out tenant now a = elim (get_archive_checkpoint out.checkpoint tenant a.db) [
    | err e ↦ (err e, a)
    | ok (since, from, seq) ↦ elim (get_chain_events out.events tenant seq a.db) [
      | err e ↦ (err e, a)
      | ok events ↦ archive_events out tenant now since from events a
    ]
  ]
