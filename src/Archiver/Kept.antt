-- ===== src/Archiver/Kept.antt =====
-- What the archival of one tenant leaves as it is for the others.
use open_clause.Base.{
  ℕ, ◌≡◌, ◌≢◌, refl, sym, inl, inr, Bool-cases, Result-cases, Option-cases, true, List, [], ◌∷◌,
  Text, Faults, arith,
}
use mathlib.Core.Path.{subst}
use open_clause.Types.ToolCall.{Time}
use open_clause.Evidence.HashChain.{ChainEvent, ChainError, verify_chain_from}
use open_clause.Evidence.HashChain.Verify.{IsChain}
use open_clause.Evidence.Store.Tables.{CheckpointRow, Db, has_tenant}
use open_clause.Evidence.Store.Read.{
  window, find_checkpoint, put_checkpoint, get_archive_checkpoint, get_chain_events,
  upsert_archive_checkpoint,
}
use open_clause.Archiver.{
  Archive, Outside, last_event, archive_tenant, archive_events, store_bundle,
}
use open_clause.Archiver.Windows.{Ascending}
use open_clause.Archiver.Checkpoints.{remaining, IsCheckpoint}

find_checkpoint-other :
    (s : Text) (c : CheckpointRow) (rows : List CheckpointRow)
    → c.tenant_id ≢ s
    → find_checkpoint s (put_checkpoint c rows) ≡ find_checkpoint s rows
unfolding find_checkpoint put_checkpoint
find_checkpoint-other s c [] n = ground arith
find_checkpoint-other s c (d ∷ rows) n = ground (arith, find_checkpoint-other s c rows n)

-- No table but that of the checkpoints is changed, and in that no row but the tenant's.
pub record Keeps (t : Text) (db db' : Db) : Type 0 where
  pub tenants : db'.tenants ≡ db.tenants
  pub events : db'.events ≡ db.events
  pub results : db'.results ≡ db.results
  pub others :
      (s : Text) → t ≢ s → find_checkpoint s db'.checkpoints ≡ find_checkpoint s db.checkpoints

-- The tables afterwards are such that the others were kept.
kept : {t : Text} {db db' : Db} (out : Db) → out ≡ db' → Keeps t db db' → Keeps t db out
kept {t} {db} out e k = subst (Keeps t db) (sym e) k

same : {t : Text} {db : Db} (out : Db) → out ≡ db → Keeps t db out
same out e =
    kept out e (record { tenants = refl; events = refl; results = refl; others = λ s n. refl })

upsert-Keeps :
    (f : Faults) (t : Text) (at : Time) (hash : Text) (seq : ℕ) (db : Db)
    → Keeps t db (upsert_archive_checkpoint f t at hash seq db).1
unfolding upsert_archive_checkpoint
upsert-Keeps f t at hash seq db =
    let row : CheckpointRow = record {
      tenant_id = t;
      last_archived_at = at;
      last_hash = hash;
      last_event_seq = seq;
    } in
    let out = (upsert_archive_checkpoint f t at hash seq db).1 in
    let updated : Db = record db { checkpoints = put_checkpoint row db.checkpoints } in
    elim (Option-cases (f 0)) [
      | inr (e, p) ↦ same out (ground arith)
      | inl p ↦ elim (Bool-cases (has_tenant t db.tenants)) [
        | inr h ↦ same out (ground arith)
        | inl h ↦ kept {t = t} {db = db} {db' = updated} out (ground arith) (record {
          tenants = refl;
          events = refl;
          results = refl;
          others = λ s n. find_checkpoint-other s row db.checkpoints n;
        })
      ]
    ]

module _ (sha256 : Text → Text) (message : ChainError → Text) where
  store_bundle-Keeps :
      (o : Outside) (t : Text) (at since : Time) (from : Text) (ev : ChainEvent)
      (events : List ChainEvent) (a : Archive)
      → Keeps t a.db (store_bundle sha256 message o t at since from ev events a).1.db
  unfolding store_bundle
  store_bundle-Keeps o t at since from ev events a =
      let last = last_event ev events in
      let stored =
        upsert_archive_checkpoint o.upsert t last.received_at last.hash last.event_seq a.db in
      let out = (store_bundle sha256 message o t at since from ev events a).1.db in
      let upserted = upsert-Keeps o.upsert t last.received_at last.hash last.event_seq a.db in
      elim (Option-cases o.upload) [
        | inr (e, p) ↦ same out (ground arith)
        | inl p ↦ elim (Result-cases (stored.0)) [
          | inr (e, q) ↦ kept out (ground arith) upserted
          | inl (_, q) ↦ kept out (ground arith) upserted
        ]
      ]

  pub archive_tenant-Keeps :
      (o : Outside) (t : Text) (at : Time) (a : Archive)
      → Keeps t a.db (archive_tenant sha256 message o t at a).1.db
  unfolding archive_tenant archive_events
  archive_tenant-Keeps o t at a =
      let out = (archive_tenant sha256 message o t at a).1.db in
      elim (Result-cases (get_archive_checkpoint o.checkpoint t a.db)) [
        | inr (e, p) ↦ same out (ground arith)
        | inl ((since, from, seq), p) ↦ elim (Result-cases (get_chain_events o.events t seq a.db)) [
          | inr (e, q) ↦ same out (ground arith)
          | inl ([], q) ↦ same out (ground arith)
          | inl (ev ∷ events, q) ↦
              elim (Result-cases (verify_chain_from sha256 from (ev ∷ events))) [
                | inr (e, r) ↦ same out (ground arith)
                | inl (_, r) ↦
                    rw (p, archive_tenant)
                      (rw (q, archive_events)
                        (rw (r, archive_events) (store_bundle-Keeps o t at since from ev events a)))
              ]
        ]
      ]

-- The tenant is known, the sequence numbers ascend, its chain verifies, and its checkpoint stands
-- after some of its events with the hash of the last.
pub record IsReady (sha256 : Text → Text) (t : Text) (db : Db) : Type 0 where
  pub known : has_tenant t db.tenants ≡ true
  pub ascending : Ascending db.events
  pub chain : IsChain sha256 [] (window t 0 db.results db.events)
  pub checkpoint : IsCheckpoint t db

-- The archival of another tenant.
module _ {t s : Text} {db db' : Db} (n : s ≢ t) (k : Keeps s db db') where
  pub remaining-Keeps : remaining t db' ≡ remaining t db
  remaining-Keeps = rw (k.others t n, k.events, k.results) refl

  IsCheckpoint-Keeps : IsCheckpoint t db → IsCheckpoint t db'
  IsCheckpoint-Keeps c = rw (k.others t n, k.events, k.results) c

  pub IsReady-Keeps : (sha256 : Text → Text) → IsReady sha256 t db → IsReady sha256 t db'
  IsReady-Keeps sha256 r = record {
    known = rw k.tenants r.known;
    ascending = rw k.events r.ascending;
    chain = rw (k.events, k.results) r.chain;
    checkpoint = IsCheckpoint-Keeps r.checkpoint;
  }
