-- ===== src/Evidence/Store/Read/Checkpoints.antt =====
-- The archive checkpoints of `pkg/evidence/store.go`.
use open_clause.Base.{
  ℕ, none, some, List, [], ◌∷◌, ◌++◌, Text, text, ◌==◌, Result, ok, err, Faults, call, ◌>>◌,
  if◌then◌else◌,
}
use open_clause.Types.ToolCall.{Time}
use open_clause.Evidence.Store.Tables.{CheckpointRow, Db, has_tenant}
use open_clause.Evidence.Store.Read.Finds.{find_checkpoint}

-- `time.Unix(0, 0)`, in nanoseconds from the zero time.
abbrev pub unix_epoch : Time
unix_epoch = 62135596800000000000

-- `GetArchiveCheckpoint`: the time, the hash and the place in the sequence.
unfoldable pub get_archive_checkpoint : Faults → Text → Db → Result Text (Time × Text × ℕ)
unfolding find_checkpoint
get_archive_checkpoint f tenant db = do
  call (f 0) (text "evidence.GetArchiveCheckpoint: ")
  ok (elim (find_checkpoint tenant db.checkpoints) [
    | none ↦ (unix_epoch, [], 0)
    | some c ↦ (c.last_archived_at, c.last_hash, c.last_event_seq)
  ])

unfoldable pub put_checkpoint : CheckpointRow → List CheckpointRow → List CheckpointRow
put_checkpoint c [] = c ∷ []
put_checkpoint c (d ∷ rows) =
    if d.tenant_id == c.tenant_id then c ∷ rows else d ∷ put_checkpoint c rows

-- `UpsertArchiveCheckpoint`. A tenant that is not in `tenants` fails its foreign key.
unfoldable pub upsert_archive_checkpoint :
    Faults → Text → Time → Text → ℕ → Db → Result Text (Unit {0}) × Db
unfolding put_checkpoint
upsert_archive_checkpoint f tenant at hash seq db =
    let row : CheckpointRow = record {
      tenant_id = tenant;
      last_archived_at = at;
      last_hash = hash;
      last_event_seq = seq;
    } in
    elim (f 0) [
      | some e ↦ (err (text "evidence.UpsertArchiveCheckpoint: " ++ e), db)
      | none ↦
          if has_tenant tenant db.tenants
          then (ok tt, record db { checkpoints = put_checkpoint row db.checkpoints })
          else (
            err (text "evidence.UpsertArchiveCheckpoint: evidence_archive_checkpoints_fkey"),
            db,
          )
    ]
