-- ===== src/Archiver/Checkpoints.antt =====
-- The checkpoint that an archival leaves covers what the tenant has recorded.
use open_clause.Base.{
  map, ℕ, ◌≡◌, refl, sym, ap, ◌∙◌, ◌⊎◌, inl, inr, true, Option, none, some, List, [], ◌∷◌, ◌++◌,
  Text, ok, arith,
}
use mathlib.Core.Path.{subst}
use mathlib.Core.List.{append-nil}
use open_clause.Types.ToolCall.{Time}
use open_clause.Evidence.HashChain.{ChainEvent, ChainError, verify_chain_from}
use open_clause.Evidence.HashChain.Verify.{
  last_hash, IsChain, IsChain-split, verify_chain_from-IsChain,
}
use open_clause.Evidence.Store.Tables.{CheckpointRow, Db, has_tenant}
use open_clause.Evidence.Store.Read.{
  window, find_checkpoint, put_checkpoint, get_archive_checkpoint, get_chain_events,
  upsert_archive_checkpoint, unix_epoch,
}
use open_clause.Archiver.{
  Archive, Outside, last_event, store_bundle, archive_events, archive_tenant, object_key, bundle,
}
use open_clause.Archiver.Windows.{Ascending, List-cases, window_last, last_hash-append}

pub find_checkpoint-put_checkpoint :
    (c : CheckpointRow) (rows : List CheckpointRow)
    → find_checkpoint c.tenant_id (put_checkpoint c rows) ≡ some c
unfolding find_checkpoint put_checkpoint
find_checkpoint-put_checkpoint c [] = ground arith
find_checkpoint-put_checkpoint c (d ∷ rows) = ground (arith, find_checkpoint-put_checkpoint c rows)

-- The time, hash and place of a checkpoint, or where a tenant starts.
abbrev pub place : Option CheckpointRow → Time × Text × ℕ
place none = (unix_epoch, [], 0)
place (some c) = (c.last_archived_at, c.last_hash, c.last_event_seq)

-- The events after the checkpoint of a tenant.
abbrev pub remaining : Text → Db → List ChainEvent
remaining t db = window t (place (find_checkpoint t db.checkpoints)).2 db.results db.events

-- The checkpoint of a tenant stands after some of its events and has the hash of the last of them.
abbrev pub IsCheckpoint : Text → Db → Type 0
IsCheckpoint t db =
    (done : List ChainEvent) × (window t 0 db.results db.events ≡ done ++ remaining t db)
    × (last_hash [] done ≡ (place (find_checkpoint t db.checkpoints)).1)

-- Nothing fails.
abbrev pub no_failure : Outside
no_failure = record {
  checkpoint = λ _. none;
  events = λ _. none;
  upload = none;
  upsert = λ _. none;
}

module _ (sha256 : Text → Text) (message : ChainError → Text) (t : Text) (now : Time) where
  archive_events-remaining :
      (a : Archive)
      → archive_tenant sha256 message no_failure t now a ≡ (
          let (since, from, seq) = place (find_checkpoint t a.db.checkpoints) in
          archive_events sha256 message no_failure t now since from (remaining t a.db) a)
  unfolding archive_tenant get_archive_checkpoint get_chain_events
  archive_events-remaining a = refl

  -- The outcome of an archival that succeeded.
  pub record IsArchived (a : Archive) (key : Text) (a' : Archive) : Type 0 where
    pub run : archive_tenant sha256 message no_failure t now a ≡ (ok key, a')
    pub checkpoint : IsCheckpoint t a'.db
    pub complete : remaining t a'.db ≡ []
    pub sent :
        (remaining t a.db ≡ [])
        ⊎ (map (λ o. o.1.chain_records) a'.objects
            ≡ remaining t a.db ∷ map (λ o. o.1.chain_records) a.objects)

  IsArchived-none : (a : Archive) → IsCheckpoint t a.db → remaining t a.db ≡ [] → IsArchived a [] a
  unfolding archive_events
  IsArchived-none a c none_left = record {
    run =
        archive_events-remaining a
        ∙ ap
            (λ l.
              let (since, from, seq) = place (find_checkpoint t a.db.checkpoints) in
              archive_events sha256 message no_failure t now since from l a)
            none_left;
    checkpoint = c;
    complete = none_left;
    sent = inl none_left;
  }

  IsArchived-some :
      (a : Archive) {ev : ChainEvent} {events : List ChainEvent}
      → has_tenant t a.db.tenants ≡ true
      → Ascending a.db.events
      → IsChain sha256 [] (window t 0 a.db.results a.db.events)
      → IsCheckpoint t a.db
      → remaining t a.db ≡ ev ∷ events
      → (key : Text) × (a' : Archive) × IsArchived a key a'
  unfolding archive_events store_bundle upsert_archive_checkpoint bundle
  IsArchived-some a {ev} {events} known asc chain (done, split, hash) left =
      let (since, from, seq) = place (find_checkpoint t a.db.checkpoints) in
      let last = last_event ev events in
      let row : CheckpointRow = record {
        tenant_id = t;
        last_archived_at = last.received_at;
        last_hash = last.hash;
        last_event_seq = last.event_seq;
      } in
      let key = object_key t from last.hash in
      let a' : Archive = record {
        db = record a.db { checkpoints = put_checkpoint row a.db.checkpoints };
        objects = (key, bundle t now since ev events) ∷ a.objects;
      } in
      let found : find_checkpoint t (put_checkpoint row a.db.checkpoints) ≡ some row =
        find_checkpoint-put_checkpoint row a.db.checkpoints in
      let empty : remaining t a'.db ≡ [] =
        rw found (window_last t a.db.results seq a.db.events asc left) in
      let all : window t 0 a.db.results a.db.events ≡ done ++ (ev ∷ events) =
        split ∙ ap (λ l. done ++ l) left in
      let whole : IsChain sha256 [] (done ++ (ev ∷ events)) = subst (IsChain sha256 []) all chain in
      let rest : IsChain sha256 from (ev ∷ events) =
        subst (λ h. IsChain sha256 h (ev ∷ events)) hash
          (IsChain-split sha256 [] done (ev ∷ events) whole).1 in
      let verified : verify_chain_from sha256 from (ev ∷ events) ≡ ok tt =
        (verify_chain_from-IsChain sha256 from (ev ∷ events)).1 rest in
      (
        key,
        a',
        record {
          run =
              archive_events-remaining a
              ∙ ap (λ l. archive_events sha256 message no_failure t now since from l a) left
              ∙ ground (arith, verified, known);
          checkpoint = (
            done ++ (ev ∷ events),
            all
                ∙ sym (
                    ap (λ l. (done ++ (ev ∷ events)) ++ l) empty
                    ∙ append-nil (done ++ (ev ∷ events))),
            last_hash-append [] done ev events ∙ sym (ap (λ o. (place o).1) found),
          );
          complete = empty;
          sent = inr (ap (λ l. l ∷ map (λ o. o.1.chain_records) a.objects) (sym left));
        },
      )

  -- If nothing fails, the archival of a tenant in whose tables the sequence numbers ascend and whose
  -- chain verifies succeeds from any checkpoint that stands after some of its events with the hash
  -- of the last of them: one object is uploaded with exactly the events after the checkpoint, or
  -- none if there are none, and the new checkpoint is such a one again, after all of the events.
  pub archive_tenant-IsArchived :
      (a : Archive)
      → has_tenant t a.db.tenants ≡ true
      → Ascending a.db.events
      → IsChain sha256 [] (window t 0 a.db.results a.db.events)
      → IsCheckpoint t a.db
      → (key : Text) × (a' : Archive) × IsArchived a key a'
  archive_tenant-IsArchived a known asc chain c = elim (List-cases (remaining t a.db)) [
    | inl e ↦ ([], a, IsArchived-none a c e)
    | inr (ev, events, e) ↦ IsArchived-some a known asc chain c e
  ]
