-- ===== src/Archiver/Complete.antt =====
-- What a run of the archiver achieves for each tenant, whatever happens to the others.
use open_clause.Base.{
  ℕ, ◌≡◌, ◌≢◌, refl, sym, ap, ◌∙◌, ◌⊎◌, inl, inr, true, none, List, [], ◌∷◌, ◌++◌, Text, text_dec,
  ok, Faults, map, arith,
}
use mathlib.Core.Path.{subst}
use open_clause.Base.Order.{sort, insert_key}
use mathlib.Core.List.{append_assoc}
use open_clause.Types.ToolCall.{Time}
use open_clause.Evidence.HashChain.{ChainEvent, ChainError}
use open_clause.Evidence.Store.Tables.{Db, has_tenant}
use open_clause.Evidence.Store.Read.{list_tenant_ids}
use open_clause.Archiver.{Bundle, Archive, Outside, archive_tenant}
use open_clause.Archiver.Checkpoints.{
  remaining, IsCheckpoint, no_failure, archive_tenant-IsArchived,
}
use open_clause.Archiver.Run.{archive_tenants, archive_tenants-objects, run, tenants_of}
use open_clause.Archiver.Kept.{archive_tenant-Keeps, IsReady, IsReady-Keeps, remaining-Keeps}

insert_key-has : (t s : Text) (l : List Text) → has_tenant t (insert_key s l) ≡ has_tenant t (s ∷ l)
unfolding insert_key has_tenant
insert_key-has t s [] = refl
insert_key-has t s (u ∷ l) = ground (arith, insert_key-has t s l)

sort-has : (t : Text) (l : List Text) → has_tenant t (sort l) ≡ has_tenant t l
unfolding sort has_tenant
sort-has t [] = refl
sort-has t (s ∷ l) = insert_key-has t s (sort l) ∙ ground (arith, sort-has t l)

-- Among the objects is one with just these events.
abbrev pub IsStored : List ChainEvent → List (Text × Bundle) → Type 0
IsStored events objects =
    (newer : List (Text × Bundle)) × (o : Text × Bundle) × (older : List (Text × Bundle)) × (objects
      ≡ newer ++ (o ∷ older))
    × (o.1.chain_records ≡ events)

-- What a run achieves for a tenant: nothing remains to be archived, and what remained is stored.
pub record IsComplete (t : Text) (a a' : Archive) : Type 0 where
  pub checkpoint : IsCheckpoint t a'.db
  pub complete : remaining t a'.db ≡ []
  pub stored : (remaining t a.db ≡ []) ⊎ IsStored (remaining t a.db) a'.objects

IsStored-head :
    (events : List ChainEvent) (objects before : List (Text × Bundle))
    → map (λ o. o.1.chain_records) objects ≡ events ∷ map (λ o. o.1.chain_records) before
    → IsStored events objects
IsStored-head events [] before e = absurd (ground arith)
IsStored-head events (o ∷ older) before e = ([], o, older, refl, ground arith)

IsStored-append :
    (events : List ChainEvent) (new objects : List (Text × Bundle))
    → IsStored events objects
    → IsStored events (new ++ objects)
IsStored-append events new objects (newer, o, older, e, h) =
    (new ++ newer, o, older, ap (λ l. new ++ l) e ∙ sym (append_assoc new newer (o ∷ older)), h)

module _ (sha256 : Text → Text) (message : ChainError → Text) (out : Text → Outside)
    (now : Text → Time) (t : Text) (fine : out t ≡ no_failure) where
  abbrev step : Text → Archive → Archive
  step s a = (archive_tenant sha256 message (out s) s (now s) a).1

  -- The archival of the tenant itself.
  own :
      (a : Archive)
      → IsReady sha256 t a.db
      → IsReady sha256 t (step t a).db × IsComplete t a (step t a)
  own a r =
      let (key, a', done) =
        archive_tenant-IsArchived sha256 message t (now t) a r.known r.ascending r.chain
          r.checkpoint in
      let e : step t a ≡ a' =
        ap (λ o. (archive_tenant sha256 message o t (now t) a).1) fine ∙ ap (λ x. x.1) done.run in
      let k = archive_tenant-Keeps sha256 message (out t) t (now t) a in
      let c : IsCheckpoint t (step t a).db = rw e done.checkpoint in
      (
        record {
          known = rw k.tenants r.known;
          ascending = rw k.events r.ascending;
          chain = rw (k.events, k.results) r.chain;
          checkpoint = c;
        },
        record {
          checkpoint = c;
          complete = rw e done.complete;
          stored = elim done.sent [
            | inl h ↦ inl h
            | inr h ↦ inr (IsStored-head (remaining t a.db) (step t a).objects a.objects (rw e h))
          ];
        },
      )

  -- What was achieved for the tenant lasts.
  lasting :
      (ts : List Text) (a : Archive)
      → IsReady sha256 t a.db
      → remaining t a.db ≡ []
      → let a' = archive_tenants sha256 message out now ts a in
        IsCheckpoint t a'.db × (remaining t a'.db ≡ [])
  unfolding archive_tenants
  lasting [] a r e = (r.checkpoint, e)
  lasting (s ∷ ts) a r e = elim (text_dec s t) [
    | yes p ↦
        let (ready, done) = own a r in
        subst
          (λ s.
            let a' = archive_tenants sha256 message out now ts (step s a) in
            IsCheckpoint t a'.db × (remaining t a'.db ≡ []))
          (sym p) (lasting ts (step t a) ready done.complete)
    | no n ↦
        let k = archive_tenant-Keeps sha256 message (out s) s (now s) a in
        lasting ts (step s a) (IsReady-Keeps n k sha256 r) (remaining-Keeps n k ∙ e)
  ]

  archive_tenants-IsComplete :
      (ts : List Text) (a : Archive)
      → has_tenant t ts ≡ true
      → IsReady sha256 t a.db
      → IsComplete t a (archive_tenants sha256 message out now ts a)
  unfolding archive_tenants has_tenant
  archive_tenants-IsComplete [] a h r = absurd (ground arith)
  archive_tenants-IsComplete (s ∷ ts) a h r = elim (text_dec s t) [
    | yes p ↦
        let (ready, done) = own a r in
        let a₁ = step t a in
        let (c, e) = lasting ts a₁ ready done.complete in
        let (new, objects) = archive_tenants-objects sha256 message out now ts a₁ in
        subst (λ s. IsComplete t a (archive_tenants sha256 message out now ts (step s a))) (sym p)
          (record {
            checkpoint = c;
            complete = e;
            stored = elim done.stored [
              | inl none_left ↦ inl none_left
              | inr stored ↦ inr (
                  subst (IsStored (remaining t a.db)) (sym objects)
                    (IsStored-append (remaining t a.db) new a₁.objects stored))
            ];
          })
    | no n ↦
        let k = archive_tenant-Keeps sha256 message (out s) s (now s) a in
        let done =
          archive_tenants-IsComplete ts (step s a) (ground arith) (IsReady-Keeps n k sha256 r) in
        record {
          checkpoint = done.checkpoint;
          complete = done.complete;
          stored =
              subst
                (λ l.
                  (l ≡ [])
                  ⊎ IsStored l (archive_tenants sha256 message out now ts (step s a)).objects)
                (remaining-Keeps n k) done.stored;
        }
  ]

  -- The tenants of a run have the tenant among them.
  chosen :
      (f : Faults) (once_tenant : Text) (db : Db)
      → has_tenant t db.tenants ≡ true
      → ((once_tenant ≡ []) × ((i : ℕ) → f i ≡ none)) ⊎ ((once_tenant ≡ t) × (t ≢ []))
      → (ts : List Text) × (tenants_of f once_tenant db ≡ ok ts) × (has_tenant t ts ≡ true)
  unfolding tenants_of list_tenant_ids has_tenant
  chosen f once_tenant db known (inl (e, listing)) = (
    sort db.tenants,
    ground (arith, listing 0, listing 1, listing 2),
    sort-has t db.tenants ∙ known,
  )
  chosen f once_tenant db known (inr (e, set)) = (t ∷ [], ground arith, ground arith)

  run-tenants :
      (f : Faults) (once_tenant : Text) (ts : List Text) (a : Archive)
      → tenants_of f once_tenant a.db ≡ ok ts
      → run sha256 message out now f once_tenant a ≡ archive_tenants sha256 message out now ts a
  unfolding run
  run-tenants f once_tenant ts a h = ground arith

  -- A run of the archiver, of all tenants if they can be listed, or of the tenant alone, completes
  -- the tenant, if nothing fails for it, and whatever fails for the others, provided that it is
  -- known, the sequence numbers ascend, its chain verifies, and its checkpoint stands after some of
  -- its events with the hash of the last: then no event of it remains, its checkpoint is such a one
  -- again, and the events that remained before are an object of the archive, if there were any.
  pub run-IsComplete :
      (f : Faults) (once_tenant : Text) (a : Archive)
      → ((once_tenant ≡ []) × ((i : ℕ) → f i ≡ none)) ⊎ ((once_tenant ≡ t) × (t ≢ []))
      → IsReady sha256 t a.db
      → IsComplete t a (run sha256 message out now f once_tenant a)
  run-IsComplete f once_tenant a choice r =
      let (ts, listed, has) = chosen f once_tenant a.db r.known choice in
      subst (IsComplete t a) (sym (run-tenants f once_tenant ts a listed))
        (archive_tenants-IsComplete ts a has r)
