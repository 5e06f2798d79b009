-- ===== src/Archiver/Run.antt =====
-- A run of `cmd/archiver/main.go` over the tenants.
use open_clause.Base.{
  ◌≡◌, ◌⊎◌, inl, inr, refl, sym, ap, ◌∙◌, Result-cases, Option-cases, List, [], ◌∷◌, ◌++◌, Text,
  is_empty, if◌then◌else◌, Result, ok, err, Faults, arith,
}
use mathlib.Core.List.{append_assoc}
use open_clause.Types.ToolCall.{Time}
use open_clause.Evidence.HashChain.{ChainError}
use open_clause.Evidence.Store.Tables.{Db}
use open_clause.Evidence.Store.Read.{
  list_tenant_ids, get_archive_checkpoint, get_chain_events, upsert_archive_checkpoint,
}
use open_clause.Evidence.HashChain.{ChainEvent, verify_chain_from}
use open_clause.Archiver.{
  Bundle, Archive, Outside, last_event, object_key, bundle, archive_tenant, archive_events,
  store_bundle,
}

-- The tenant of the configuration, or all.
unfoldable pub tenants_of : Faults → Text → Db → Result Text (List Text)
tenants_of f once_tenant db =
    if is_empty once_tenant then list_tenant_ids f db else ok (once_tenant ∷ [])

module _ (sha256 : Text → Text) (message : ChainError → Text) (out : Text → Outside)
    (now : Text → Time) where
  -- The loop: an error is logged, and the next tenant follows. What the environment answers and
  -- the time are given for each tenant.
  unfoldable pub archive_tenants : List Text → Archive → Archive
  archive_tenants [] a = a
  archive_tenants (t ∷ ts) a =
      archive_tenants ts (archive_tenant sha256 message (out t) t (now t) a).1

  -- `run`.
  unfoldable pub run : Faults → Text → Archive → Archive
  run f once_tenant a = elim (tenants_of f once_tenant a.db) [
    | err e ↦ a
    | ok tenants ↦ archive_tenants tenants a
  ]

  -- The objects after an archival: one more, or the same.
  abbrev Adds : Archive → Archive → Type 0
  Adds a a' = (a'.objects ≡ a.objects) ⊎ ((o : Text × Bundle) × (a'.objects ≡ o ∷ a.objects))

  store_bundle-Adds :
      (o : Outside) (t : Text) (at since : Time) (from : Text) (ev : ChainEvent)
      (events : List ChainEvent) (a : Archive)
      → Adds a (store_bundle sha256 message o t at since from ev events a).1
  unfolding store_bundle
  store_bundle-Adds o t at since from ev events a =
      let last = last_event ev events in
      let new : Text × Bundle = (object_key t from last.hash, bundle t at since ev events) in
      let stored =
        upsert_archive_checkpoint o.upsert t last.received_at last.hash last.event_seq a.db in
      elim (Option-cases o.upload) [
        | inr (e, p) ↦ inl (ground arith)
        | inl p ↦ elim (Result-cases (stored.0)) [
          | inr (e, q) ↦ inr (new, ground arith)
          | inl (_, q) ↦ inr (new, ground arith)
        ]
      ]

  archive_tenant-Adds :
      (t : Text) (a : Archive) → Adds a (archive_tenant sha256 message (out t) t (now t) a).1
  unfolding archive_tenant archive_events
  archive_tenant-Adds t a = elim (Result-cases (get_archive_checkpoint (out t).checkpoint t a.db)) [
    | inr (e, p) ↦ inl (ground arith)
    | inl ((since, from, seq), p) ↦
        elim (Result-cases (get_chain_events (out t).events t seq a.db)) [
          | inr (e, q) ↦ inl (ground arith)
          | inl ([], q) ↦ inl (ground arith)
          | inl (ev ∷ events, q) ↦
              elim (Result-cases (verify_chain_from sha256 from (ev ∷ events))) [
                | inr (e, r) ↦ inl (ground arith)
                | inl (_, r) ↦
                    rw (p, archive_tenant)
                      (rw (q, archive_events)
                        (rw (r, archive_events)
                          (store_bundle-Adds (out t) t (now t) since from ev events a)))
              ]
        ]
  ]

  -- A run drops no object that was uploaded, whatever fails for whichever tenant: the objects
  -- afterwards are new ones in front of those before.
  pub archive_tenants-objects :
      (ts : List Text) (a : Archive)
      → (new : List (Text × Bundle)) × ((archive_tenants ts a).objects ≡ new ++ a.objects)
  unfolding archive_tenants
  archive_tenants-objects [] a = ([], refl)
  archive_tenants-objects (t ∷ ts) a =
      let a' = (archive_tenant sha256 message (out t) t (now t) a).1 in
      let (new, rest) = archive_tenants-objects ts a' in
      elim (archive_tenant-Adds t a) [
        | inl same ↦ (new, rest ∙ ap (λ (l : List (Text × Bundle)). new ++ l) same)
        | inr (o, added) ↦ (
          new ++ (o ∷ []),
          rest
              ∙ ap (λ (l : List (Text × Bundle)). new ++ l) added
              ∙ sym (append_assoc new (o ∷ []) a.objects),
        )
      ]
