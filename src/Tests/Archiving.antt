-- ===== src/Tests/Archiving.antt =====
-- A run of the archiver over two tenants, of which one fails and the other has an event.
use open_clause.Base.{
  ◌≡◌, refl, true, [], ◌∷◌, Text, text, text_dec, ◌==◌, inl, some, if◌then◌else◌,
}
use open_clause.Types.Policy.{allow}
use open_clause.Evidence.Canonical.{canonical_json}
use open_clause.Evidence.HashChain.{ChainError, chain_hash}
use open_clause.Evidence.Store.Tables.{
  has_tenant, has_event, has_key, has_result, insert_event, insert_result,
}
use open_clause.Evidence.Store.Write.{canonical_result, save_result, record_event_tx, record_event}
use open_clause.Evidence.Store.Read.{find_checkpoint}
use open_clause.Evidence.Store.Chains.{record_event-IsConsistent}
use open_clause.Archiver.{Archive, Outside}
use open_clause.Archiver.Windows.{Ascending}
use open_clause.Archiver.Checkpoints.{IsCheckpoint, no_failure}
use open_clause.Archiver.Run.{run}
use open_clause.Archiver.Kept.{IsReady}
use open_clause.Archiver.Complete.{IsComplete, run-IsComplete}
use open_clause.Tests.Fixtures.{no_faults, event, codec, keep, no_events}
use open_clause.Tests.Recording.{outcome, consistent}

abbrev message : ChainError → Text
message e = []

abbrev archive : Archive
archive = record { db = record outcome.1 { tenants = text "s" ∷ text "t" ∷ [] }; objects = [] }

known : has_tenant (text "t") archive.db.tenants ≡ true
unfolding record_event record_event_tx canonical_result save_result insert_event insert_result
    canonical_json chain_hash text text_dec has_tenant has_event has_key has_result
known = refl

ascending : Ascending archive.db.events
unfolding record_event record_event_tx canonical_result save_result insert_event insert_result
    canonical_json chain_hash text text_dec has_tenant has_event has_key has_result
ascending = (tt, tt)

begins : IsCheckpoint (text "t") archive.db
unfolding record_event record_event_tx canonical_result save_result insert_event insert_result
    canonical_json chain_hash text text_dec has_tenant has_event has_key has_result find_checkpoint
begins = ([], refl, refl)

-- Every call fails but for the tenant "t".
abbrev outside : Text → Outside
outside s = if s == text "t" then no_failure else record {
  checkpoint = λ _. some (text "reset");
  events = λ _. some (text "reset");
  upload = some (text "reset");
  upsert = λ _. some (text "reset");
}

ready : IsReady keep (text "t") archive.db
ready = record {
  known = known;
  ascending = ascending;
  chain =
      (record_event-IsConsistent keep codec no_faults (event allow (text "1")) no_events
          consistent).chains
        (text "t");
  checkpoint = begins;
}

fine : outside (text "t") ≡ no_failure
unfolding text text_dec
fine = refl

run-IsComplete_example :
    IsComplete (text "t") archive (run keep message outside (λ _. 50) no_faults [] archive)
run-IsComplete_example =
    run-IsComplete keep message outside (λ _. 50) (text "t") fine no_faults [] archive
      (inl (refl, λ i. refl)) ready
