-- ===== src/Tests/Recording.antt =====
-- An event that is recorded twice, and an execution that is linked twice.
use open_clause.Base.{
  ◌≡◌, ◌⊎◌, ◌++◌, Faults, refl, Bool, true, false, none, some, [], ◌∷◌, Text, text, text_dec,
  Result, ok, err, arith,
}
use open_clause.Types.Policy.{allow, approve, ToolCallEnvelope}
use open_clause.Evidence.HashChain.{chain_hash}
use open_clause.Evidence.Canonical.{canonical_json}
use open_clause.Evidence.Store.Tables.{
  Db, insert_event, insert_result, insert_execution, has_event, has_result, has_tenant, has_key,
  has_parent, has_execution,
}
use open_clause.Evidence.Store.Write.{
  event_row, canonical_result, save_result, record_event_tx, record_event, link_execution_to_parent,
}
use open_clause.Evidence.Store.Read.{check_idempotency, get_event, find_parent, window}
use open_clause.Evidence.Store.Chains.{IsConsistent, record_event-IsConsistent}
use open_clause.Evidence.Store.Later
use open_clause.Evidence.Store.Later.{here, linked}
use open_clause.Evidence.Store.Idempotency.{
  replay, check_idempotency-record_event, record_event-taken,
}
use open_clause.Evidence.Store.Links.{link_row, link_execution_to_parent_once}
use open_clause.Evidence.Store.Refused.{get_event-err}
use open_clause.Tests.Fixtures.{no_faults, event, codec, keep, no_events}

pub consistent : IsConsistent keep codec no_events
unfolding has_result window
consistent = record {
  chains = λ t. tt;
  known = λ id h. absurd (ground arith);
  numbered = tt;
  started = omega arith;
}

record_event-IsConsistent_example :
    IsConsistent keep codec (record_event keep codec no_faults (event allow (text "1")) no_events).1
record_event-IsConsistent_example =
    record_event-IsConsistent keep codec no_faults (event allow (text "1")) no_events consistent

-- The envelope of a call that succeeded.
abbrev envelope_of : Result Text ToolCallEnvelope → ToolCallEnvelope
envelope_of (ok env) = env
envelope_of (err e) = event allow []

abbrev pub outcome : Result Text ToolCallEnvelope × Db
outcome = record_event keep codec no_faults (event allow (text "1")) no_events

recorded : outcome ≡ (ok (envelope_of outcome.0), outcome.1)
unfolding record_event record_event_tx canonical_result save_result insert_event insert_result
    canonical_json chain_hash text text_dec has_tenant has_event has_key has_result
recorded = refl

-- Afterwards the key is refused to another event, and a link fails.
abbrev failing : Faults
failing i = some (text "reset")

abbrev refused : Db
refused = (record_event keep codec no_faults (event allow (text "2")) outcome.1).1

abbrev after : Db
after = (link_execution_to_parent failing (text "1") (text "2") (text "g") refused).1

check_idempotency-record_event_example :
    check_idempotency no_faults (text "t") (text "k") after
    ≡ ok (some (replay (event allow (text "1"))))
check_idempotency-record_event_example =
    check_idempotency-record_event keep codec no_faults no_faults (event allow (text "1")) no_events
      recorded
      (linked failing (text "1") (text "2") (text "g")
        (Later.recorded no_faults (event allow (text "2")) here))
      refl

record_event-taken_example :
    (e : Text) × (record_event keep codec no_faults (event allow (text "2")) outcome.1
      ≡ (err e, outcome.1))
record_event-taken_example =
    record_event-taken keep codec no_faults no_faults (event allow (text "1"))
      (event allow (text "2")) no_events recorded refl refl

get_event-err_example : (e : Text) × (get_event no_faults (text "1") outcome.1 ≡ err e)
get_event-err_example = get_event-err no_faults (text "1") outcome.1

-- An approved event and the event of its execution.
abbrev pub two_events : Db
two_events = record no_events {
  events =
      event_row (event approve (text "1")) [] [] []
      ∷ event_row (event allow (text "2")) [] [] []
      ∷ [];
}

abbrev link_outcome : Result Text Bool × Db
link_outcome = link_execution_to_parent no_faults (text "1") (text "2") (text "g") two_events

is_linked : link_outcome ≡ (ok true, link_outcome.1)
unfolding link_execution_to_parent insert_execution has_parent has_execution has_event text text_dec
is_linked = refl

abbrev third : Db
third = (record_event keep codec no_faults (event allow (text "3")) link_outcome.1).1

link_execution_to_parent_once_example :
    (find_parent (text "1") third.executions ≡ some (link_row (text "1") (text "2") (text "g")))
    × ((g : Faults) (execution' grant' : Text)
        → let again = link_execution_to_parent g (text "1") execution' grant' third in
          ((g 0 ≡ none) × (again ≡ (ok false, third)))
          ⊎ ((e : Text) × (g 0 ≡ some e)
              × (again ≡ (err (text "evidence.LinkExecutionToParent: " ++ e), third))))
link_execution_to_parent_once_example =
    link_execution_to_parent_once keep codec no_faults (text "1") (text "2") (text "g") two_events
      is_linked (Later.recorded no_faults (event allow (text "3")) here)
