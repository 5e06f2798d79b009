-- ===== src/Tests/Polling.antt =====
-- The polling for an execution, on the modelled evidence store.
use open_clause.Base.{◌≡◌, ◌++◌, refl, false, none, [], text, text_dec, replicate, err, ok}
use open_clause.Types.Errors.{conflict}
use open_clause.Evidence.Store.Read.{get_execution_by_parent_event, find_parent}
use open_clause.Gateway.Model.{World, failed, looked_up}
use open_clause.Gateway.Execution.{execute_poll_count, poll}
use open_clause.Gateway.Execution.Isolated.{IsIdle, poll-awaiting}
use open_clause.Gateway.Wired.{wired}
use open_clause.Tests.Fixtures.{codec, keep}
use open_clause.Tests.Recording.{two_events}
use open_clause.Tests.Repeating.{rest}

abbrev waiting : World (wired keep codec rest)
waiting = record { state = (two_events, tt); calls = [] }

idle : IsIdle (wired keep codec rest) (text "1") execute_poll_count waiting.state
unfolding get_execution_by_parent_event find_parent text text_dec
idle = (refl, (refl, (refl, (refl, (refl, tt)))))

poll-awaiting_example :
    (w' : World (wired keep codec rest)) × (poll (text "1") (λ _. false) execute_poll_count waiting
      ≡ (err (failed (conflict (text "awaiting approval"))), w'))
    × (w'.calls ≡ replicate execute_poll_count (looked_up (text "1") (ok none)) ++ [])
poll-awaiting_example = poll-awaiting (text "1") execute_poll_count waiting idle
