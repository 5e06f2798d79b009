-- ===== src/Gateway/Execution/Isolated.antt =====
-- What the handlers of an event show, and how long one polls.
use open_clause.Base.{
  ℕ, zero, suc, ◌≡◌, refl, inl, inr, Bool-cases, Bool, true, false, none, some, ◌∷◌, Text, arith,
  ok, err, text, ◌++◌, ◌∙◌, replicate, replicate-append,
}
use open_clause.Types.Errors.{conflict}
use open_clause.Types.Policy.{ToolCallEnvelope}
use open_clause.Gateway.Model.{Services, World, failed, shown, looked_up}
use open_clause.Gateway.Calls.{get_execution}
use open_clause.Gateway.Execution.{is_foreign, replay, replay_execution, poll, handle_get_event}
use open_clause.Gateway.Execution.Outcomes.{find_event-cases}

module _ (S : Services) where
  -- In each of the next look-ups, as many as the count says, each in the state that the one before
  -- left, there is no failure and no execution.
  abbrev pub IsIdle : Text → ℕ → S.State → Type 0
  IsIdle id zero st = Unit
  IsIdle id (suc n) st =
      let (answer, st') = S.get_execution_by_parent_event id st in
      (answer ≡ ok none) × IsIdle id n st'

module _ {S : Services} where
  -- `HandleGetEvent` shows an event only if the store answered it for the id, the id is a UUID, and
  -- the event is none of another tenant's than the key's.
  pub handle_get_event-own :
      (is_uuid : Text → Bool) (auth id : Text) (w : World S) {env : ToolCallEnvelope} {w' : World S}
      → handle_get_event is_uuid auth id w ≡ (ok (shown env), w')
      → (is_uuid id ≡ true)
        × (is_foreign auth env ≡ false)
        × ((S.get_event id w.state).0 ≡ ok (some env))
  unfolding handle_get_event
  handle_get_event-own is_uuid auth id w h = elim (Bool-cases (is_uuid id)) [
    | inr k ↦ absurd (ground arith)
    | inl k ↦ elim (find_event-cases auth id w) [
      | inr (e, l) ↦ absurd (ground arith)
      | inl (found, l, own, m) ↦ (k, ground arith, ground arith)
    ]
  ]

  replay_nothing :
      (id : Text) (w : World S)
      → let (answer, st) = S.get_execution_by_parent_event id w.state in
        let w' : World S = record { state = st; calls = looked_up id (ok none) ∷ w.calls } in
        answer ≡ ok none → replay_execution id w ≡ (ok tt, w')
  unfolding replay_execution get_execution replay
  replay_nothing id w h = ground arith

  -- If the context is not done, and no look-up fails or finds an execution in the state that the one
  -- before left, the polling looks the execution up as often as its count says, makes no other call,
  -- and then answers that the approval is awaited.
  pub poll-awaiting :
      (id : Text) (n : ℕ) (w : World S)
      → IsIdle S id n w.state
      → (w' : World S) × (poll id (λ _. false) n w
          ≡ (err (failed (conflict (text "awaiting approval"))), w'))
        × (w'.calls ≡ replicate n (looked_up id (ok none)) ++ w.calls)
  unfolding poll
  poll-awaiting id zero w h = (w, refl, refl)
  poll-awaiting id (suc n) w h =
      let w1 : World S = record {
        state = (S.get_execution_by_parent_event id w.state).1;
        calls = looked_up id (ok none) ∷ w.calls;
      } in
      let (w', e, l) = poll-awaiting id n w1 h.1 in
      (
        w',
        ground (arith, replay_nothing id w h.0, e),
        l ∙ replicate-append n (looked_up id (ok none)) w.calls,
      )
