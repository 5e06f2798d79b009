-- ===== src/Sdk/First.antt =====
-- What the wait for an approval returns.
use open_clause.Base.{
  ◌≡◌, ◌↔◌, ap, inl, inr, refl, Bool-cases, Result-cases, true, false, some, List, [], ◌∷◌, ◌++◌,
  Text, All, Result, ok, err, arith,
}
use open_clause.Types.Policy.{ToolCallResponse}
use open_clause.Http.{run}
use open_clause.Sdk.{
  Client, Codec, SdkError, other, execute, is_retryable, Event, ended, tick,
  wait_for_approval_then_execute,
}

module _ (c : Codec) (client : Client) (id : Text) where
  -- A tick at which the execution fails with an error that may pass.
  abbrev pub IsPassing : Event → Type 0
  IsPassing (ended e) = ⊥
  IsPassing (tick world) =
      (e : SdkError) × (run world (execute c client id) ≡ err e) × (is_retryable e ≡ true)

  -- An event with which the wait is over, and its outcome.
  abbrev pub Decides : Event → Result SdkError ToolCallResponse → Type 0
  Decides (ended e) result = result ≡ err (other e)
  Decides (tick world) result =
      (run world (execute c client id) ≡ result)
      × ((e : SdkError) → result ≡ err e → is_retryable e ≡ false)

  abbrev pub IsFirst : List Event → Result SdkError ToolCallResponse → Type 0
  IsFirst events result =
      (before : List Event) × (event : Event) × (after : List Event) × (events
        ≡ before ++ (event ∷ after))
      × All IsPassing before
      × Decides event result

  returns-IsFirst :
      (events : List Event) {result : Result SdkError ToolCallResponse}
      → wait_for_approval_then_execute c client id events ≡ some result
      → IsFirst events result
  unfolding wait_for_approval_then_execute
  returns-IsFirst [] h = absurd (ground arith)
  returns-IsFirst (ended e ∷ events) h = ([], ended e, events, refl, tt, ground arith)
  returns-IsFirst (tick world ∷ events) {result} h =
      elim (Result-cases (run world (execute c client id))) [
        | inl (r, p) ↦
            let same : result ≡ ok r = ground arith in
            ([], tick world, events, refl, tt, (ground arith, λ e q. absurd (ground arith)))
        | inr (e, p) ↦ elim (Bool-cases (is_retryable e)) [
          | inl q ↦
              let (before, event, after, split, passing, decides) =
                returns-IsFirst events (ground arith) in
              (
                tick world ∷ before,
                event,
                after,
                ap (λ (l : List Event). tick world ∷ l) split,
                ((e, p, q), passing),
                decides,
              )
          | inr q ↦
              let same : result ≡ err e = ground arith in
              ([], tick world, events, refl, tt, (ground arith, λ e' q'. ground arith))
        ]
      ]

  first-returns :
      (before : List Event) (event : Event) (after : List Event)
      {result : Result SdkError ToolCallResponse}
      → All IsPassing before
      → Decides event result
      → wait_for_approval_then_execute c client id (before ++ (event ∷ after)) ≡ some result
  unfolding wait_for_approval_then_execute
  first-returns [] (ended e) after passing decides = ground arith
  first-returns [] (tick world) after {result = ok r} passing decides = ground arith
  first-returns [] (tick world) after {result = err e} passing decides =
      ground (arith, decides.1 e refl)
  first-returns (ended e ∷ before) event after passing decides = absurd passing.0
  first-returns (tick world ∷ before) event after passing decides =
      let (e, p, q) = passing.0 in
      ground (arith, first-returns before event after passing.1 decides)

  -- The wait returns a result exactly if, after ticks at each of which the execution failed with
  -- an error that may pass, an event came that decides it: the context was done, with its error,
  -- or a tick at which the execution gave that result, a response or an error that does not pass.
  pub wait-IsFirst :
      (events : List Event) (result : Result SdkError ToolCallResponse)
      → (wait_for_approval_then_execute c client id events ≡ some result) ↔ IsFirst events result
  wait-IsFirst events result = (
    returns-IsFirst events,
    λ (before, event, after, split, passing, decides).
        rw split (first-returns before event after passing decides),
  )
