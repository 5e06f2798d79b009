-- ===== src/Evidence/HashChain/Verify.antt =====
-- What `VerifyChainFrom` decides, and how it acts on the parts of a chain.
use open_clause.Base.{
  ℕ, ◌+◌, ◌≡◌, ◌≢◌, ◌⊎◌, inl, inr, refl, ap, List, [], ◌∷◌, ◌++◌, Text, ok, err, arith, length, ◌↔◌,
  text_dec,
}
use open_clause.Evidence.HashChain.{
  ChainEvent, ChainError, broken_prev, broken_hash, chain_hash, verify_loop, verify_chain_from,
}

-- The hash after the events, from the one before them.
abbrev pub last_hash : Text → List ChainEvent → Text
last_hash prev [] = prev
last_hash prev (ev ∷ events) = last_hash ev.hash events

module _ (sha256 : Text → Text) where
  -- Each event names the hash before it, and its own hash is the chain hash over that.
  abbrev pub IsChain : Text → List ChainEvent → Type 0
  IsChain prev [] = Unit
  IsChain prev (ev ∷ events) =
      (ev.prev_hash ≡ prev)
      × (ev.hash ≡ chain_hash sha256 prev ev.canon_payload ev.canon_result)
      × IsChain ev.hash events

  IsChain-of_loop :
      (i : ℕ) (prev : Text) (events : List ChainEvent)
      → verify_loop sha256 i prev events ≡ ok tt
      → IsChain prev events
  unfolding verify_loop
  IsChain-of_loop i prev [] h = tt
  IsChain-of_loop i prev (ev ∷ events) h = ground (arith, IsChain-of_loop (i + 1) ev.hash events)

  loop_of_IsChain :
      (i : ℕ) (prev : Text) (events : List ChainEvent)
      → IsChain prev events
      → verify_loop sha256 i prev events ≡ ok tt
  unfolding verify_loop
  loop_of_IsChain i prev [] h = refl
  loop_of_IsChain i prev (ev ∷ events) h =
      ground (arith, loop_of_IsChain (i + 1) ev.hash events h.2)

  -- The verification succeeds exactly on the chains.
  pub verify_chain_from-IsChain :
      (prev : Text) (events : List ChainEvent)
      → (verify_chain_from sha256 prev events ≡ ok tt) ↔ IsChain prev events
  unfolding verify_chain_from
  verify_chain_from-IsChain prev events =
      (IsChain-of_loop 0 prev events, loop_of_IsChain 0 prev events)

  pub IsChain-append :
      (prev : Text) (xs ys : List ChainEvent)
      → IsChain prev xs
      → IsChain (last_hash prev xs) ys
      → IsChain prev (xs ++ ys)
  IsChain-append prev [] ys h k = k
  IsChain-append prev (x ∷ xs) ys (a, b, c) k = (a, b, IsChain-append x.hash xs ys c k)

  pub IsChain-split :
      (prev : Text) (xs ys : List ChainEvent)
      → IsChain prev (xs ++ ys)
      → IsChain prev xs × IsChain (last_hash prev xs) ys
  IsChain-split prev [] ys k = (tt, k)
  IsChain-split prev (x ∷ xs) ys (a, b, c) =
      let (d, e) = IsChain-split x.hash xs ys c in ((a, b, d), e)

  -- Where an event is broken: its link or its own hash.
  abbrev pub IsBroken : Text → ChainEvent → Type 0
  IsBroken prev ev =
      (ev.prev_hash ≢ prev) ⊎ (ev.hash ≢ chain_hash sha256 prev ev.canon_payload ev.canon_result)

  abbrev pub index : ChainError → ℕ
  index (broken_prev i _ _ _) = i
  index (broken_hash i _ _ _) = i

  abbrev pub event : ChainError → Text
  event (broken_prev _ e _ _) = e
  event (broken_hash _ e _ _) = e

  -- The events split at the one that the error names: a chain before it, and it does not follow.
  pub record BreaksAt (i : ℕ) (prev : Text) (events : List ChainEvent) (e : ChainError)
      : Type 0 where
    pub before : List ChainEvent
    pub broken : ChainEvent
    pub after : List ChainEvent
    pub splits : events ≡ before ++ (broken ∷ after)
    pub at_index : index e ≡ i + length before
    pub named : event e ≡ broken.event_id
    pub sound : IsChain prev before
    pub breaks : IsBroken (last_hash prev before) broken

  loop-BreaksAt :
      (i : ℕ) (prev : Text) (events : List ChainEvent) {e : ChainError}
      → verify_loop sha256 i prev events ≡ err e
      → BreaksAt i prev events e
  unfolding verify_loop
  loop-BreaksAt i prev [] h = absurd (ground arith)
  loop-BreaksAt i prev (ev ∷ events) {e} h = elim (text_dec ev.prev_hash prev) [
    | no p ↦ here (inl p) (ground arith) (ground arith)
    | yes p ↦ elim (text_dec ev.hash (chain_hash sha256 prev ev.canon_payload ev.canon_result)) [
      | no q ↦ here (inr q) (ground arith) (ground arith)
      | yes q ↦ later p q (loop-BreaksAt (i + 1) ev.hash events (ground arith))
    ]
  ]
    where
      here :
          IsBroken prev ev
          → index e ≡ i + 0
          → event e ≡ ev.event_id
          → BreaksAt i prev (ev ∷ events) e
      here b n m = record {
        before = [];
        broken = ev;
        after = events;
        splits = refl;
        at_index = n;
        named = m;
        sound = tt;
        breaks = b;
      }

      later :
          ev.prev_hash ≡ prev
          → ev.hash ≡ chain_hash sha256 prev ev.canon_payload ev.canon_result
          → BreaksAt (i + 1) ev.hash events e
          → BreaksAt i prev (ev ∷ events) e
      later p q r = record {
        before = ev ∷ r.before;
        broken = r.broken;
        after = r.after;
        splits = ap (◌∷◌ ev) r.splits;
        at_index = omega (arith, r.at_index);
        named = r.named;
        sound = (p, q, r.sound);
        breaks = r.breaks;
      }

  -- A failed verification names the first event that breaks the chain, by its index and its id.
  pub verify_chain_from-BreaksAt :
      (prev : Text) (events : List ChainEvent) {e : ChainError}
      → verify_chain_from sha256 prev events ≡ err e
      → BreaksAt 0 prev events e
  unfolding verify_chain_from
  verify_chain_from-BreaksAt prev events h = loop-BreaksAt 0 prev events h
