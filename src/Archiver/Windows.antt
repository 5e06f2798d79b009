-- ===== src/Archiver/Windows.antt =====
-- What a tenant has recorded after a place in the sequence.
use open_clause.Base.{
  ℕ, ◌≤◌, ◌<◌, ◌≡◌, refl, ◌⊎◌, inl, inr, Bool-cases, ◌&&◌, List, [], ◌∷◌, ◌++◌, Text, ◌==◌, ltb,
  All, arith,
}
use mathlib.Core.Path.{subst}
use open_clause.Evidence.HashChain.{ChainEvent}
use open_clause.Evidence.HashChain.Verify.{last_hash}
use open_clause.Evidence.Store.Tables.{EventRow, ResultRow}
use open_clause.Evidence.Store.Read.{chain_event, window}
use open_clause.Archiver.{last_event}

-- The sequence numbers ascend.
abbrev pub Ascending : List EventRow → Type 0
Ascending [] = Unit
Ascending (r ∷ rows) = All (λ x. r.event_seq < x.event_seq) rows × Ascending rows

pub List-cases {ℓ} : {A : Type ℓ} (l : List A) → (l ≡ []) ⊎ ((x : A) × (xs : List A) × (l ≡ x ∷ xs))
List-cases [] = inl refl
List-cases (x ∷ xs) = inr (x, xs, refl)

module _ (t : Text) (results : List ResultRow) where
  window-All :
      (b after : ℕ) (rows : List EventRow)
      → All (λ x. b < x.event_seq) rows
      → All (λ ev. b < ev.event_seq) (window t after results rows)
  unfolding window chain_event
  window-All b after [] h = tt
  window-All b after (r ∷ rows) h = ground (arith, window-All b after rows h.1)

  window_above :
      (after : ℕ) (rows : List EventRow)
      → All (λ ev. after < ev.event_seq) (window t after results rows)
  unfolding window chain_event
  window_above after [] = tt
  window_above after (r ∷ rows) = ground (arith, window_above after rows)

  last_event-All :
      (b : ℕ) (ev : ChainEvent) (events : List ChainEvent)
      → All (λ x. b < x.event_seq) (ev ∷ events)
      → b < (last_event ev events).event_seq
  unfolding last_event
  last_event-All b ev [] h = h.0
  last_event-All b ev (next ∷ events) h = last_event-All b next events h.1

  window_later :
      (after b : ℕ) (rows : List EventRow)
      → after ≤ b
      → window t after results rows ≡ []
      → window t b results rows ≡ []
  unfolding window
  window_later after b [] h e = refl
  window_later after b (r ∷ rows) h e = ground (arith, window_later after b rows h)

  -- After the last event of a window there is none.
  pub window_last :
      (after : ℕ) (rows : List EventRow) {ev : ChainEvent} {events : List ChainEvent}
      → Ascending rows
      → window t after results rows ≡ ev ∷ events
      → window t (last_event ev events).event_seq results rows ≡ []
  unfolding window chain_event last_event
  window_last after [] a e = absurd (ground arith)
  window_last after (r ∷ rows) {ev} {events} a e =
      elim (Bool-cases (r.tenant_id == t && ltb after r.event_seq)) [
        | inr h ↦
            let e' : window t after results rows ≡ ev ∷ events = ground arith in
            let above : All (λ x. after < x.event_seq) (ev ∷ events) =
              subst (λ l. All (λ x. after < x.event_seq) l) e' (window_above after rows) in
            ground (arith, window_last after rows a.1 e', last_event-All after ev events above)
        | inl h ↦ elim (List-cases (window t after results rows)) [
          | inl k ↦ ground (arith, window_later after r.event_seq rows)
          | inr (x, xs, k) ↦
              let later : All (λ y. r.event_seq < y.event_seq) (x ∷ xs) =
                subst (λ l. All (λ y. r.event_seq < y.event_seq) l) k
                  (window-All r.event_seq after rows a.0) in
              let same : last_event ev events ≡ last_event x xs = ground arith in
              ground (arith, window_last after rows a.1 k, last_event-All r.event_seq x xs later)
        ]
      ]

pub last_hash-append :
    (p : Text) (xs : List ChainEvent) (ev : ChainEvent) (events : List ChainEvent)
    → last_hash p (xs ++ (ev ∷ events)) ≡ (last_event ev events).hash
unfolding last_event
last_hash-append p [] ev [] = refl
last_hash-append p [] ev (next ∷ events) = last_hash-append ev.hash [] next events
last_hash-append p (x ∷ xs) ev events = last_hash-append x.hash xs ev events
