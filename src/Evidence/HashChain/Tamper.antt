-- ===== src/Evidence/HashChain/Tamper.antt =====
-- A verified chain cannot be rewritten under its last hash without a collision of SHA-256.
use mathlib.Core.List.{reverse, reverse-cons, reverse-reverse, map-append}
use mathlib.Core.Path.{subst}
use open_clause.Base.{
  ◌≡◌, ◌≢◌, ◌⊎◌, inl, inr, refl, ap, sym, ◌∙◌, List, [], ◌∷◌, ◌++◌, map, Text, Option, ok, All,
  All-append, text_dec,
}
use open_clause.Evidence.HashChain.{ChainEvent, chain_hash, preimage, verify_chain}
use open_clause.Evidence.HashChain.Preimage.{Fits, FitsResult, preimage_inj}
use open_clause.Evidence.HashChain.Verify.{last_hash, IsChain, verify_chain_from-IsChain}

-- What the chain binds of an event.
abbrev pub content : ChainEvent → Text × Text × Text × Option Text
content ev = (ev.prev_hash, ev.hash, ev.canon_payload, ev.canon_result)

-- The fields that are hashed are shorter than 2^64 bytes.
pub record IsSized (ev : ChainEvent) : Type 0 where
  pub prev_hash : Fits ev.prev_hash
  pub payload : Fits ev.canon_payload
  pub result : FitsResult ev.canon_result

map-reverse {ℓ κ} :
    {A : Type ℓ} {B : Type κ} (f : A → B) (l : List A) → map f (reverse l) ≡ reverse (map f l)
map-reverse f [] = refl
map-reverse f (x ∷ l) = rw (reverse-cons, map-append, map-reverse f l, reverse-cons)

-- The hash of the newest event of a list that has it first.
abbrev newest : Text → List ChainEvent → Text
newest start [] = start
newest start (ev ∷ older) = ev.hash

All-reverse : (l : List ChainEvent) → All IsSized l → All IsSized (reverse l)
All-reverse [] h = tt
All-reverse (x ∷ l) h =
    rw (reverse-cons x l) (All-append IsSized (reverse l) _ (All-reverse l h.1) (h.0, tt))

same_of_reverse :
    (xs ys : List ChainEvent)
    → map content (reverse xs) ≡ map content (reverse ys)
    → map content xs ≡ map content ys
same_of_reverse xs ys e =
    sym (reverse-reverse _)
    ∙ ap reverse (sym (map-reverse content xs) ∙ e ∙ map-reverse content ys)
    ∙ reverse-reverse _

module _ (sha256 : Text → Text) where
  -- Two different texts with one hash.
  abbrev pub Collision : Type 0
  Collision = (a : Text) × (b : Text) × (a ≢ b) × (sha256 a ≡ sha256 b)

  -- A chain with its newest event first.
  abbrev Back : Text → List ChainEvent → Type 0
  Back start [] = Unit
  Back start (ev ∷ older) =
      (ev.prev_hash ≡ newest start older)
      × (ev.hash ≡ chain_hash sha256 (newest start older) ev.canon_payload ev.canon_result)
      × Back start older

  Back-snoc :
      (start : Text) (x : ChainEvent) (l : List ChainEvent)
      → x.prev_hash ≡ start
      → x.hash ≡ chain_hash sha256 start x.canon_payload x.canon_result
      → Back x.hash l
      → Back start (l ++ (x ∷ [])) × (newest start (l ++ (x ∷ [])) ≡ newest x.hash l)
  Back-snoc start x [] p q h = ((p, q, tt), refl)
  Back-snoc start x (y ∷ l) p q (a, b, c) =
      let (d, e) = Back-snoc start x l p q c in
      (
        (a ∙ sym e, b ∙ ap (λ t. chain_hash sha256 t y.canon_payload y.canon_result) (sym e), d),
        refl,
      )

  Back-reverse :
      (start : Text) (l : List ChainEvent)
      → IsChain sha256 start l
      → Back start (reverse l) × (newest start (reverse l) ≡ last_hash start l)
  Back-reverse start [] h = (tt, refl)
  Back-reverse start (x ∷ l) (a, b, c) =
      let (d, e) = Back-reverse x.hash l c in
      let (f, g) = Back-snoc start x (reverse l) a b d in rw (reverse-cons x l) (f, g ∙ e)

  module _ (non_empty : (a : Text) → sha256 a ≢ []) where
    Back-content :
        (xs ys : List ChainEvent)
        → Back [] xs
        → Back [] ys
        → All IsSized xs
        → All IsSized ys
        → newest [] xs ≡ newest [] ys
        → (map content xs ≡ map content ys) ⊎ Collision
    unfolding chain_hash
    Back-content [] [] a b s t e = inl refl
    Back-content [] (y ∷ ys) a b s t e = absurd (non_empty _ (sym b.1 ∙ sym e))
    Back-content (x ∷ xs) [] a b s t e = absurd (non_empty _ (sym a.1 ∙ e))
    Back-content (x ∷ xs) (y ∷ ys) (p, q, a) (p', q', b) (sx, s) (sy, t) e =
        elim (text_dec (preimage (newest [] xs) x.canon_payload x.canon_result)
          (preimage (newest [] ys) y.canon_payload y.canon_result)) [
            | no n ↦ inr (_, _, n, sym q ∙ e ∙ q')
            | yes same ↦
                let (prev, payload, result) =
                  preimage_inj (newest [] xs) (newest [] ys) x.canon_payload y.canon_payload
                    x.canon_result y.canon_result (subst Fits p sx.prev_hash)
                    (subst Fits p' sy.prev_hash) sx.payload sy.payload sx.result sy.result same in
                elim (Back-content xs ys a b s t prev) [
                  | inr c ↦ inr c
                  | inl older ↦ inl (cc (older, p, p', prev, payload, result, e))
                ]
          ]

    -- Two event lists that both verify from the start and end in the same hash have the same
    -- links, hashes, payloads and results, event by event, or they exhibit a collision of SHA-256.
    -- It is assumed that no hash is the empty text and that no field has 2^64 bytes.
    pub verify_chain-content :
        (xs ys : List ChainEvent)
        → All IsSized xs
        → All IsSized ys
        → verify_chain sha256 xs ≡ ok tt
        → verify_chain sha256 ys ≡ ok tt
        → last_hash [] xs ≡ last_hash [] ys
        → (map content xs ≡ map content ys) ⊎ Collision
    unfolding verify_chain
    verify_chain-content xs ys s t h k e =
        let (a, p) = Back-reverse [] xs ((verify_chain_from-IsChain sha256 [] xs).0 h) in
        let (b, q) = Back-reverse [] ys ((verify_chain_from-IsChain sha256 [] ys).0 k) in
        elim (Back-content (reverse xs) (reverse ys) a b (All-reverse xs s) (All-reverse ys t)
          (p ∙ e ∙ sym q)) [ inr c ↦ inr c | inl same ↦ inl (same_of_reverse xs ys same) ]
