-- ===== src/Tests/Chain.antt =====
-- Chains of two events, one whole and one with a changed payload.
use open_clause.Base.{
  ◌≡◌, ◌↔◌, ◌⊎◌, refl, none, some, List, [], ◌∷◌, map, Text, text, text_dec, ok, err, arith, All,
}
use open_clause.Evidence.HashChain.{
  ChainEvent, broken_hash, write_field, preimage, chain_hash, verify_chain, verify_chain_from,
}
use open_clause.Evidence.HashChain.Preimage.{preimage_inj}
use open_clause.Evidence.HashChain.Verify.{
  IsChain, BreaksAt, verify_chain_from-IsChain, verify_chain_from-BreaksAt,
}
use open_clause.Evidence.HashChain.Tamper.{content, IsSized, Collision, verify_chain-content}
use open_clause.Tests.Fixtures.{keep}

abbrev event_after : Text → Text → Text → ChainEvent
event_after id prev payload = record {
  event_seq = 1;
  event_id = id;
  prev_hash = prev;
  hash = chain_hash keep prev payload none;
  canon_payload = payload;
  canon_result = none;
  received_at = 0;
}

abbrev first : ChainEvent
first = event_after (text "1") [] (text "x")

abbrev chain : List ChainEvent
chain = first ∷ event_after (text "2") first.hash (text "y") ∷ []

abbrev tampered : List ChainEvent
tampered = record first { canon_payload = text "z" } ∷ []

preimage_inj_example :
    (text "p" ≡ text "p") × (text "x" ≡ text "x") × (some (text "r") ≡ some (text "r"))
unfolding text
preimage_inj_example =
    preimage_inj (text "p") (text "p") (text "x") (text "x") (some (text "r")) (some (text "r"))
      (omega arith) (omega arith) (omega arith) (omega arith) (omega arith) (omega arith) refl

verify_chain_from-IsChain_example :
    (verify_chain_from keep [] chain ≡ ok tt) ↔ IsChain keep [] chain
verify_chain_from-IsChain_example = verify_chain_from-IsChain keep [] chain

verified : verify_chain keep chain ≡ ok tt
unfolding verify_chain chain_hash preimage write_field text text_dec
verified = refl

broken :
    verify_chain_from keep [] tampered
    ≡ err (broken_hash 0 (text "1") (chain_hash keep [] (text "z") none) first.hash)
unfolding verify_chain_from chain_hash preimage write_field text text_dec
broken = refl

verify_chain_from-BreaksAt_example :
    BreaksAt keep 0 [] tampered
      (broken_hash 0 (text "1") (chain_hash keep [] (text "z") none) first.hash)
verify_chain_from-BreaksAt_example = verify_chain_from-BreaksAt keep [] tampered broken

sized : All IsSized chain
unfolding chain_hash preimage write_field text
sized = (
  record { prev_hash = omega arith; payload = omega arith; result = tt },
  (record { prev_hash = omega arith; payload = omega arith; result = tt }, tt),
)

verify_chain-content_example : (map content chain ≡ map content chain) ⊎ Collision keep
verify_chain-content_example =
    verify_chain-content keep (λ a h. ground arith) chain chain sized sized verified verified refl
