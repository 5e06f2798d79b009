-- ===== src/Evidence/HashChain.antt =====
-- `pkg/evidence/hashchain.go`: the hash chain of a tenant's events and its verification. SHA-256
-- with hex encoding is a parameter.
pub mod Preimage
pub mod Verify
pub mod Tamper
use open_clause.Base.{
  ℕ, ◌+◌, ◌/◌, ◌%◌, ◌^◌, Option, none, some, List, [], ◌∷◌, ◌++◌, Text, text, ◌==◌, not, Result, ok,
  err, length, if◌then◌else◌,
}

-- `binary.BigEndian.PutUint64(lenBuf[:], n)`.
unfoldable pub big_endian : ℕ → Text
big_endian n =
    (n / 256 ^ 7 % 256)
    ∷ (n / 256 ^ 6 % 256)
    ∷ (n / 256 ^ 5 % 256)
    ∷ (n / 256 ^ 4 % 256)
    ∷ (n / 256 ^ 3 % 256)
    ∷ (n / 256 ^ 2 % 256)
    ∷ (n / 256 % 256)
    ∷ (n % 256)
    ∷ []

-- The two writes of `writeField`.
unfoldable pub write_field : Text → Text
unfolding big_endian
write_field d = big_endian (length d) ++ d

abbrev tag : Text
tag = text "openclause:chain:v1"

-- A `nil` result is not written.
unfoldable pub write_result : Option Text → Text
write_result none = []
write_result (some r) = write_field r

-- All that `ChainHash` writes into the hash.
unfoldable pub preimage : Text → Text → Option Text → Text
unfolding write_result
preimage prev_hash canon_payload canon_result =
    write_field tag
    ++ (write_field prev_hash ++ (write_field canon_payload ++ write_result canon_result))

pub record ChainEvent : Type 0 where
  pub event_seq : ℕ
  pub event_id : Text
  pub prev_hash : Text
  pub hash : Text
  pub canon_payload : Text
  pub canon_result : Option Text
  pub received_at : ℕ

-- The two errors of `VerifyChainFrom`, with what their messages name: the index, the event, the
-- hash that was expected and the one that was found.
pub data ChainError : Type 0 where
  broken_prev : ℕ → Text → Text → Text → ChainError
  broken_hash : ℕ → Text → Text → Text → ChainError

module _ (sha256 : Text → Text) where
  unfoldable pub chain_hash : Text → Text → Option Text → Text
  chain_hash prev_hash canon_payload canon_result =
      sha256 (preimage prev_hash canon_payload canon_result)

  -- The loop of `VerifyChainFrom` from index `i`.
  unfoldable pub verify_loop : ℕ → Text → List ChainEvent → Result ChainError (Unit {0})
  verify_loop i prev [] = ok tt
  verify_loop i prev (ev ∷ events) =
      let rest = verify_loop (i + 1) ev.hash events in
      let expected = chain_hash prev ev.canon_payload ev.canon_result in
      if not (ev.prev_hash == prev)
      then err (broken_prev i ev.event_id prev ev.prev_hash)
      else if not (ev.hash == expected)
      then err (broken_hash i ev.event_id expected ev.hash)
      else rest

  unfoldable pub verify_chain_from : Text → List ChainEvent → Result ChainError (Unit {0})
  unfolding verify_loop
  verify_chain_from prev events = verify_loop 0 prev events

  unfoldable pub verify_chain : List ChainEvent → Result ChainError (Unit {0})
  unfolding verify_chain_from
  verify_chain events = verify_chain_from [] events
