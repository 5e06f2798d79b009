-- ===== src/Evidence/HashChain/Preimage.antt =====
-- `writeField` separates the fields: what `ChainHash` hashes determines its three arguments.
use open_clause.Base.{
  ℕ, ◌^◌, ◌<◌, ◌≡◌, refl, ap, sym, ◌∙◌, Option, none, some, [], ◌∷◌, ◌++◌, Text, text, arith,
  length,
}
use mathlib.Core.List.{append_assoc, append-nil}
use open_clause.Evidence.HashChain.{big_endian, write_field, write_result, preimage, tag}

-- A length that `uint64` holds.
abbrev pub Fits : Text → Type 0
Fits d = length d < 2 ^ 64

big_endian_inj : (m n : ℕ) → m < 2 ^ 64 → n < 2 ^ 64 → big_endian m ≡ big_endian n → m ≡ n
unfolding big_endian
big_endian_inj m n h k e = ground arith

append_inj : (a b c d : Text) → length a ≡ length b → a ++ c ≡ b ++ d → (a ≡ b) × (c ≡ d)
append_inj [] [] c d h e = (refl, e)
append_inj [] (x ∷ b) c d h e = absurd (omega arith)
append_inj (x ∷ a) [] c d h e = absurd (omega arith)
append_inj (x ∷ a) (y ∷ b) c d h e = ground (arith, append_inj a b c d)

write_field_inj :
    (a b c d : Text) → Fits a → Fits b → write_field a ++ c ≡ write_field b ++ d → (a ≡ b) × (c ≡ d)
unfolding write_field
write_field_inj a b c d h k e =
    let (lengths, rest) =
      append_inj (big_endian (length a)) (big_endian (length b)) (a ++ c) (b ++ d) refl (
        sym (append_assoc (big_endian (length a)) a c)
        ∙ e
        ∙ append_assoc (big_endian (length b)) b d) in
    append_inj a b c d (big_endian_inj (length a) (length b) h k lengths) rest

abbrev pub FitsResult : Option Text → Type 0
FitsResult none = Unit
FitsResult (some r) = Fits r

write_result_inj :
    (r s : Option Text) → FitsResult r → FitsResult s → write_result r ≡ write_result s → r ≡ s
unfolding write_result write_field big_endian
write_result_inj none none h k e = refl
write_result_inj none (some s) h k e = absurd (ground arith)
write_result_inj (some r) none h k e = absurd (ground arith)
write_result_inj (some r) (some s) h k e =
    ap some (write_field_inj r s [] [] h k (append-nil _ ∙ e ∙ sym (append-nil _))).0

module _ (p q a b : Text) (r s : Option Text) where
  -- Two calls of `ChainHash` write the same bytes into the hash only if their arguments are the
  -- same, where each field is shorter than 2^64 bytes. A missing result and an empty one differ.
  pub preimage_inj :
      Fits p
      → Fits q
      → Fits a
      → Fits b
      → FitsResult r
      → FitsResult s
      → preimage p a r ≡ preimage q b s
      → (p ≡ q) × (a ≡ b) × (r ≡ s)
  unfolding preimage text
  preimage_inj hp hq ha hb hr hs e =
      let (_, e1) = write_field_inj tag tag _ _ (omega arith) (omega arith) e in
      let (same_prev, e2) = write_field_inj p q _ _ hp hq e1 in
      let (same_payload, e3) = write_field_inj a b _ _ ha hb e2 in
      (same_prev, same_payload, write_result_inj r s hr hs e3)
