-- ===== src/Json/Bytes.antt =====
-- The quoting of a text of bytes gives bytes.
use open_clause.Base.{
  ℕ, ◌<◌, inl, inr, Bool-cases, ◌&&◌, ◌||◌, [], ◌∷◌, Text, text, eqb, All, All-append, arith,
}
use open_clause.Json.{escape_byte, escape, quote}

abbrev pub IsBytes : Text → Type 0
IsBytes = All (λ c. c < 256)

escape_byte-IsBytes : (c : ℕ) → c < 256 → IsBytes (escape_byte c)
unfolding escape_byte text
escape_byte-IsBytes c h = ground arith

escape-IsBytes : (s : Text) → IsBytes s → IsBytes (escape s)
unfolding escape text
escape-IsBytes (a ∷ b ∷ c ∷ s) h =
    let apart =
      All-append _ (escape_byte a) (escape (b ∷ c ∷ s)) (escape_byte-IsBytes a h.0)
        (escape-IsBytes (b ∷ c ∷ s) h.1) in
    let joined = escape-IsBytes s h.1.1.1 in
    elim (Bool-cases (eqb a 226 && eqb b 128 && (eqb c 168 || eqb c 169))) [
      | inl e ↦ rw e (ground (arith, joined))
      | inr e ↦ rw e apart
    ]
escape-IsBytes (a ∷ b ∷ []) h =
    All-append _ (escape_byte a) (escape_byte b) (escape_byte-IsBytes a h.0)
      (escape_byte-IsBytes b h.1.0)
escape-IsBytes (a ∷ []) h = escape_byte-IsBytes a h.0
escape-IsBytes [] h = tt

pub quote-IsBytes : (s : Text) → IsBytes s → IsBytes (quote s)
unfolding quote
quote-IsBytes s h =
    (omega arith, All-append _ (escape s) (b'"' ∷ []) (escape-IsBytes s h) (omega arith))
