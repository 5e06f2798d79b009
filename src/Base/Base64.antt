-- ===== src/Base/Base64.antt =====
-- `base64.URLEncoding`: the URL-safe alphabet, with padding; and the encoding of
-- `base64.StdEncoding`.
use Prim.Native.Nat.{ℕ, ◌+◌, ◌-◌, ◌*◌, ◌/◌, ◌%◌, ◌<◌}
use mathlib.Core.Path.{◌≡◌, refl}
use mathlib.Core.Bool.{Bool, true, false, ◌&&◌, ◌||◌, not}
use mathlib.Core.Option.{Option, none, some}
use mathlib.Core.List.{[], ◌∷◌}
use native.Mathlib.Omega.{arith}
use open_clause.Base.Tests.{ltb, leb, eqb, if◌then◌else◌}
use open_clause.Base.Lists.{All, select}
use open_clause.Base.Strings.{Text, is_empty}

-- The letter of a number below 64.
letter : ℕ → ℕ
letter n =
    if ltb n 26
    then b'A' + n
    else if ltb n 52
    then b'a' + (n - 26)
    else if ltb n 62
    then b'0' + (n - 52)
    else if eqb n 62
    then b'-'
    else b'_'

-- The number of a letter.
value : ℕ → Option ℕ
value c =
    if leb b'A' c && leb c b'Z'
    then some (c - b'A')
    else if leb b'a' c && leb c b'z'
    then some (c - b'a' + 26)
    else if leb b'0' c && leb c b'9'
    then some (c - b'0' + 52)
    else if eqb c b'-'
    then some 62
    else if eqb c b'_'
    then some 63
    else none

encode_by : (ℕ → ℕ) → Text → Text
encode_by l [] = []
encode_by l (a ∷ []) = l (a / 4) ∷ l (a % 4 * 16) ∷ b'=' ∷ b'=' ∷ []
encode_by l (a ∷ b ∷ []) = l (a / 4) ∷ l (a % 4 * 16 + b / 16) ∷ l (b % 16 * 4) ∷ b'=' ∷ []
encode_by l (a ∷ b ∷ c ∷ s) =
    l (a / 4) ∷ l (a % 4 * 16 + b / 16) ∷ l (b % 16 * 4 + c / 64) ∷ l (c % 64) ∷ encode_by l s

-- `EncodeToString`.
unfoldable pub encode : Text → Text
unfolding encode_by letter
encode = encode_by letter

-- The letters of `base64.StdEncoding` differ in the last two.
std_letter : ℕ → ℕ
unfolding letter
std_letter n = if eqb n 62 then b'+' else if eqb n 63 then b'/' else letter n

-- `base64.StdEncoding.EncodeToString`.
unfoldable pub encode_std : Text → Text
unfolding encode_by std_letter
encode_std = encode_by std_letter

first_byte : ℕ → ℕ → ℕ
first_byte x y = x * 4 + y / 16

second_byte : ℕ → ℕ → ℕ
second_byte y z = y % 16 * 16 + z / 4

third_byte : ℕ → ℕ → ℕ
third_byte z w = z % 4 * 64 + w

infixl 5 ◌>>=◌
abbrev ◌>>=◌ {ℓ} : {A B : Type ℓ} → Option A → (A → Option B) → Option B
none >>= f = none
some a >>= f = f a

-- Four letters, with what the letters after them stand for; padding ends the text. The bits that
-- it leaves over are not looked at.
quad : ℕ → ℕ → ℕ → ℕ → Bool → Option Text → Option Text
quad a b c d is_last rest = value a >>= λ x. value b >>= λ y.
    if eqb d b'='
    then (if not is_last
        then none
        else if eqb c b'='
        then some (first_byte x y ∷ [])
        else value c >>= λ z. some (first_byte x y ∷ second_byte y z ∷ []))
    else value c >>= λ z. value d >>= λ w.
        rest >>= λ tail. some (first_byte x y ∷ second_byte y z ∷ third_byte z w ∷ tail)

decode_quads : Text → Option Text
unfolding quad value first_byte second_byte third_byte
decode_quads [] = some []
decode_quads (a ∷ b ∷ c ∷ d ∷ s) = quad a b c d (is_empty s) (decode_quads s)
decode_quads _ = none

-- `DecodeString`, which passes over line ends.
unfoldable pub decode : Text → Option Text
unfolding decode_quads
decode s = decode_quads (select (λ c. not (eqb c 10 || eqb c 13)) s)

value-letter : (n : ℕ) → n < 64 → value (letter n) ≡ some n
unfolding value letter
value-letter n h = ground arith

letter_plain :
    (n : ℕ)
    → n < 64
    → (eqb (letter n) b'=' ≡ false) × (not (eqb (letter n) 10 || eqb (letter n) 13) ≡ true)
unfolding letter
letter_plain n h = ground arith

decode_quads-encode : (s : Text) → All (λ c. c < 256) s → decode_quads (encode_by letter s) ≡ some s
unfolding decode_quads encode_by first_byte second_byte third_byte quad
decode_quads-encode [] h = refl
decode_quads-encode (a ∷ []) h =
    rw (value-letter (a / 4) (omega arith), value-letter (a % 4 * 16) (omega arith)) (ground arith)
decode_quads-encode (a ∷ b ∷ []) h = ground (
  arith,
  value-letter (a / 4),
  value-letter (a % 4 * 16 + b / 16),
  value-letter (b % 16 * 4),
  letter_plain (b % 16 * 4),
)
decode_quads-encode (a ∷ b ∷ c ∷ s) h = ground (
  arith,
  value-letter (a / 4),
  value-letter (a % 4 * 16 + b / 16),
  value-letter (b % 16 * 4 + c / 64),
  value-letter (c % 64),
  letter_plain (c % 64),
  decode_quads-encode s,
)

no_line_ends :
    (s : Text)
    → All (λ c. c < 256) s
    → select (λ c. not (eqb c 10 || eqb c 13)) (encode_by letter s) ≡ encode_by letter s
unfolding encode_by
no_line_ends [] h = refl
no_line_ends (a ∷ []) h = ground (arith, letter_plain (a / 4), letter_plain (a % 4 * 16))
no_line_ends (a ∷ b ∷ []) h =
    ground
      (arith, letter_plain (a / 4), letter_plain (a % 4 * 16 + b / 16), letter_plain (b % 16 * 4))
no_line_ends (a ∷ b ∷ c ∷ s) h = ground (
  arith,
  letter_plain (a / 4),
  letter_plain (a % 4 * 16 + b / 16),
  letter_plain (b % 16 * 4 + c / 64),
  letter_plain (c % 64),
  no_line_ends s,
)

pub decode-encode : (s : Text) → All (λ c. c < 256) s → decode (encode s) ≡ some s
unfolding decode encode
decode-encode s h = rw (no_line_ends s h) (decode_quads-encode s h)
