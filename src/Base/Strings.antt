-- ===== src/Base/Strings.antt =====
-- Go's strings, which are sequences of bytes, and what the code uses of the package `strings`.
use Prim.Native.Nat.{ℕ, ◌+◌}
use Prim.Native.Char.{code}
use Prim.Native.String.{String}
use mathlib.Core.Path.{◌≡◌, refl}
use mathlib.Core.Logic.{ite}
use mathlib.Core.Bool.{Bool, true, false, not, ◌&&◌, ◌||◌}
use mathlib.Core.Option.{Option, none, some}
use mathlib.Core.List.{List, [], ◌∷◌, reverse, map, reverse-append, reverse-reverse}
use native.Mathlib.Omega.{arith}
use native.Mathlib.Decide.{ℕ_discrete}
use open_clause.Base.Tests.{ltb, leb, eqb, if◌then◌else◌}
use open_clause.Base.Lists.{all, All, All-append}

abbrev pub Text : Type 0
Text = List ℕ

-- The bytes of an ASCII literal.
unfoldable pub text : String → Text
text String.[] = []
text (String.◌∷◌ c s) = code c ∷ text s

unfoldable pub text_dec : Discrete Text
unfolding ℕ_discrete
text_dec = hlevel ℕ_discrete

infix 50 ◌==◌
abbrev pub ◌==◌ : Text → Text → Bool
s == t = ite (text_dec s t) true false

abbrev pub is_empty : Text → Bool
is_empty [] = true
is_empty (c ∷ s) = false

-- `strings.HasPrefix(s, p)` with `strings.TrimPrefix(s, p)`: what follows the prefix.
unfoldable pub after_prefix : Text → Text → Option Text
after_prefix s [] = some s
after_prefix [] (d ∷ p) = none
after_prefix (c ∷ s) (d ∷ p) = if eqb c d then after_prefix s p else none

put_first : ℕ → List Text → List Text
put_first c [] = (c ∷ []) ∷ []
put_first c (s ∷ ss) = (c ∷ s) ∷ ss

-- `strings.Split(s, sep)` for a separator of one byte.
unfoldable pub split : ℕ → Text → List Text
unfolding put_first
split sep [] = [] ∷ []
split sep (c ∷ s) = let rest = split sep s in if eqb c sep then [] ∷ rest else put_first c rest

-- `strings.SplitN(s, sep, 2)` where it has two parts: those round the first separator.
unfoldable pub cut : ℕ → Text → Option (Text × Text)
cut sep [] = none
cut sep (c ∷ s) =
    if eqb c sep
    then some ([], s)
    else elim (cut sep s) [ none ↦ none | some (a, b) ↦ some (c ∷ a, b) ]

trim_left : (ℕ → Bool) → Text → Text
trim_left p [] = []
trim_left p (c ∷ s) = if p c then trim_left p s else c ∷ s

trim_right : (ℕ → Bool) → Text → Text
unfolding trim_left
trim_right p s = reverse (trim_left p (reverse s))

-- `strings.TrimRight(s, "/")`.
unfoldable pub trim_slashes : Text → Text
unfolding trim_right
trim_slashes = trim_right (λ c. eqb c b'/')

-- Tab, line feed, vertical tab, form feed, carriage return and space.
is_space : ℕ → Bool
is_space c = (leb 9 c && leb c 13) || eqb c 32

pub is_ascii : Text → Bool
is_ascii = all (λ c. ltb c 128)

lower_byte : ℕ → ℕ
lower_byte c = if leb b'A' c && leb c b'Z' then c + 32 else c

-- What Go's Unicode tables make of a text that has a byte above 127.
pub record Unicode : Type 0 where
  pub trim_space : Text → Text
  pub to_lower : Text → Text

-- `strings.TrimSpace(s)`.
unfoldable pub trim_space : Unicode → Text → Text
unfolding is_ascii is_space trim_right trim_left
trim_space u s = if is_ascii s then trim_right is_space (trim_left is_space s) else u.trim_space s

-- `strings.ToLower(s)`.
unfoldable pub to_lower : Unicode → Text → Text
unfolding is_ascii lower_byte
to_lower u s = if is_ascii s then map lower_byte s else u.to_lower s

-- A byte which neither function changes.
unfoldable pub is_plain : ℕ → Bool
unfolding is_space
is_plain c = ltb c 128 && not (is_space c) && not (leb b'A' c && leb c b'Z')

unfoldable pub IsPlain : Text → Type 0
unfolding is_plain
IsPlain = All (λ c. is_plain c ≡ true)

is_ascii_of_IsPlain : (s : Text) → IsPlain s → is_ascii s ≡ true
unfolding is_ascii IsPlain
is_ascii_of_IsPlain [] h = refl
is_ascii_of_IsPlain (c ∷ s) h = ground (arith, is_ascii_of_IsPlain s h.1)

trim_left_of_IsPlain : (s : Text) → IsPlain s → trim_left is_space s ≡ s
unfolding trim_left IsPlain
trim_left_of_IsPlain [] h = refl
trim_left_of_IsPlain (c ∷ s) h = ground arith

IsPlain-reverse : (s : Text) → IsPlain s → IsPlain (reverse s)
unfolding IsPlain
IsPlain-reverse [] h = tt
IsPlain-reverse (c ∷ s) h =
    rw (reverse-append (c ∷ []) s) (All-append _ (reverse s) _ (IsPlain-reverse s h.1) (h.0, tt))

pub trim_space_of_IsPlain : (u : Unicode) (s : Text) → IsPlain s → trim_space u s ≡ s
unfolding trim_space
trim_space_of_IsPlain u s h =
    rw
      (
        is_ascii_of_IsPlain s h,
        trim_left_of_IsPlain s h,
        trim_left_of_IsPlain (reverse s) (IsPlain-reverse s h),
      )
      (reverse-reverse s)

map-lower_byte : (s : Text) → IsPlain s → map lower_byte s ≡ s
unfolding lower_byte IsPlain
map-lower_byte [] h = refl
map-lower_byte (c ∷ s) h = ground (arith, map-lower_byte s h.1)

pub to_lower_of_IsPlain : (u : Unicode) (s : Text) → IsPlain s → to_lower u s ≡ s
unfolding to_lower
to_lower_of_IsPlain u s h = rw (is_ascii_of_IsPlain s h) (map-lower_byte s h)
