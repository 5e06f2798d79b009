-- ===== src/Base/Results.antt =====
-- A Go result pair `(value, error)`, with the early return on an error as the bind of a monad, and
-- the failures of a driver.
use Prim.Native.Nat.{ℕ}
use mathlib.Core.Path.{◌≡◌, refl}
use mathlib.Core.Logic.{◌⊎◌, inl, inr}
use mathlib.Core.Option.{Option, none, some}
use mathlib.Core.List.{◌++◌}
use open_clause.Base.Strings.{Text}

pub data Result {ℓ} (E A : Type ℓ) : Type ℓ where
  ok : A → Result E A
  err : E → Result E A

infixl 5 ◌>>=◌ ◌>>◌
abbrev pub ◌>>=◌ {ℓ} : {E A B : Type ℓ} → Result E A → (A → Result E B) → Result E B
ok a >>= f = f a
err e >>= f = err e

abbrev pub ◌>>◌ : {E B : Type 0} → Result E (Unit {0}) → Result E B → Result E B
m >> k = m >>= λ _. k

pub Result-cases {ℓ} :
    {E A : Type ℓ} (r : Result E A) → ((a : A) × (r ≡ ok a)) ⊎ ((e : E) × (r ≡ err e))
Result-cases (ok a) = inl (a, refl)
Result-cases (err e) = inr (e, refl)

-- `fmt.Errorf(context + "%w", err)` round an error.
abbrev pub wrap : {A : Type 0} → Text → Result Text A → Result Text A
wrap context (ok a) = ok a
wrap context (err e) = err (context ++ e)

-- The error that each of an operation's calls of the database driver, by its number, returns if
-- the connection fails there.
abbrev pub Faults : Type 0
Faults = ℕ → Option Text

-- A driver call that returns nothing.
abbrev pub call : Option Text → Text → Result Text (Unit {0})
call none context = ok tt
call (some e) context = err (context ++ e)
