-- ===== src/Base/Order.antt =====
-- The order of Go's strings, by bytes, and `sort.Strings`.
use open_clause.Base.Tests.{ltb, eqb, if◌then◌else◌}
use open_clause.Base.Strings.{Text}
use mathlib.Core.Path.{◌≡◌, refl, ap}
use mathlib.Core.Bool.{Bool, true, false}
use mathlib.Core.Logic.{◌⊎◌, inl, inr}
use mathlib.Core.List.{List, [], ◌∷◌}
use native.Mathlib.Omega.{arith}

-- `s <= t`.
unfoldable pub le_text : Text → Text → Bool
le_text [] t = true
le_text (c ∷ s) [] = false
le_text (c ∷ s) (d ∷ t) = if ltb c d then true else if eqb c d then le_text s t else false

pub le_text_total : (s t : Text) → (le_text s t ≡ true) ⊎ (le_text t s ≡ true)
unfolding le_text
le_text_total [] t = inl refl
le_text_total (c ∷ s) [] = inr refl
le_text_total (c ∷ s) (d ∷ t) = ground (arith, le_text_total s t)

pub le_text_antisymm : (s t : Text) → le_text s t ≡ true → le_text t s ≡ true → s ≡ t
unfolding le_text
le_text_antisymm [] [] h k = refl
le_text_antisymm [] (d ∷ t) h k = ground arith
le_text_antisymm (c ∷ s) [] h k = ground arith
le_text_antisymm (c ∷ s) (d ∷ t) h k = ground (arith, le_text_antisymm s t)

pub le_text_trans : (s t u : Text) → le_text s t ≡ true → le_text t u ≡ true → le_text s u ≡ true
unfolding le_text
le_text_trans [] t u h k = refl
le_text_trans (c ∷ s) [] u h k = ground arith
le_text_trans (c ∷ s) (d ∷ t) [] h k = ground arith
le_text_trans (c ∷ s) (d ∷ t) (e ∷ u) h k = ground (arith, le_text_trans s t u)

unfoldable pub insert_key : Text → List Text → List Text
insert_key s [] = s ∷ []
insert_key s (t ∷ ts) = if le_text s t then s ∷ t ∷ ts else t ∷ insert_key s ts

-- `sort.Strings(keys)`.
unfoldable pub sort : List Text → List Text
unfolding insert_key le_text
sort [] = []
sort (s ∷ ts) = insert_key s (sort ts)

insert_key_comm :
    (s t : Text) (l : List Text) → insert_key s (insert_key t l) ≡ insert_key t (insert_key s l)
unfolding insert_key
insert_key_comm s t [] = ground (arith, le_text_total s t, le_text_antisymm s t)
insert_key_comm s t (u ∷ l) = ground (
  arith,
  insert_key_comm s t l,
  le_text_total s t,
  le_text_antisymm s t,
  le_text_trans s t u,
  le_text_trans t s u,
  le_text_total s u,
  le_text_total t u,
)

-- The order in which two keys come does not matter.
pub sort-swap : (s t : Text) (l : List Text) → sort (s ∷ t ∷ l) ≡ sort (t ∷ s ∷ l)
unfolding sort
sort-swap s t l = insert_key_comm s t (sort l)

pub sort-cons : (s : Text) (l m : List Text) → sort l ≡ sort m → sort (s ∷ l) ≡ sort (s ∷ m)
unfolding sort
sort-cons s l m e = ap (insert_key s) e

-- Each key is at most the one that follows it.
abbrev pub IsSorted : List Text → Type 0
IsSorted [] = Unit
IsSorted (s ∷ []) = Unit
IsSorted (s ∷ t ∷ l) = (le_text s t ≡ true) × IsSorted (t ∷ l)

insert_key-IsSorted : (s : Text) (l : List Text) → IsSorted l → IsSorted (insert_key s l)
unfolding insert_key
insert_key-IsSorted s [] h = tt
insert_key-IsSorted s (t ∷ []) h = ground (arith, le_text_total s t)
insert_key-IsSorted s (t ∷ u ∷ l) h =
    ground (arith, insert_key-IsSorted s (u ∷ l) h.1, le_text_total s t)

pub sort-IsSorted : (l : List Text) → IsSorted (sort l)
unfolding sort
sort-IsSorted [] = tt
sort-IsSorted (s ∷ l) = insert_key-IsSorted s (sort l) (sort-IsSorted l)
