-- ===== src/Base/Sort.antt =====
-- `ORDER BY`: insertion sort by a test that an element may stand before another. Elements that
-- may stand either way keep their order.
use mathlib.Core.Path.{◌≡◌, refl}
use mathlib.Core.Bool.{Bool, ◌||◌}
use mathlib.Core.List.{List, [], ◌∷◌}
use native.Mathlib.Omega.{arith}
use open_clause.Base.Tests.{if◌then◌else◌}
use open_clause.Base.Lists.{All, any}

module _ {A : Type 0} (before : A → A → Bool) where
  unfoldable pub put_in : A → List A → List A
  put_in x [] = x ∷ []
  put_in x (y ∷ ys) = if before x y then x ∷ y ∷ ys else y ∷ put_in x ys

  unfoldable pub order_by : List A → List A
  unfolding put_in
  order_by [] = []
  order_by (x ∷ xs) = put_in x (order_by xs)

  put_in-All : (P : A → Type 0) (x : A) (xs : List A) → P x → All P xs → All P (put_in x xs)
  unfolding put_in
  put_in-All P x [] h k = (h, tt)
  put_in-All P x (y ∷ ys) h k = ground (arith, put_in-All P x ys h k.1)

  pub order_by-All : (P : A → Type 0) (xs : List A) → All P xs → All P (order_by xs)
  unfolding order_by
  order_by-All P [] h = tt
  order_by-All P (x ∷ xs) h = put_in-All P x (order_by xs) h.0 (order_by-All P xs h.1)

  any-put_in : (p : A → Bool) (x : A) (xs : List A) → any p (put_in x xs) ≡ (p x || any p xs)
  unfolding put_in
  any-put_in p x [] = refl
  any-put_in p x (y ∷ ys) = ground (arith, any-put_in p x ys)

  -- The order hides no element.
  pub any-order_by : (p : A → Bool) (xs : List A) → any p (order_by xs) ≡ any p xs
  unfolding order_by
  any-order_by p [] = refl
  any-order_by p (x ∷ xs) = ground (arith, any-put_in p x (order_by xs), any-order_by p xs)
