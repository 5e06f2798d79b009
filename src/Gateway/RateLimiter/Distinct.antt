-- ===== src/Gateway/RateLimiter/Distinct.antt =====
-- Lists of distinct tenants, for the order and the map of the rate limiters.
use open_clause.Base.{
  suc, ◌+◌, ◌≡◌, refl, ap, Bool, true, false, ◌||◌, none, some, List, [], ◌∷◌, ◌++◌, Text, ◌==◌,
  arith, length, if◌then◌else◌,
}
use open_clause.Base.Dict
use open_clause.Gateway.RateLimiter.{remove_first}

abbrev pub is_in : Text → List Text → Bool
is_in t [] = false
is_in t (k ∷ ks) = k == t || is_in t ks

abbrev pub AllDistinct : List Text → Type 0
AllDistinct [] = Unit
AllDistinct (k ∷ ks) = (is_in k ks ≡ false) × AllDistinct ks

abbrev pub keys {ℓ} : {V : Type ℓ} → List (Text × V) → List Text
keys [] = []
keys ((k, _) ∷ m) = k ∷ keys m

pub is_in-append : (t : Text) (xs ys : List Text) → is_in t (xs ++ ys) ≡ (is_in t xs || is_in t ys)
is_in-append t [] ys = refl
is_in-append t (x ∷ xs) ys = ground (arith, is_in-append t xs ys)

pub is_in-remove_first :
    (t k : Text) (xs : List Text)
    → AllDistinct xs
    → is_in k (remove_first t xs) ≡ (if k == t then false else is_in k xs)
unfolding remove_first
is_in-remove_first t k [] d = ground arith
is_in-remove_first t k (x ∷ xs) d = ground (arith, is_in-remove_first t k xs d.1)

pub AllDistinct-remove_first :
    (t : Text) (xs : List Text) → AllDistinct xs → AllDistinct (remove_first t xs)
unfolding remove_first
AllDistinct-remove_first t [] d = tt
AllDistinct-remove_first t (x ∷ xs) d =
    ground (arith, is_in-remove_first t x xs d.1, AllDistinct-remove_first t xs d.1)

pub AllDistinct-append :
    (t : Text) (xs : List Text) → AllDistinct xs → is_in t xs ≡ false → AllDistinct (xs ++ (t ∷ []))
AllDistinct-append t [] d h = (refl, tt)
AllDistinct-append t (x ∷ xs) d h =
    ground (arith, is_in-append x xs (t ∷ []), AllDistinct-append t xs d.1)

pub length-remove_first :
    (t : Text) (xs : List Text) → is_in t xs ≡ true → length (remove_first t xs) + 1 ≡ length xs
unfolding remove_first
length-remove_first t [] h = absurd (ground arith)
length-remove_first t (x ∷ xs) h = ground (arith, length-remove_first t xs)

module _ {ℓ} {V : Type ℓ} where
  pub is_in-keys-none :
      (t : Text) (m : List (Text × V)) → Dict.lookup t m ≡ none → is_in t (keys m) ≡ false
  unfolding Dict.lookup
  is_in-keys-none t [] h = refl
  is_in-keys-none t ((k, v) ∷ m) h = ground (arith, is_in-keys-none t m)

  pub is_in-keys-some :
      (t : Text) (m : List (Text × V)) {v : V} → Dict.lookup t m ≡ some v → is_in t (keys m) ≡ true
  unfolding Dict.lookup
  is_in-keys-some t [] h = absurd (ground arith)
  is_in-keys-some t ((k, w) ∷ m) {v} h = ground (arith, is_in-keys-some t m {v = v})

  pub keys-insert_old :
      (t : Text) (v : V) (m : List (Text × V))
      → is_in t (keys m) ≡ true
      → keys (Dict.insert t v m) ≡ keys m
  unfolding Dict.insert
  keys-insert_old t v [] h = absurd (ground arith)
  keys-insert_old t v ((k, w) ∷ m) h = ground (arith, keys-insert_old t v m)

  pub keys-insert_new :
      (t : Text) (v : V) (m : List (Text × V))
      → is_in t (keys m) ≡ false
      → keys (Dict.insert t v m) ≡ keys m ++ (t ∷ [])
  unfolding Dict.insert
  keys-insert_new t v [] h = refl
  keys-insert_new t v ((k, w) ∷ m) h = ground (arith, keys-insert_new t v m)

  pub keys-erase_absent :
      (t : Text) (m : List (Text × V)) → is_in t (keys m) ≡ false → keys (Dict.erase t m) ≡ keys m
  unfolding Dict.erase
  keys-erase_absent t [] h = refl
  keys-erase_absent t ((k, w) ∷ m) h = ground (arith, keys-erase_absent t m)

  pub keys-erase :
      (t : Text) (m : List (Text × V))
      → AllDistinct (keys m)
      → keys (Dict.erase t m) ≡ remove_first t (keys m)
  unfolding Dict.erase remove_first
  keys-erase t [] d = refl
  keys-erase t ((k, w) ∷ m) d = ground (arith, keys-erase t m d.1, keys-erase_absent t m)

  pub length-keys : (m : List (Text × V)) → length (keys m) ≡ length m
  length-keys [] = refl
  length-keys (x ∷ m) = ap suc (length-keys m)
