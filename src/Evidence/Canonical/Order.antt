-- ===== src/Evidence/Canonical/Order.antt =====
-- The canonical form of a value does not depend on the order in which its maps are read.
use open_clause.Base.{◌≡◌, ◌≢◌, refl, ◌∙◌, ap, List, map, Text, ok, arith}
use open_clause.Base.Order.{sort, sort-swap, sort-cons}
use open_clause.Json.{Json, arr, obj, Items, nil, cons, Fields, end, field, from_list}
use open_clause.Evidence.Canonical.{
  keys, get, in_order, sort_keys, sort_items, sort_values, marshal, canonical_json,
}

-- The same Go value: two maps hold the same entries, met in any two orders. The keys of a map are
-- distinct, so two neighbours may be exchanged where their keys differ.
mutual
  pub data Same : Json → Json → Type 0 where
    same : (v : Json) → Same v v
    arrays : {xs ys : Items} → SameItems xs ys → Same (arr xs) (arr ys)
    maps : {fs gs : Fields} → SameFields fs gs → Same (obj fs) (obj gs)

  pub data SameItems : Items → Items → Type 0 where
    empty : SameItems nil nil
    item :
        {v w : Json} {xs ys : Items}
        → Same v w
        → SameItems xs ys
        → SameItems (cons v xs) (cons w ys)

  pub data SameFields : Fields → Fields → Type 0 where
    no_fields : SameFields end end
    entry :
        {v w : Json} {fs gs : Fields} (k : Text)
        → Same v w
        → SameFields fs gs
        → SameFields (field k v fs) (field k w gs)
    exchange :
        (k j : Text) (v w : Json) (fs : Fields)
        → k ≢ j
        → SameFields (field k v (field j w fs)) (field j w (field k v fs))
    chain : {fs gs hs : Fields} → SameFields fs gs → SameFields gs hs → SameFields fs hs

abbrev Agree : List (Text × Json) → List (Text × Json) → Type 0
Agree m n = (sort (keys m) ≡ sort (keys n)) × ((k : Text) → get k m ≡ get k n)

in_order-Agree :
    (m n : List (Text × Json)) → Agree m n → in_order (sort (keys m)) m ≡ in_order (sort (keys n)) n
unfolding in_order
in_order-Agree m n (same_keys, same_values) = λ i. map (λ k. (k, same_values k i)) (same_keys i)

mutual
  unfolding sort_keys keys get

  sort_keys-Same : {v w : Json} → Same v w → sort_keys v ≡ sort_keys w
  sort_keys-Same (same v) = refl
  sort_keys-Same (arrays s) = ap arr (sort_items-Same s)
  sort_keys-Same (maps {fs} {gs} s) =
      ap (λ m. obj (from_list m))
        (in_order-Agree (sort_values fs) (sort_values gs) (sort_values-Same s))

  sort_items-Same : {xs ys : Items} → SameItems xs ys → sort_items xs ≡ sort_items ys
  sort_items-Same empty = refl
  sort_items-Same (item s t) = cc (sort_keys-Same s, sort_items-Same t)

  sort_values-Same : {fs gs : Fields} → SameFields fs gs → Agree (sort_values fs) (sort_values gs)
  sort_values-Same no_fields = (refl, λ k. refl)
  sort_values-Same (entry k s t) =
      let (a, b) = sort_values-Same t in
      (sort-cons k _ _ a, λ j. ground (arith, sort_keys-Same s, b j))
  sort_values-Same (exchange k j v w fs h) = (sort-swap k j _, λ i. ground arith)
  sort_values-Same (chain s t) =
      let (a, b) = sort_values-Same s in let (c, d) = sort_values-Same t in (a ∙ c, λ k. b k ∙ d k)

-- Two values that differ only in the order in which their maps are read, at any depth, have the
-- same canonical bytes.
pub canonical_json-Same : {v w : Json} → Same v w → canonical_json (ok v) ≡ canonical_json (ok w)
unfolding canonical_json
canonical_json-Same s = ap (λ v. ok (marshal v)) (sort_keys-Same s)
