-- ===== src/Evidence/Canonical.antt =====
-- `pkg/evidence/canonical.go`: a stable byte representation of JSON values.
pub mod Order
use open_clause.Base.{
  Option, none, some, List, [], ◌∷◌, ◌++◌, map, Text, text, Result, ok, err, Bool, true, false,
}
use open_clause.Base.Dict
use open_clause.Base.Order.{sort}
use open_clause.Json.{
  Json, null, bool, number, str, arr, obj, Items, nil, cons, Fields, end, field, from_list, quote,
}

unfoldable pub keys : List (Text × Json) → List Text
keys [] = []
keys ((k, _) ∷ m) = k ∷ keys m

-- `val[k]`: a missing key reads as nil.
abbrev or_null : Option Json → Json
or_null none = null
or_null (some v) = v

unfoldable pub get : Text → List (Text × Json) → Json
unfolding Dict.lookup
get k m = or_null (Dict.lookup k m)

-- The loop over the sorted keys, which builds the `orderedMap`.
unfoldable pub in_order : List Text → List (Text × Json) → List (Text × Json)
in_order ks m = map (λ k. (k, get k m)) ks

-- `sortKeys`. The values of a map are sorted before the keys are put in order.
unfoldable mutual
  pub sort_keys : Json → Json
  sort_keys null = null
  sort_keys (bool b) = bool b
  sort_keys (number n) = number n
  sort_keys (str s) = str s
  sort_keys (arr xs) = arr (sort_items xs)
  sort_keys (obj fs) = let m = sort_values fs in obj (from_list (in_order (sort (keys m)) m))

  pub sort_items : Items → Items
  sort_items nil = nil
  sort_items (cons x xs) = cons (sort_keys x) (sort_items xs)

  pub sort_values : Fields → List (Text × Json)
  sort_values end = []
  sort_values (field k v fs) = (k, sort_keys v) ∷ sort_values fs

-- `json.Marshal` of what `sortKeys` returns; `marshal_fields` is the loop of
-- `orderedMap.MarshalJSON`. The flag is `i > 0`.
unfoldable mutual
  pub marshal : Json → Text
  marshal null = text "null"
  marshal (bool true) = text "true"
  marshal (bool false) = text "false"
  marshal (number n) = n
  marshal (str s) = quote s
  marshal (arr xs) = b'[' ∷ marshal_items false xs
  marshal (obj fs) = b'{' ∷ marshal_fields false fs

  pub marshal_items : Bool → Items → Text
  marshal_items later nil = b']' ∷ []
  marshal_items false (cons x xs) = marshal x ++ marshal_items true xs
  marshal_items true (cons x xs) = b',' ∷ (marshal x ++ marshal_items true xs)

  pub marshal_fields : Bool → Fields → Text
  marshal_fields later end = b'}' ∷ []
  marshal_fields false (field k v fs) = quote k ++ (b':' ∷ (marshal v ++ marshal_fields true fs))
  marshal_fields true (field k v fs) =
      b',' ∷ (quote k ++ (b':' ∷ (marshal v ++ marshal_fields true fs)))

-- `CanonicalJSON`. Its argument is what `json.Marshal` and the decoder make of the Go value, or
-- the error of `json.Marshal`.
unfoldable pub canonical_json : Result Text Json → Result Text Text
unfolding marshal sort_keys
canonical_json (err e) = err (text "canonical json marshal: " ++ e)
canonical_json (ok generic) = ok (marshal (sort_keys generic))

module _ (sha256 : Text → Text) where
  -- `HashBytes`, over the hex-encoded SHA-256.
  unfoldable pub hash_bytes : Text → Text
  hash_bytes canon = sha256 canon

  -- `HashPayload`.
  unfoldable pub hash_payload : Result Text Json → Result Text (Text × Text)
  unfolding hash_bytes canonical_json
  hash_payload v = elim (canonical_json v) [
    | err e ↦ err e
    | ok canon ↦ ok (canon, hash_bytes canon)
  ]
