-- ===== src/Auth/Keyed.antt =====
-- A tenant is authenticated by a configured key alone.
use open_clause.Base.{
  ◌≡◌, ◌⊎◌, inl, inr, false, some, List, [], ◌∷◌, Text, text_dec, is_empty, split, Unicode, arith,
  Bool-cases, Option-cases,
}
use open_clause.Base.Dict
use open_clause.Auth.{
  entry, add_entry, add_entries, new_key_store, lookup, Request, passed, is_skipped, api_key_of,
  api_key_auth,
}

abbrev pub Any : (Text → Type 0) → List Text → Type 0
Any P [] = ⊥
Any P (x ∷ xs) = P x ⊎ Any P xs

module _ (hash_key : Text → Text) (u : Unicode) where
  -- A pair of the configuration gives the tenant a key with that hash.
  abbrev pub IsConfigured : Text → Text → Text → Type 0
  IsConfigured h tenant pair =
      (key : Text) × (entry u pair ≡ some (tenant, key)) × (hash_key key ≡ h)

  lookup-add_entries :
      (h tenant : Text) (pairs : List Text) (keys : List (Text × Text))
      → Dict.lookup h (add_entries hash_key u pairs keys) ≡ some tenant
      → Any (IsConfigured h tenant) pairs ⊎ (Dict.lookup h keys ≡ some tenant)
  unfolding add_entries add_entry
  lookup-add_entries h tenant [] keys e = inr e
  lookup-add_entries h tenant (pair ∷ pairs) keys e =
      elim (lookup-add_entries h tenant pairs (add_entry hash_key (entry u pair) keys) e) [
        | inl found ↦ inl (inr found)
        | inr e' ↦ elim (Option-cases (entry u pair)) [
          | inl p ↦ inr (ground arith)
          | inr ((t, key), p) ↦ elim (text_dec h (hash_key key)) [
            | no q ↦ inr (ground (arith, Dict.lookup-insert (hash_key key) h t keys))
            | yes q ↦ inl (
                inl (key, ground (arith, Dict.lookup-insert (hash_key key) h t keys), ground arith))
          ]
        ]
      ]

  -- The middleware lets a request through for a tenant only if a pair of the configuration gives
  -- that tenant a key whose hash is that of the request's key, and the request's key is not empty.
  pub api_key_auth-IsConfigured :
      (raw : Text) (r : Request) {tenant : Text}
      → api_key_auth hash_key (new_key_store hash_key u raw) r ≡ passed (some tenant)
      → (is_empty (api_key_of r) ≡ false)
        × Any (IsConfigured (hash_key (api_key_of r)) tenant) (split b',' raw)
  unfolding api_key_auth new_key_store lookup Dict.lookup
  api_key_auth-IsConfigured raw r {tenant} e = elim (Bool-cases (is_skipped r.path)) [
    | inl p ↦ absurd (ground arith)
    | inr p ↦ elim (Bool-cases (is_empty (api_key_of r))) [
      | inl q ↦ absurd (ground arith)
      | inr q ↦ elim (Bool-cases (is_empty raw)) [
        | inl s ↦ absurd (ground arith)
        | inr s ↦
            let k = hash_key (api_key_of r) in
            elim (lookup-add_entries k tenant (split b',' raw) [] (ground arith)) [
              | inl found ↦ (q, found)
              | inr none_found ↦ absurd (ground arith)
            ]
      ]
    ]
  ]
