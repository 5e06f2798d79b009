-- ===== src/Auth.antt =====
-- `pkg/auth`: the keys of the tenants and the middleware that checks them. The hash of a key,
-- SHA-256 in hex, is a parameter.
pub mod Keyed
use open_clause.Base.{
  ℕ, Bool, true, false, ◌||◌, Option, none, some, List, [], ◌∷◌, Text, text, ◌==◌, is_empty, split,
  cut, after_prefix, Unicode, trim_space, if◌then◌else◌,
}
use open_clause.Base.Dict
use open_clause.Types.Errors.{ApiError, unauthorized}

-- A `tenant:key` pair of the configuration.
unfoldable pub entry : Unicode → Text → Option (Text × Text)
entry u pair = elim (cut b':' (trim_space u pair)) [
  | none ↦ none
  | some (tenant, key) ↦ some (trim_space u tenant, trim_space u key)
]

module _ (hash_key : Text → Text) where
  unfoldable pub add_entry : Option (Text × Text) → List (Text × Text) → List (Text × Text)
  add_entry none keys = keys
  add_entry (some (tenant, key)) keys = Dict.insert (hash_key key) tenant keys

  unfoldable pub add_entries : Unicode → List Text → List (Text × Text) → List (Text × Text)
  add_entries u [] keys = keys
  add_entries u (pair ∷ pairs) keys = add_entries u pairs (add_entry (entry u pair) keys)

  -- `NewKeyStore`.
  unfoldable pub new_key_store : Unicode → Text → List (Text × Text)
  new_key_store u raw = if is_empty raw then [] else add_entries u (split b',' raw) []

  -- `Lookup`.
  unfoldable pub lookup : Text → List (Text × Text) → Option Text
  lookup api_key keys = Dict.lookup (hash_key api_key) keys

-- The path of a request and the headers that the middleware reads; a missing header is empty.
pub record Request : Type 0 where
  pub path : Text
  pub x_api_key : Text
  pub authorization : Text

-- The response of the middleware, or the tenant with which the next handler is called: none if the
-- path needs no key.
pub data Passage : Type 0 where
  refused : ApiError → Passage
  passed : Option Text → Passage

unfoldable pub is_skipped : Text → Bool
is_skipped path = path == text "/healthz" || path == text "/readyz"

unfoldable pub bearer : Option Text → Text
bearer none = []
bearer (some token) = token

unfoldable pub api_key_of : Request → Text
api_key_of r =
    if is_empty r.x_api_key
    then bearer (after_prefix r.authorization (text "Bearer "))
    else r.x_api_key

unfoldable pub api_key_auth : (Text → Text) → List (Text × Text) → Request → Passage
api_key_auth hash_key keys r =
    if is_skipped r.path
    then passed none
    else if is_empty (api_key_of r)
    then refused (unauthorized (text "missing API key"))
    else elim (lookup hash_key (api_key_of r) keys) [
      | none ↦ refused (unauthorized (text "invalid API key"))
      | some tenant ↦ passed (some tenant)
    ]

-- `TenantFromContext`: empty where no key was checked.
unfoldable pub tenant_from_context : Option Text → Text
tenant_from_context none = []
tenant_from_context (some tenant) = tenant
