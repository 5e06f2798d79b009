-- ===== src/Approvals/SecretRefs.antt =====
-- `ParseSecretRefMap` of `pkg/approvals/notifier.go`.
use open_clause.Base.{
  ◌||◌, Option, none, some, List, [], ◌∷◌, Text, is_empty, if◌then◌else◌, split, cut, Unicode,
  trim_space,
}
use open_clause.Base.Dict

-- `ParseSecretRefMap`, an entry and the loop.
module _ (u : Unicode) where
  unfoldable pub secret_ref : Text → Option (Text × Text)
  secret_ref raw = elim (cut b'=' (trim_space u raw)) [
    | none ↦ none
    | some (k, v) ↦
        if is_empty (trim_space u k) || is_empty (trim_space u v)
        then none
        else some (trim_space u k, trim_space u v)
  ]

  abbrev add_ref : Option (Text × Text) → List (Text × Text) → List (Text × Text)
  add_ref none m = m
  add_ref (some (k, v)) m = Dict.insert k v m

  unfoldable pub add_refs : List Text → List (Text × Text) → List (Text × Text)
  add_refs [] m = m
  add_refs (raw ∷ rest) m = add_refs rest (add_ref (secret_ref raw) m)

  unfoldable pub parse_secret_ref_map : Text → List (Text × Text)
  parse_secret_ref_map raw = add_refs (split b',' raw) []
