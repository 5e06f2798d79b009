-- ===== src/Approvals/Authorizer.antt =====
-- `pkg/approvals/authorizer.go`: who may approve for a tenant, by email or by Slack user.
pub mod Listed
use open_clause.Base.{
  ℕ, Bool, true, false, ◌||◌, ◌&&◌, not, Option, none, some, List, [], ◌∷◌, ◌++◌, Text, text, ◌==◌,
  is_empty, split, cut, Unicode, trim_space, to_lower, if◌then◌else◌, any,
}
use open_clause.Base.Dict

-- A set of values is a list of them.
abbrev pub Allowlist : Type 0
Allowlist = List (Text × List Text)

abbrev pub is_member : Text → List Text → Bool
is_member x vs = any (λ v. v == x) vs

module _ (u : Unicode) where
  unfoldable pub canonical : Text → Text
  canonical v = to_lower u (trim_space u v)

  -- The values of an entry, without the empty ones.
  unfoldable pub values_of : List Text → List Text
  values_of [] = []
  values_of (v ∷ vs) =
      let rest = values_of vs in if is_empty (trim_space u v) then rest else canonical v ∷ rest

  -- `tenant:value|value|...`; an entry without a tenant is left out.
  unfoldable pub tenant_entry : Text → Option (Text × List Text)
  tenant_entry raw = elim (cut b':' (trim_space u raw)) [
    | none ↦ none
    | some (tenant, values) ↦
        if is_empty (trim_space u tenant)
        then none
        else some (trim_space u tenant, values_of (split b'|' values))
  ]

  abbrev pub or_empty : Option (List Text) → List Text
  or_empty none = []
  or_empty (some vs) = vs

  unfoldable pub add_values : Option (Text × List Text) → Allowlist → Allowlist
  add_values none m = m
  add_values (some (tenant, vs)) m = Dict.insert tenant (or_empty (Dict.lookup tenant m) ++ vs) m

  unfoldable pub add_all : List Text → Allowlist → Allowlist
  add_all [] m = m
  add_all (e ∷ entries) m = add_all entries (add_values (tenant_entry e) m)

  unfoldable pub parse_tenant_list : Text → Allowlist
  parse_tenant_list raw = add_all (split b',' raw) []

  -- `AllowEmail` and `AllowSlack`, each on its list.
  unfoldable pub allow : Allowlist → Text → Text → Bool
  allow m tenant user =
      not (is_empty user) && is_member (canonical user) (or_empty (Dict.lookup tenant m))
