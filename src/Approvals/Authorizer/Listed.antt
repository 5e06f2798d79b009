-- ===== src/Approvals/Authorizer/Listed.antt =====
-- Only users that the configuration lists may approve.
use open_clause.Base.{
  ◌≡◌, ◌⊎◌, inl, inr, refl, true, false, ◌||◌, some, List, [], ◌∷◌, ◌++◌, Text, text_dec, is_empty,
  split, Unicode, arith, Bool-cases, Option-cases,
}
use open_clause.Base.Dict
use open_clause.Auth.Keyed.{Any}
use open_clause.Approvals.Authorizer.{
  Allowlist, is_member, canonical, tenant_entry, or_empty, add_values, add_all, parse_tenant_list,
  allow,
}

is_member-append :
    (x : Text) (vs ws : List Text) → is_member x (vs ++ ws) ≡ (is_member x vs || is_member x ws)
is_member-append x [] ws = refl
is_member-append x (v ∷ vs) ws = ground (arith, is_member-append x vs ws)

module _ (u : Unicode) where
  -- An entry of the list names the tenant and has the value.
  abbrev pub IsListed : Text → Text → Text → Type 0
  IsListed tenant x e =
      (vs : List Text) × (tenant_entry u e ≡ some (tenant, vs)) × (is_member x vs ≡ true)

  add_all-IsListed :
      (tenant x : Text) (entries : List Text) (m : Allowlist)
      → is_member x (or_empty u (Dict.lookup tenant (add_all u entries m))) ≡ true
      → Any (IsListed tenant x) entries ⊎ (is_member x (or_empty u (Dict.lookup tenant m)) ≡ true)
  unfolding add_all add_values
  add_all-IsListed tenant x [] m h = inr h
  add_all-IsListed tenant x (e ∷ entries) m h =
      elim (add_all-IsListed tenant x entries (add_values u (tenant_entry u e) m) h) [
        | inl found ↦ inl (inr found)
        | inr h' ↦ elim (Option-cases (tenant_entry u e)) [
          | inl p ↦ inr (ground arith)
          | inr ((t, vs), p) ↦
              let all = or_empty u (Dict.lookup t m) ++ vs in
              elim (text_dec tenant t) [
                | no q ↦ inr (ground (arith, Dict.lookup-insert t tenant all m))
                | yes q ↦ elim (Bool-cases (is_member x vs)) [
                  | inl r ↦ inl (inl (vs, ground arith, r))
                  | inr r ↦ inr (
                      ground (
                        arith,
                        Dict.lookup-insert t tenant all m,
                        is_member-append x (or_empty u (Dict.lookup t m)) vs,
                      ))
                ]
              ]
        ]
      ]

  -- A user may approve for a tenant only if an entry of the configured list names the tenant and
  -- has the user, in lower case and without space round it, and the user is not empty.
  pub allow-IsListed :
      (raw tenant user : Text)
      → allow u (parse_tenant_list u raw) tenant user ≡ true
      → (is_empty user ≡ false) × Any (IsListed tenant (canonical u user)) (split b',' raw)
  unfolding allow parse_tenant_list Dict.lookup
  allow-IsListed raw tenant user h =
      elim (add_all-IsListed tenant (canonical u user) (split b',' raw) [] (ground arith)) [
        | inl found ↦ (ground arith, found)
        | inr none_found ↦ absurd (ground arith)
      ]
