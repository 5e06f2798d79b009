-- ===== src/Config.antt =====
-- `pkg/config/config.go`: what the services read of their environment, by `os.Getenv`.
use open_clause.Base.{
  ◌≡◌, inl, inr, Option-cases, Bool-cases, true, Option, none, some, Text, is_empty, if◌then◌else◌,
}
use open_clause.Base.Int.{ℤ, pos, ltb_ℤ, parse_int}

module _ (getenv : Text → Text) where
  -- `EnvOr`.
  unfoldable pub env_or : Text → Text → Text
  env_or key fallback = if is_empty (getenv key) then fallback else getenv key

  abbrev positive_or : ℤ → Option ℤ → ℤ
  positive_or fallback none = fallback
  positive_or fallback (some n) = if ltb_ℤ (pos 0) n then n else fallback

  -- `EnvOrInt`.
  unfoldable pub env_or_int : Text → ℤ → ℤ
  env_or_int key fallback =
      if is_empty (getenv key) then fallback else positive_or fallback (parse_int (getenv key))

  -- With a positive fallback the number is positive, whatever the environment holds.
  pub env_or_int_positive :
      (key : Text) (fallback : ℤ)
      → ltb_ℤ (pos 0) fallback ≡ true
      → ltb_ℤ (pos 0) (env_or_int key fallback) ≡ true
  unfolding env_or_int
  env_or_int_positive key fallback h = elim (Bool-cases (is_empty (getenv key))) [
    | inl e ↦ rw e h
    | inr e ↦ elim (Option-cases (parse_int (getenv key))) [
      | inl p ↦ rw (e, p) h
      | inr (n, p) ↦ elim (Bool-cases (ltb_ℤ (pos 0) n)) [
        | inl q ↦ rw (e, p, q) q
        | inr q ↦ rw (e, p, q) h
      ]
    ]
  ]
