-- ===== src/Gateway/RateLimiter.antt =====
-- `allowRate` of `cmd/gateway/main.go`: a limiter for each tenant, in a map of bounded size that
-- drops the tenant which was used least recently. The limiters of `golang.org/x/time/rate` are a
-- parameter: how one is made, and what `Allow` answers and leaves at a time.
pub mod Distinct
pub mod Lru
use open_clause.Base.{
  ℕ, ◌*◌, Bool, Option, none, some, List, [], ◌∷◌, ◌++◌, Text, ◌==◌, length, leb, if◌then◌else◌,
}
use open_clause.Base.Dict
use open_clause.Types.ToolCall.{Time}

pub record Limiters : Type 1 where
  pub Limiter : Type 0
  pub new_limiter : ℕ → ℕ → Limiter
  pub allow : Time → Limiter → Bool × Limiter

abbrev pub max_rate_limiters : ℕ
max_rate_limiters = 10000

-- The first occurrence of the tenant is cut out of the order.
unfoldable pub remove_first : Text → List Text → List Text
remove_first t [] = []
remove_first t (k ∷ ks) = if k == t then ks else k ∷ remove_first t ks

module _ (L : Limiters) where
  pub record State : Type 0 where
    pub rate_limiters : List (Text × L.Limiter)
    pub rl_order : List Text

  -- `lim.Allow()` on the limiter of the tenant, which the map holds by a pointer.
  unfoldable pub ask : Text → Time → L.Limiter → State → Bool × State
  ask t now lim st =
      let (answer, lim') = L.allow now lim in
      (answer, record st { rate_limiters = Dict.insert t lim' st.rate_limiters })

  -- The eviction: `none` is the panic of `rlOrder[0]` on an empty slice.
  unfoldable pub make_room : ℕ → State → Option State
  make_room bound st =
      if leb bound (length st.rate_limiters)
      then elim st.rl_order [
        | [] ↦ none
        | oldest ∷ rest ↦
            some (record { rate_limiters = Dict.erase oldest st.rate_limiters; rl_order = rest })
      ]
      else some st

  unfoldable pub admit : ℕ → Text → Time → Option State → Option (Bool × State)
  admit limit t now none = none
  admit limit t now (some st) = some (
      ask t now (L.new_limiter limit (limit * 2))
        (record st { rl_order = st.rl_order ++ (t ∷ []) }))

  -- `allowRate` for a map of at most `bound` limiters; the gateway's is `max_rate_limiters`.
  unfoldable pub allow_rate : ℕ → ℕ → Text → Time → State → Option (Bool × State)
  unfolding ask admit
  allow_rate bound limit t now st = elim (Dict.lookup t st.rate_limiters) [
    | some lim ↦
        some (ask t now lim (record st { rl_order = remove_first t st.rl_order ++ (t ∷ []) }))
    | none ↦ admit limit t now (make_room bound st)
  ]
