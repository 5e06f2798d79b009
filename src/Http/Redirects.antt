-- ===== src/Http/Redirects.antt =====
-- The redirects that an `http.Client` without a `CheckRedirect` follows when it does a request, as
-- `net/http` documents them: after ten requests it stops with an error.
use open_clause.Base.{
  ℕ, zero, suc, ◌≤◌, ◌≡◌, ◌⊎◌, inl, inr, refl, Bool, ◌||◌, List, [], ◌∷◌, Text, text, ◌==◌, eqb,
  if◌then◌else◌, length, arith,
}
use open_clause.Http.{HttpRequest, Answer, not_sent}

-- The URL of a `Location`, in a response to a request for the first URL, and the headers that a
-- request keeps on its way to another URL.
pub record Rules : Type 0 where
  pub resolve : Text → Text → Text
  pub headers_to : HttpRequest → Text → List (Text × Text)

-- What a server makes of one request: an answer, or a redirect, by one of the status codes 301, 302,
-- 303, 307 and 308 with a `Location`.
pub data Served : Type 0 where
  ends : Answer → Served
  redirects : ℕ → Text → Served

keeps_body : ℕ → Bool
keeps_body code = eqb code 307 || eqb code 308

method_after : ℕ → Text → Text
unfolding keeps_body
method_after code method =
    if keeps_body code || method == text "GET" || method == text "HEAD" then method else text "GET"

-- The request that follows a redirect. With 307 and 308 the method and the body are sent again.
unfoldable pub redirected : Rules → HttpRequest → ℕ → Text → HttpRequest
unfolding method_after keeps_body
redirected r q code location =
    let url = r.resolve q.url location in
    record {
      method = method_after code q.method;
      url = url;
      headers = r.headers_to q url;
      body = if keeps_body code then q.body else [];
    }

module _ (r : Rules) (server : HttpRequest → Served) where
  -- The requests that are sent, and the answer, if so many redirects may still be followed.
  unfoldable pub follow : ℕ → HttpRequest → List HttpRequest × Answer
  follow zero q = elim (server q) [
    | ends a ↦ (q ∷ [], a)
    | redirects code location ↦ (q ∷ [], not_sent (text "stopped after 10 redirects"))
  ]
  follow (suc n) q = elim (server q) [
    | ends a ↦ (q ∷ [], a)
    | redirects code location ↦
        let (rest, a) = follow n (redirected r q code location) in (q ∷ rest, a)
  ]

  -- `Do`: the requests that it sends, and its answer.
  unfoldable pub requests : HttpRequest → List HttpRequest
  unfolding follow
  requests q = (follow 9 q).0

  unfoldable pub client : HttpRequest → Answer
  unfolding follow
  client q = (follow 9 q).1

  -- Each request follows a redirect that the one before was answered with.
  abbrev pub AreRedirected : HttpRequest → List HttpRequest → Type 0
  AreRedirected q [] = Unit
  AreRedirected q (p ∷ rest) =
      ((code : ℕ) × (location : Text) × (server q ≡ redirects code location)
        × (p ≡ redirected r q code location))
      × AreRedirected p rest

  Served-cases :
      (s : Served)
      → ((code : ℕ) × (location : Text) × (s ≡ redirects code location))
        ⊎ ((a : Answer) × (s ≡ ends a))
  Served-cases (ends a) = inr (a, refl)
  Served-cases (redirects code location) = inl (code, location, refl)

  follow-AreRedirected :
      (n : ℕ) (q : HttpRequest)
      → (rest : List HttpRequest) × ((follow n q).0 ≡ q ∷ rest)
        × AreRedirected q rest
        × (length rest ≤ n)
  unfolding follow
  follow-AreRedirected zero q = elim (Served-cases (server q)) [
    | inl (code, location, e) ↦ ([], ground arith, tt, ground arith)
    | inr (a, e) ↦ ([], ground arith, tt, ground arith)
  ]
  follow-AreRedirected (suc n) q = elim (Served-cases (server q)) [
    | inr (a, e) ↦ ([], ground arith, tt, ground arith)
    | inl (code, location, e) ↦
        let p = redirected r q code location in
        let (rest, sent, each, few) = follow-AreRedirected n p in
        (p ∷ rest, ground (arith, e, sent), ((code, location, e, refl), each), ground arith)
  ]

  -- The requests are the given one and at most nine that follow redirects.
  pub requests-AreRedirected :
      (q : HttpRequest)
      → (rest : List HttpRequest) × (requests q ≡ q ∷ rest)
        × AreRedirected q rest
        × (length rest ≤ 9)
  unfolding requests
  requests-AreRedirected q = follow-AreRedirected 9 q
