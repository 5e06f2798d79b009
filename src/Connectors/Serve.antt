-- ===== src/Connectors/Serve.antt =====
-- The `/exec` route of `cmd/connector-slack/main.go` and `cmd/connector-jira/main.go`, which are
-- the same, and the handler of `pkg/connectors/sdk/sdk.go`.
use open_clause.Base.{
  ℕ, ◌≡◌, refl, inl, inr, Bool-cases, false, not, ◌&&◌, is_empty, Option, none, some, List, [],
  Text, text, ◌==◌, if◌then◌else◌, Result, ok, err,
}
use open_clause.Base.Dict
use open_clause.Gateway.Model.{ExecRequest, ExecResponse}
use open_clause.Http.{HttpRequest, Answer, answered, Plan, done, send, run}

-- What `encoding/json` makes of the body, of which 1 MB is read, or `none` for its error; how it
-- writes the response.
pub record ServerCodec : Type 0 where
  pub decode : Text → Option ExecRequest
  pub encode : ExecResponse → Result Text Text

-- A response that cannot be written leaves the body empty.
abbrev pub written : Result Text Text → Text
written (ok body) = body
written (err e) = []

-- `r.Header.Get`.
unfoldable pub header_of : Text → List (Text × Text) → Text
header_of name headers = elim (Dict.lookup name headers) [ none ↦ [] | some v ↦ v ]

-- What follows the execution.
unfoldable pub after : {A B : Type 0} → (A → B) → Plan A → Plan B
after f (done a) = done (f a)
after f (send q k) = send q (λ answer. f (k answer))

module _ (c : ServerCodec) (token : Text) (exec : ExecRequest → Plan ExecResponse) where
  serve_body : Option ExecRequest → Plan (ℕ × Text)
  serve_body none = done (400, text "invalid body\n")
  serve_body (some x) = after (λ response. (200, written (c.encode response))) (exec x)

  -- The handler, with the status code and the body of its response.
  unfoldable pub serve : HttpRequest → Plan (ℕ × Text)
  unfolding serve_body after
  serve q =
      if header_of (text "X-Internal-Token") q.headers == token
      then serve_body (c.decode q.body)
      else done (401, text "unauthorized\n")

  -- `Handler` of `pkg/connectors/sdk`, which checks no token if it has none.
  unfoldable pub serve_sdk : HttpRequest → Plan (ℕ × Text)
  unfolding serve_body after
  serve_sdk q =
      if not (is_empty token) && not (header_of (text "X-Internal-Token") q.headers == token)
      then done (401, text "unauthorized\n")
      else serve_body (c.decode q.body)

  -- With a token, it does what the connectors of `cmd` do.
  pub serve_sdk-eq-serve : is_empty token ≡ false → (q : HttpRequest) → serve_sdk q ≡ serve q
  unfolding serve_sdk serve
  serve_sdk-eq-serve e q =
      elim (Bool-cases (header_of (text "X-Internal-Token") q.headers == token)) [
        | inl p ↦ rw (e, p) refl
        | inr p ↦ rw (e, p) refl
      ]

  -- The connector as a service, which calls others in a world.
  unfoldable pub service : (HttpRequest → Answer) → HttpRequest → Answer
  service world q = let (code, body) = run world (serve q) in answered code body
