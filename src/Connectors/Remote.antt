-- ===== src/Connectors/Remote.antt =====
-- A connector behind the registry: the call of the gateway and the service that answers it.
use open_clause.Base.{
  ℕ, ◌≡◌, ◌≢◌, refl, some, [], ◌∷◌, ◌++◌, Text, text, text_dec, ◌==◌, if◌then◌else◌, take, ok, err,
  arith,
}
use open_clause.Base.Dict
use open_clause.Base.Decimal.{decimal}
use open_clause.Gateway.Model.{ExecRequest, ExecResponse}
use open_clause.Http.{HttpRequest, Answer, answered, Plan, done, send, run, limited, is_success}
use open_clause.Connectors.{Codec, Registry, exec, post, read_response, internal_headers}
use open_clause.Connectors.Serve.{ServerCodec, header_of, after, serve, service, written}

pub run-after :
    {A B : Type 0} (world : HttpRequest → Answer) (f : A → B) (p : Plan A)
    → run world (after f p) ≡ f (run world p)
unfolding run after
run-after world f (done a) = refl
run-after world f (send q k) = refl

pub header_of-internal_headers :
    (token : Text) → header_of (text "X-Internal-Token") (internal_headers token) ≡ token
unfolding header_of internal_headers Dict.lookup text text_dec
header_of-internal_headers [] = refl
header_of-internal_headers (c ∷ s) = refl

-- What the two ends write is read by the other: the request, and the response within 4 MB.
pub record Agree (c : Codec) (s : ServerCodec) (x : ExecRequest) (y : ExecResponse) : Type 0 where
  pub request : Text
  pub request_written : c.encode x ≡ ok request
  pub request_read : s.decode request ≡ some x
  pub response : Text
  pub response_written : s.encode y ≡ ok response
  pub response_read : c.decode (limited response) ≡ ok y

unauthorized_text :
    decimal 401 ++ (text ": " ++ take 512 (limited (text "unauthorized\n")))
    ≡ text "401: unauthorized\n"
unfolding decimal limited text
unauthorized_text = refl

module _ (c : Codec) (s : ServerCodec) (r : Registry) (token : Text)
    (connector : ExecRequest → Plan ExecResponse) (world : HttpRequest → Answer) (x : ExecRequest)
    (base_url : Text) (a : Agree c s x (run world (connector x))) where
  exec-send :
      Dict.lookup x.tool r.routes ≡ some base_url
      → exec c r x ≡ send (post r base_url a.request) (read_response c x.tool)
  unfolding exec
  exec-send route = rw (route, exec) (rw (a.request_written, exec) refl)

  service-post :
      r.internal_token ≡ token
      → service s token connector world (post r base_url a.request) ≡ answered 200 a.response
  unfolding service serve
  service-post e = rw (header_of-internal_headers r.internal_token) (
      ground (
        arith,
        a.request_read,
        a.response_written,
        run-after {B = ℕ × Text} world (λ response. (200, written (s.encode response)))
            (connector x),
      ))

  service-post_refused :
      r.internal_token ≢ token
      → service s token connector world (post r base_url a.request)
        ≡ answered 401 (text "unauthorized\n")
  unfolding service serve run
  service-post_refused n = rw (header_of-internal_headers r.internal_token) (ground arith)

  -- If the tool of a request has a route, and the registry and the connector agree on how the
  -- request and its outcome are written, the call through the registry gives what the connector
  -- gives for the very request, provided that both have the same token; otherwise it fails with the
  -- status code 401.
  pub exec-service :
      Dict.lookup x.tool r.routes ≡ some base_url
      → run (service s token connector world) (exec c r x) ≡ (
          if r.internal_token == token
          then ok (run world (connector x))
          else err (
              text "connector "
              ++ (x.tool ++ (text " returned HTTP " ++ text "401: unauthorized\n"))))
  unfolding run read_response is_success
  exec-service route = elim (text_dec r.internal_token token) [
    | yes e ↦ rw (exec-send route, service-post e) (ground (arith, a.response_read))
    | no n ↦ rw (exec-send route, service-post_refused n) (ground (arith, unauthorized_text))
  ]
