-- ===== src/Http.antt =====
-- Calls of other services by `net/http`: the request that is sent and what comes of it. A function
-- that makes one call at most is a plan: its result, or the request with what it makes of the
-- answer. A client follows redirects: its answer is the one after them.
pub mod Redirects
use open_clause.Base.{ℕ, Bool, ◌||◌, not, ltb, leb, Option, none, some, List, Text, take}

pub record HttpRequest : Type 0 where
  pub method : Text
  pub url : Text
  pub headers : List (Text × Text)
  pub body : Text

-- The request could not be made, or not be sent, or the body of the response could not be read as
-- far as it is needed; or it was answered with a status code and a body. Each error is a text.
pub data Answer : Type 0 where
  not_made : Text → Answer
  not_sent : Text → Answer
  broken : ℕ → Text → Answer
  answered : ℕ → Text → Answer

pub data Plan (A : Type 0) : Type 0 where
  done : A → Plan A
  send : HttpRequest → (Answer → A) → Plan A

-- The result, where the world answers a request.
unfoldable pub run : {A : Type 0} → (HttpRequest → Answer) → Plan A → A
run world (done a) = a
run world (send r k) = k (world r)

-- The request that is sent, if there is one.
unfoldable pub sent : {A : Type 0} → Plan A → Option HttpRequest
sent (done a) = none
sent (send r k) = some r

-- `code >= 200 && code < 300`.
unfoldable pub is_success : ℕ → Bool
is_success code = not (ltb code 200 || leb 300 code)

-- `io.LimitReader` with 4 MB.
unfoldable pub limited : Text → Text
limited body = take 4194304 body
