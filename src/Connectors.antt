-- ===== src/Connectors.antt =====
-- `pkg/connectors`: the payload of a connector call, and the registry through which the gateway
-- makes it.
pub mod Outcome
pub mod Slack
pub mod Posted
pub mod Jira
pub mod Template
pub mod Serve
pub mod Remote
pub mod Statuses
use open_clause.Base.{
  ℕ, Bool, true, false, ltb, Option, none, some, List, [], ◌∷◌, ◌++◌, Text, text, is_empty, take,
  length, if◌then◌else◌, Result, ok, err, wrap, trim_slashes,
}
use open_clause.Base.Dict
use open_clause.Base.Decimal.{decimal}
use open_clause.Gateway.Model.{ExecRequest, ExecResponse}
use open_clause.Http.{
  HttpRequest, Answer, not_made, not_sent, broken, answered, Plan, done, send, is_success, limited,
}

-- The routes, from tools to base URLs, and the token. The client's timeout is left to the world.
pub record Registry : Type 0 where
  pub routes : List (Text × Text)
  pub internal_token : Text

-- `NewRegistry`.
abbrev pub new_registry : Registry
new_registry = record { routes = []; internal_token = [] }

-- `Register`.
unfoldable pub register : Text → Text → Registry → Registry
register tool base_url r = record r { routes = Dict.insert tool base_url r.routes }

-- `SetInternalToken`.
unfoldable pub set_internal_token : Text → Registry → Registry
set_internal_token token r = record r { internal_token = token }

abbrev json_type : Text × Text
json_type = (text "Content-Type", text "application/json")

-- The headers of a call between the services.
unfoldable pub internal_headers : Text → List (Text × Text)
internal_headers token =
    json_type ∷ (if is_empty token then [] else (text "X-Internal-Token", token) ∷ [])

-- `json.Marshal` of a request, or its error; what `json.Unmarshal` makes of a response, or its
-- error; and how `fmt` quotes a text.
pub record Codec : Type 0 where
  pub encode : ExecRequest → Result Text Text
  pub decode : Text → Result Text ExecResponse
  pub quoted : Text → Text

-- What `Exec` makes of the answer.
unfoldable pub read_response : Codec → Text → Answer → Result Text ExecResponse
read_response c tool (not_made e) = err (text "connector new request: " ++ e)
read_response c tool (not_sent e) = err (text "connector request to " ++ (tool ++ (text ": " ++ e)))
read_response c tool (broken code e) = err (text "connector read response: " ++ e)
read_response c tool (answered code body) =
    if is_success code
    then wrap (text "connector decode response: ") (c.decode (limited body))
    else err (
        text "connector "
        ++ (tool
            ++ (text " returned HTTP "
                ++ (decimal code ++ (text ": " ++ take 512 (limited body))))))

abbrev pub post : Registry → Text → Text → HttpRequest
post r base_url body = record {
  method = text "POST";
  url = trim_slashes base_url ++ text "/exec";
  headers = internal_headers r.internal_token;
  body = body;
}

-- `Exec`.
unfoldable pub exec : Codec → Registry → ExecRequest → Plan (Result Text ExecResponse)
unfolding internal_headers
exec c r x = elim (Dict.lookup x.tool r.routes) [
  | none ↦ done (err (text "no connector registered for tool " ++ c.quoted x.tool))
  | some base_url ↦ elim (c.encode x) [
    | err e ↦ done (err (text "connector marshal: " ++ e))
    | ok body ↦ send (post r base_url body) (read_response c x.tool)
  ]
]
