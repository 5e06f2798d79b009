-- ===== src/Connectors/Jira.antt =====
-- `cmd/connector-jira/main.go`: the actions of the Jira connector. The decoders of JSON are a
-- parameter. A map is written with its keys in the order in which `json.Marshal` sorts them.
use open_clause.Base.{
  Bool, true, ◌||◌, [], ◌∷◌, ◌++◌, Text, text, ◌==◌, is_empty, if◌then◌else◌, trim_slashes, Result,
  ok, err,
}
use open_clause.Base.Base64
use open_clause.Json.{Json, bool, number, str, arr, obj, nil, cons, end, field}
use open_clause.Types.ToolCall.{RawMessage}
use open_clause.Evidence.Canonical.{marshal}
use open_clause.Gateway.Model.{ExecRequest, ExecResponse}
use open_clause.Http.{Plan, done, send, is_success}
use open_clause.Connectors.Outcome.{
  made, success, failure, read_answer, as_it_came, unsupported, entry,
}

-- `jiraIssueParams`.
pub record IssueParams : Type 0 where
  pub project : Text
  pub summary : Text
  pub description : Text
  pub issue_type : Text

-- `json.Unmarshal` of the parameters, with its error, and the value that a body denotes.
pub record Decoders : Type 0 where
  pub issue_params : RawMessage → Result Text IssueParams
  pub value_of : Text → Json

pub record JiraConnector : Type 0 where
  pub mock : Bool
  pub base_url : Text
  pub email : Text
  pub api_token : Text

mock_issues : Json
mock_issues =
    let issue = λ (id key summary : Text). obj (
      field (text "id") (str id)
        (field (text "key") (str key) (field (text "summary") (str summary) end))) in
    obj (
      field (text "issues")
        (arr (
          cons (issue (text "10001") (text "OPS-1") (text "Mock issue 1"))
            (cons (issue (text "10002") (text "OPS-2") (text "Mock issue 2")) nil)))
        (field (text "mock") (bool true) (field (text "total") (number (text "2")) end)))

mock_issue : IssueParams → Json
mock_issue p = obj (
    field (text "id") (str (text "10001")) (
      field (text "key") (str (p.project ++ text "-42")) (
        field (text "mock") (bool true) (
          field (text "self") (str (text "https://mock.atlassian.net/rest/api/3/issue/10001"))
            end))))

-- One paragraph, as an Atlassian document.
document : Text → Json
document description =
    let words =
      obj (field (text "text") (str description) (field (text "type") (str (text "text")) end)) in
    let paragraph = obj (
      field (text "content") (arr (cons words nil))
        (field (text "type") (str (text "paragraph")) end)) in
    obj (
      field (text "content") (arr (cons paragraph nil))
        (field (text "type") (str (text "doc")) (field (text "version") (number (text "1")) end)))

-- The default issue type.
abbrev issue_type : IssueParams → Text
issue_type p = if is_empty p.issue_type then text "Task" else p.issue_type

unfoldable pub issue_body : IssueParams → Json
unfolding document
issue_body p =
    let fields = field (text "issuetype") (entry (text "name") (str (issue_type p))) (
      field (text "project") (entry (text "key") (str p.project))
        (field (text "summary") (str p.summary) end)) in
    entry (text "fields") (
      obj (
        if is_empty p.description
        then fields
        else field (text "description") (document p.description) fields))

module _ (d : Decoders) (c : JiraConnector) where
  abbrev authorization : Text × Text
  authorization = (
    text "Authorization",
    text "Basic " ++ Base64.encode_std (c.email ++ (text ":" ++ c.api_token)),
  )

  abbrev read : Text → ExecResponse
  read body = success (as_it_came d.value_of body)

  unfoldable pub list_issues : Plan ExecResponse
  unfolding mock_issues
  list_issues =
      if c.mock
      then done (success (made mock_issues))
      else send
          (record {
            method = text "GET";
            url = trim_slashes c.base_url ++ text "/rest/api/3/search?maxResults=20";
            headers = authorization ∷ [];
            body = [];
          })
          (read_answer is_success read)

  unfoldable pub issue_plan : IssueParams → Plan ExecResponse
  unfolding mock_issue
  issue_plan p =
      if is_empty p.project || is_empty p.summary
      then done (failure (text "project and summary are required"))
      else if c.mock
      then done (success (made (mock_issue p)))
      else send
          (record {
            method = text "POST";
            url = trim_slashes c.base_url ++ text "/rest/api/3/issue";
            headers = (text "Content-Type", text "application/json") ∷ authorization ∷ [];
            body = marshal (issue_body p);
          })
          (read_answer is_success read)

  unfoldable pub create_issue : ExecRequest → Plan ExecResponse
  create_issue x = elim (d.issue_params x.params) [
    | err e ↦ done (failure (text "invalid params: " ++ e))
    | ok p ↦ issue_plan p
  ]

  -- `Exec`.
  unfoldable pub exec : ExecRequest → Plan ExecResponse
  exec x =
      let action = x.tool ++ (text "." ++ x.action) in
      if action == text "jira.issue.create"
      then create_issue x
      else if action == text "jira.issue.list"
      then list_issues
      else done (unsupported action)
