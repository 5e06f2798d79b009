-- ===== src/Connectors/Statuses.antt =====
-- The statuses that the connectors give.
use open_clause.Base.{
  ℕ, ◌≡◌, ◌⊎◌, inl, inr, refl, Bool-cases, Option, Bool, true, false, none, some, ◌++◌, Text, text,
  text_dec, if◌then◌else◌, Result, ok, err, arith,
}
use open_clause.Base.Dict
use open_clause.Types.ToolCall.{RawMessage}
use open_clause.Evidence.Store.Tables.{is_status}
use open_clause.Gateway.Model.{ExecRequest, ExecResponse}
use open_clause.Gateway.ToolCalls.{execution_result}
use open_clause.Http.{
  HttpRequest, Answer, not_made, not_sent, broken, answered, Plan, done, send, run, limited,
}
use open_clause.Connectors.{Codec, Registry, exec}
use open_clause.Connectors.Outcome.{success, failure, read_answer}
use open_clause.Connectors.Slack
use open_clause.Connectors.Jira
use open_clause.Connectors.Serve.{ServerCodec, service}
use open_clause.Connectors.Remote.{Agree, exec-service}

-- The connectors that are deployed, each with its decoders, and Slack with the time.
pub data Deployed : Type 0 where
  slack : Slack.Decoders → Slack.SlackConnector → ℕ → Deployed
  jira : Jira.Decoders → Jira.JiraConnector → Deployed

abbrev pub connector : Deployed → ExecRequest → Plan ExecResponse
connector (slack d c now) = Slack.exec d c now
connector (jira d c) = Jira.exec d c

-- Success, or an error.
abbrev Reports : ExecResponse → Type 0
Reports y = (y.status ≡ text "success") ⊎ (y.status ≡ text "error")

read_answer-Reports :
    (accepts : ℕ → Bool) (read : Text → ExecResponse) (a : Answer)
    → ((body : Text) → Reports (read body))
    → Reports (read_answer accepts read a)
unfolding read_answer
read_answer-Reports accepts read (not_made e) h = inr refl
read_answer-Reports accepts read (not_sent e) h = inr refl
read_answer-Reports accepts read (broken code e) h = inr refl
read_answer-Reports accepts read (answered code body) h = elim (Bool-cases (accepts code)) [
  | inl p ↦ rw p (h (limited body))
  | inr p ↦ rw p (inr refl)
]

-- A plan that reports, whatever the answer to its request is.
data IsReporting : Plan ExecResponse → Type 0 where
  finished : {y : ExecResponse} → Reports y → IsReporting (done y)
  asked :
      {q : HttpRequest} {k : Answer → ExecResponse}
      → ((a : Answer) → Reports (k a))
      → IsReporting (send q k)

run-Reports :
    (world : HttpRequest → Answer) (p : Plan ExecResponse) → IsReporting p → Reports (run world p)
unfolding run
run-Reports world (done y) (finished h) = h
run-Reports world (send q k) (asked h) = h (world q)

if-IsReporting :
    (b : Bool) {p q : Plan ExecResponse}
    → IsReporting p
    → IsReporting q
    → IsReporting (if b then p else q)
if-IsReporting true hp hq = hp
if-IsReporting false hp hq = hq

read-IsReporting :
    {q : HttpRequest} (accepts : ℕ → Bool) (read : Text → ExecResponse)
    → ((body : Text) → Reports (read body))
    → IsReporting (send q (read_answer accepts read))
read-IsReporting accepts read h = asked (λ a. read_answer-Reports accepts read a h)

success-Reports : (output : RawMessage) → Reports (success output)
success-Reports output = inl refl

failure-Reports : (e : Text) → Reports (failure e)
failure-Reports e = inr refl

ruleset reporting = (if-IsReporting, read-IsReporting, finished, success-Reports, failure-Reports)

-- What an action does once its parameters are read.
either-IsReporting :
    {A : Type 0} (r : Result Text A) {failed : Text → Plan ExecResponse}
    {plan : A → Plan ExecResponse}
    → ((e : Text) → IsReporting (failed e))
    → ((y : A) → IsReporting (plan y))
    → IsReporting (elim r [ err e ↦ failed e | ok y ↦ plan y ])
either-IsReporting (ok y) hf hp = hp y
either-IsReporting (err e) hf hp = hf e

module _ (d : Slack.Decoders) (c : Slack.SlackConnector) where
  list_channels-IsReporting : IsReporting (Slack.list_channels d c)
  unfolding Slack.list_channels
  list_channels-IsReporting = search reporting

  approval_plan-IsReporting :
      (p : Slack.ApprovalMessageParams) → IsReporting (Slack.approval_plan d c p)
  unfolding Slack.approval_plan
  approval_plan-IsReporting p = search reporting

  read_reply-Reports :
      (body : Text) (reply : Option (Bool × Text))
      → Reports (Slack.read_reply body d.value_of reply)
  unfolding Slack.read_reply
  read_reply-Reports body none = inr refl
  read_reply-Reports body (some (true, e)) = inl refl
  read_reply-Reports body (some (false, e)) = inr refl

  message_plan-IsReporting :
      (now : ℕ) (p : Slack.MsgParams) → IsReporting (Slack.message_plan d c now p)
  unfolding Slack.message_plan
  message_plan-IsReporting now p = search (reporting, read_reply-Reports)

  post_message-IsReporting :
      (now : ℕ) (x : ExecRequest) → IsReporting (Slack.post_message d c now x)
  unfolding Slack.post_message
  post_message-IsReporting now x =
      either-IsReporting (d.msg_params x.params)
        (λ e. finished (failure-Reports (text "invalid params: " ++ e)))
        (message_plan-IsReporting now)

  post_approval-IsReporting : (x : ExecRequest) → IsReporting (Slack.post_approval_message d c x)
  unfolding Slack.post_approval_message
  post_approval-IsReporting x =
      either-IsReporting (d.approval_params x.params)
        (λ e. finished (failure-Reports (text "invalid params: " ++ e))) approval_plan-IsReporting

  slack-IsReporting : (now : ℕ) (x : ExecRequest) → IsReporting (Slack.exec d c now x)
  unfolding Slack.exec
  slack-IsReporting now x =
      search
        (reporting, post_message-IsReporting, list_channels-IsReporting, post_approval-IsReporting)

module _ (d : Jira.Decoders) (c : Jira.JiraConnector) where
  issue_plan-IsReporting : (p : Jira.IssueParams) → IsReporting (Jira.issue_plan d c p)
  unfolding Jira.issue_plan
  issue_plan-IsReporting p = search reporting

  create_issue-IsReporting : (x : ExecRequest) → IsReporting (Jira.create_issue d c x)
  unfolding Jira.create_issue
  create_issue-IsReporting x =
      either-IsReporting (d.issue_params x.params)
        (λ e. finished (failure-Reports (text "invalid params: " ++ e))) issue_plan-IsReporting

  list_issues-IsReporting : IsReporting (Jira.list_issues d c)
  unfolding Jira.list_issues
  list_issues-IsReporting = search reporting

  jira-IsReporting : (x : ExecRequest) → IsReporting (Jira.exec d c x)
  unfolding Jira.exec
  jira-IsReporting x = search (reporting, create_issue-IsReporting, list_issues-IsReporting)

connector-Reports :
    (world : HttpRequest → Answer) (k : Deployed) (x : ExecRequest)
    → Reports (run world (connector k x))
connector-Reports world (slack d c now) x =
    run-Reports world (Slack.exec d c now x) (slack-IsReporting d c now x)
connector-Reports world (jira d c) x = run-Reports world (Jira.exec d c x) (jira-IsReporting d c x)

-- Whatever the Slack or the Jira connector is asked for and whatever the services that it calls
-- answer, the result that the gateway makes of a call through the registry, with the right token
-- or a wrong one, has a status that the table of the results accepts, if the two ends agree on how
-- the request and its outcome are written.
pub exec-is_status :
    (k : Deployed) (c : Codec) (s : ServerCodec) (r : Registry) (token : Text)
    (world : HttpRequest → Answer) (x : ExecRequest) (base_url : Text) (ms : ℕ)
    → Dict.lookup x.tool r.routes ≡ some base_url
    → Agree c s x (run world (connector k x))
    → is_status
        (execution_result ms (run (service s token (connector k) world) (exec c r x))).status
      ≡ true
unfolding execution_result is_status
exec-is_status k c s r token world x base_url ms route a =
    let e = exec-service c s r token (connector k) world x base_url a route in
    elim (text_dec r.internal_token token) [
      | yes p ↦ rw e (ground (arith, connector-Reports world k x))
      | no n ↦ rw e (ground arith)
    ]
