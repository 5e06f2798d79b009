-- ===== src/Lib.antt =====
-- The services of OpenClause that stand between an AI agent and its tools: the gateway validates a
-- tool call, asks a policy for its decision, runs a connector or asks for an approval, and records
-- all of it in the evidence, a hash chain for each tenant.
--
-- Types: the tool calls, decisions and errors of `pkg/types`. A `time.Time` is its nanoseconds since
--   the zero time, text is its bytes, an `int` is an integer.
-- Json: the values that `encoding/json` decodes, and the quoting of its strings.
-- Evidence.Canonical: `pkg/evidence/canonical.go`, from the decoded value on. Evidence.HashChain:
--   `pkg/evidence/hashchain.go`, with SHA-256 as a parameter. Evidence.Store: `pkg/evidence/store.go`,
--   over the tables of `migrations/001_initial.sql` as lists of rows, with their constraints. An
--   operation takes the failures of the driver, by the number of the call, and returns its result
--   and the tables; the transaction of an operation that fails changes nothing.
-- Approvals.Model and Approvals.Store: `pkg/approvals/types.go` and, in `pkg/approvals/store.go`, the
--   operations on requests, grants and the outbox, in the same way. `path.Match` is a parameter.
-- Gateway.Model, Gateway.Calls, Gateway.ToolCalls and Gateway.Execution: the handlers of
--   `cmd/gateway/main.go`, over the interfaces of the `Gateway` struct as operations on one state,
--   with the calls noted in a list; an early return is the bind of a monad. What a handler reads of
--   the clock and draws as ids is an argument. Gateway.RateLimiter: its `allowRate`, with the
--   limiter of `golang.org/x/time/rate` as a parameter. Gateway.Wired: the handlers on Evidence.Store.
-- Approvals.Notifier, Approvals.Deliveries, Approvals.Webhooks and Approvals.SecretRefs:
--   `pkg/approvals/notifier.go`, the rounds of the dispatcher, the deliveries that it makes, the check
--   of webhook URLs with the signature, and the references to secrets. A delivery to Slack goes to the
--   service in Connectors. Approvals.Authorizer: `pkg/approvals/authorizer.go`.
-- Approvals.Handlers: `pkg/approvals/handlers.go`, with the routes and the middleware of
--   `cmd/approvals/main.go`, over Approvals.Store. A handler reads the tables as they are at its first
--   call of the store and changes them as they are at its second; other operations may run between.
-- Connectors: the registry of `pkg/connectors/registry.go`, through which the gateway calls, and the
--   connectors of `cmd/connector-slack`, `cmd/connector-jira` and `cmd/connector-template`, with the
--   route that serves them. The buttons of a Slack message, made there, come back to
--   Approvals.Handlers.
-- Http: a function that calls another service is a plan: its result, or one request and what it makes
--   of the answer. What answers is a parameter; the plans of two parts are put together by it. Its
--   answer is the one that `Do` gives, after redirects; Http.Redirects has the requests that a client
--   sends as it follows them, with how a `Location` is resolved and which headers are kept as
--   parameters.
-- Sdk: `pkg/sdk/client/client.go`, the client of the gateway. Config: `pkg/config/env.go`.
-- Archiver: `ArchiveTenant` of `pkg/archiver/archiver.go` over the evidence store, and the run of
--   `cmd/archiver/main.go`.
-- Auth: `pkg/auth`. Policy: `pkg/policy/client.go`, with what the HTTP call gives as an argument.
-- Base: the helpers that these share. Tests: runs on small inputs.
--
-- The loops are recursions on lists, and the polling of `HandleExecuteToolCall` counts down from
-- `executePollCount`. Only the printing of a number runs on fuel, one more than the number, which has
-- fewer digits than that; the loop of `WaitForApprovalThenExecute` runs over a list of events.
--
-- Transactions of one tenant follow one another, as the advisory lock makes them; what the SQL of two
-- transactions does concurrently is not modelled. Nor are logging, tracing, the encoding of the
-- gateway's responses, the start of the services, their timers and timeouts, the HTML template of
-- `cmd/approvals/main.go` and `pkg/otel`. What is decoded of JSON, forms, URLs and addresses, and
-- HMAC and SHA-256, are parameters.
pub mod Base
pub mod Json
pub mod Http
pub mod Connectors
pub mod Sdk
pub mod Config
pub mod Types
pub mod Evidence
pub mod Approvals
pub mod Archiver
pub mod Auth
pub mod Policy
pub mod Gateway
mod Tests
