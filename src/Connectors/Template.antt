-- ===== src/Connectors/Template.antt =====
-- `cmd/connector-template/main.go`: the connector that others start from.
use open_clause.Base.{true, text}
use open_clause.Json.{bool, str, obj, end, field}
use open_clause.Gateway.Model.{ExecRequest, ExecResponse}
use open_clause.Http.{Plan, done}
use open_clause.Connectors.Outcome.{made, success}

-- `Exec`, which says what it was asked for.
unfoldable pub exec : ExecRequest → Plan ExecResponse
exec x = done (
    success (
      made (
        obj (
          field (text "action") (str x.action) (
            field (text "mock") (bool true)
              (field (text "resource") (str x.resource) (field (text "tool") (str x.tool) end)))))))
