-- ===== src/Gateway/Wired.antt =====
-- The services of the gateway's handlers on the modelled evidence store, as `main` of
-- `cmd/gateway/main.go` wires them; the policy, the connectors, the approvals and the rate limit keep
-- a state of their own.
pub mod Replay
use open_clause.Base.{Option, Text, Bool, Result, Faults}
use open_clause.Types.ToolCall.{ToolCallRequest}
use open_clause.Types.Policy.{PolicyResult}
use open_clause.Approvals.Model.{CreateApprovalInput, ApprovalRequest, ApprovalGrant}
use open_clause.Approvals.Store.Grants.{Wanted}
use open_clause.Evidence.Store.Tables.{Db}
use open_clause.Evidence.Store.Write as EvidenceWrite
use open_clause.Evidence.Store.Read as EvidenceRead
use open_clause.Gateway.Model.{Services, PolicyInput, ExecRequest, ExecResponse}

-- The rest of the services, and the failures of the database driver that their state holds.
pub record Rest : Type 1 where
  pub State : Type 0
  pub faults : State → Faults
  pub evaluate : PolicyInput → State → Result Text PolicyResult × State
  pub exec : ExecRequest → State → Result Text ExecResponse × State
  pub create_request : CreateApprovalInput → State → Result Text ApprovalRequest × State
  pub find_and_consume_grant : Wanted → State → Result Text (Option ApprovalGrant) × State
  pub allow_rate : Text → State → Bool × State
  pub marshal : ToolCallRequest → Option Text

abbrev pub wired : (Text → Text) → EvidenceWrite.Codec → Rest → Services
wired sha256 codec o = record {
  State = Db × o.State;
  record_event = λ env st.
      let (r, db) = EvidenceWrite.record_event sha256 codec (o.faults st.1) env st.0 in
      (r, (db, st.1));
  check_idempotency = λ t k st. (EvidenceRead.check_idempotency (o.faults st.1) t k st.0, st);
  get_event = λ id st. (EvidenceRead.get_event (o.faults st.1) id st.0, st);
  get_execution_by_parent_event =
      λ id st. (EvidenceRead.get_execution_by_parent_event (o.faults st.1) id st.0, st);
  link_execution_to_parent = λ parent execution grant st.
      let (r, db) =
        EvidenceWrite.link_execution_to_parent (o.faults st.1) parent execution grant st.0 in
      (r, (db, st.1));
  evaluate = λ input st. let (r, s) = o.evaluate input st.1 in (r, (st.0, s));
  exec = λ x st. let (r, s) = o.exec x st.1 in (r, (st.0, s));
  create_request = λ input st. let (r, s) = o.create_request input st.1 in (r, (st.0, s));
  find_and_consume_grant = λ x st. let (r, s) = o.find_and_consume_grant x st.1 in (r, (st.0, s));
  allow_rate = λ t st. let (r, s) = o.allow_rate t st.1 in (r, (st.0, s));
  marshal = o.marshal;
}
