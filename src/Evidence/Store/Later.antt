-- ===== src/Evidence/Store/Later.antt =====
-- What stays in the evidence tables, whatever operations run afterwards.
use open_clause.Base.{
  ℕ, ◌≡◌, ◌⊎◌, inl, inr, Bool-cases, Option-cases, Result-cases, some, List, [], ◌∷◌, ◌++◌, Text,
  arith, Faults, ◌||◌, ◌&&◌,
}
use open_clause.Types.ToolCall.{Time}
use open_clause.Types.Policy.{ToolCallEnvelope}
use open_clause.Evidence.Store.Tables.{
  EventRow, ExecutionRow, Db, insert_execution, has_parent, has_execution, has_event, has_tenant,
}
use open_clause.Evidence.Store.Write.{
  Codec, record_event, record_event_tx, link_execution_to_parent, event_row,
}
use open_clause.Evidence.Store.Read.{find_key, find_parent, upsert_archive_checkpoint}
use open_clause.Evidence.Store.Appended.{record_event_tx-IsAppended}

-- The tables after any operations of the store that change them, with any arguments and failures.
pub data Later (sha256 : Text → Text) (codec : Codec) (db : Db) : Db → Type 0 where
  here : Later sha256 codec db db
  recorded :
      {db1 : Db} (f : Faults) (env : ToolCallEnvelope)
      → Later sha256 codec db db1
      → Later sha256 codec db (record_event sha256 codec f env db1).1
  linked :
      {db1 : Db} (f : Faults) (parent execution grant : Text)
      → Later sha256 codec db db1
      → Later sha256 codec db (link_execution_to_parent f parent execution grant db1).1
  archived :
      {db1 : Db} (f : Faults) (tenant : Text) (at : Time) (hash : Text) (seq : ℕ)
      → Later sha256 codec db db1
      → Later sha256 codec db (upsert_archive_checkpoint f tenant at hash seq db1).1

find_key-kept :
    (t k : Text) (rows : List EventRow) (x : EventRow) {r : EventRow}
    → find_key t k rows ≡ some r
    → find_key t k (rows ++ (x ∷ [])) ≡ some r
unfolding find_key
find_key-kept t k [] x {r} h = absurd (ground arith)
find_key-kept t k (y ∷ rows) x {r} h = ground (arith, find_key-kept t k rows x {r = r})

find_parent-kept :
    (p : Text) (rows : List ExecutionRow) (x : ExecutionRow) {r : ExecutionRow}
    → find_parent p rows ≡ some r
    → find_parent p (rows ++ (x ∷ [])) ≡ some r
unfolding find_parent
find_parent-kept p [] x {r} h = absurd (ground arith)
find_parent-kept p (y ∷ rows) x {r} h = ground (arith, find_parent-kept p rows x {r = r})

-- An operation leaves the events and the executions as they are or adds one row.
abbrev Adds : Db → Db → Type 0
Adds db db' =
    ((db'.events ≡ db.events) ⊎ ((r : EventRow) × (db'.events ≡ db.events ++ (r ∷ []))))
    × ((db'.executions ≡ db.executions)
        ⊎ ((x : ExecutionRow) × (db'.executions ≡ db.executions ++ (x ∷ []))))

record_event-Adds :
    (sha256 : Text → Text) (codec : Codec) (f : Faults) (env : ToolCallEnvelope) (db : Db)
    → Adds db (record_event sha256 codec f env db).1
unfolding record_event
record_event-Adds sha256 codec f env db =
    elim (Result-cases (record_event_tx sha256 codec f env db)) [
      | inr (e, p) ↦ (inl (ground arith), inl (ground arith))
      | inl ((env', db'), p) ↦
          let a = record_event_tx-IsAppended sha256 codec f env db p in
          let row : EventRow = record (event_row env env'.payload_canon env'.hash env'.prev_hash) {
            event_seq = db.next_seq;
          } in
          (inr (row, ground (arith, a.events)), inl (ground (arith, a.executions)))
    ]

link-Adds :
    (f : Faults) (parent execution grant : Text) (db : Db)
    → Adds db (link_execution_to_parent f parent execution grant db).1
unfolding link_execution_to_parent insert_execution
link-Adds f parent execution grant db =
    let row : ExecutionRow = record {
      parent_event_id = parent;
      execution_event_id = execution;
      consumed_grant_id = grant;
    } in
    elim (Option-cases (f 0)) [
      | inr (e, p) ↦ (inl (ground arith), inl (ground arith))
      | inl p ↦
          elim (Bool-cases
            (has_parent parent db.executions || has_execution execution db.executions)) [
              | inl h ↦ (inl (ground arith), inl (ground arith))
              | inr h ↦
                  elim (Bool-cases (has_event parent db.events && has_event execution db.events)) [
                    | inl k ↦ (inl (ground arith), inr (row, ground arith))
                    | inr k ↦ (inl (ground arith), inl (ground arith))
                  ]
            ]
    ]

archive-Adds :
    (f : Faults) (tenant : Text) (at : Time) (hash : Text) (seq : ℕ) (db : Db)
    → Adds db (upsert_archive_checkpoint f tenant at hash seq db).1
unfolding upsert_archive_checkpoint
archive-Adds f tenant at hash seq db = elim (Option-cases (f 0)) [
  | inr (e, p) ↦ (inl (ground arith), inl (ground arith))
  | inl p ↦ elim (Bool-cases (has_tenant tenant db.tenants)) [
    | inl h ↦ (inl (ground arith), inl (ground arith))
    | inr h ↦ (inl (ground arith), inl (ground arith))
  ]
]

-- A row that is found by its tenant and key, or by its parent, is found after an operation.
pub record Keeps (db db' : Db) : Type 0 where
  pub events :
      (t k : Text) (r : EventRow)
      → find_key t k db.events ≡ some r
      → find_key t k db'.events ≡ some r
  pub executions :
      (p : Text) (x : ExecutionRow)
      → find_parent p db.executions ≡ some x
      → find_parent p db'.executions ≡ some x

-- An operation after those that kept the rows.
Keeps-then : {db db1 : Db} (db2 : Db) → Keeps db db1 → Adds db1 db2 → Keeps db db2
Keeps-then {db} {db1} db2 kept (a, b) = record {
  events = λ t k r h. elim a [
    | inl e ↦ rw e (kept.events t k r h)
    | inr (x, e) ↦ rw e (find_key-kept t k db1.events x (kept.events t k r h))
  ];
  executions = λ p y h. elim b [
    | inl e ↦ rw e (kept.executions p y h)
    | inr (x, e) ↦ rw e (find_parent-kept p db1.executions x (kept.executions p y h))
  ];
}

pub Later-Keeps :
    (sha256 : Text → Text) (codec : Codec) {db db' : Db} → Later sha256 codec db db' → Keeps db db'
Later-Keeps sha256 codec here = record { events = λ t k r h. h; executions = λ p x h. h }
Later-Keeps sha256 codec (recorded {db1} f env l) =
    Keeps-then _ (Later-Keeps sha256 codec l) (record_event-Adds sha256 codec f env db1)
Later-Keeps sha256 codec (linked {db1} f parent execution grant l) =
    Keeps-then _ (Later-Keeps sha256 codec l) (link-Adds f parent execution grant db1)
Later-Keeps sha256 codec (archived {db1} f tenant at hash seq l) =
    Keeps-then _ (Later-Keeps sha256 codec l) (archive-Adds f tenant at hash seq db1)
