-- ===== src/Evidence/Store/Read/Finds.antt =====
-- The rows of the evidence tables by their keys.
use open_clause.Base.{Option, none, some, List, [], ◌∷◌, Text, ◌==◌, ◌&&◌, if◌then◌else◌}
use open_clause.Evidence.Store.Tables.{EventRow, ResultRow, ExecutionRow, CheckpointRow}

-- The row of a result, which `LEFT JOIN tool_results` adds.
unfoldable pub join_result : Text → List ResultRow → Option ResultRow
join_result id [] = none
join_result id (r ∷ rows) = if r.event_id == id then some r else join_result id rows

unfoldable pub find_key : Text → Text → List EventRow → Option EventRow
find_key tenant key [] = none
find_key tenant key (r ∷ rows) =
    if r.tenant_id == tenant && r.idempotency_key == key then some r else find_key tenant key rows

unfoldable pub find_event : Text → List EventRow → Option EventRow
find_event id [] = none
find_event id (r ∷ rows) = if r.event_id == id then some r else find_event id rows

unfoldable pub find_parent : Text → List ExecutionRow → Option ExecutionRow
find_parent id [] = none
find_parent id (x ∷ rows) = if x.parent_event_id == id then some x else find_parent id rows

unfoldable pub find_checkpoint : Text → List CheckpointRow → Option CheckpointRow
find_checkpoint tenant [] = none
find_checkpoint tenant (c ∷ rows) =
    if c.tenant_id == tenant then some c else find_checkpoint tenant rows
