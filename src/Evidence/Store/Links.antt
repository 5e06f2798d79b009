-- ===== src/Evidence/Store/Links.antt =====
-- Of the executions of one approved event, the first to be linked is the one that counts.
use open_clause.Base.{
  ◌≡◌, ◌⊎◌, inl, inr, Option-cases, true, false, none, some, List, [], ◌∷◌, ◌++◌, Text, text, ok,
  err, arith, Faults,
}
use open_clause.Evidence.Store.Tables.{ExecutionRow, Db, has_parent, insert_execution}
use open_clause.Evidence.Store.Later.{Later, Later-Keeps}
use open_clause.Evidence.Store.Write.{Codec, link_execution_to_parent}
use open_clause.Evidence.Store.Read.{find_parent}

abbrev pub link_row : Text → Text → Text → ExecutionRow
link_row parent execution grant = record {
  parent_event_id = parent;
  execution_event_id = execution;
  consumed_grant_id = grant;
}

find_parent-append :
    (p : Text) (rows : List ExecutionRow) (x : ExecutionRow)
    → has_parent p rows ≡ false
    → x.parent_event_id ≡ p
    → (find_parent p (rows ++ (x ∷ [])) ≡ some x) × (has_parent p (rows ++ (x ∷ [])) ≡ true)
unfolding find_parent has_parent
find_parent-append p [] x h e = ground arith
find_parent-append p (y ∷ rows) x h e = ground (arith, find_parent-append p rows x)

has_parent-found :
    (p : Text) (rows : List ExecutionRow) {x : ExecutionRow}
    → find_parent p rows ≡ some x
    → has_parent p rows ≡ true
unfolding find_parent has_parent
has_parent-found p [] {x} h = absurd (ground arith)
has_parent-found p (y ∷ rows) {x} h = ground (arith, has_parent-found p rows {x = x})

-- After a call that made the link, and any operations of the store that follow, with any failures,
-- the parent's execution is the one that it linked; and a call for that parent, with another
-- execution or grant, reports that it made no link, or the failure of its statement if that fails,
-- and changes nothing.
pub link_execution_to_parent_once :
    (sha256 : Text → Text) (codec : Codec) (f : Faults) (parent execution grant : Text) (db : Db)
    {db' db'' : Db}
    → link_execution_to_parent f parent execution grant db ≡ (ok true, db')
    → Later sha256 codec db' db''
    → (find_parent parent db''.executions ≡ some (link_row parent execution grant))
      × ((g : Faults) (execution' grant' : Text)
          → let again = link_execution_to_parent g parent execution' grant' db'' in
            ((g 0 ≡ none) × (again ≡ (ok false, db'')))
            ⊎ ((e : Text) × (g 0 ≡ some e)
                × (again ≡ (err (text "evidence.LinkExecutionToParent: " ++ e), db''))))
unfolding link_execution_to_parent insert_execution
link_execution_to_parent_once sha256 codec f parent execution grant db {db'} {db''} h later =
    let row = link_row parent execution grant in
    let first : find_parent parent db'.executions ≡ some row =
      ground (arith, find_parent-append parent db.executions row) in
    let found = (Later-Keeps sha256 codec later).executions parent row first in
    (
      found,
      λ g x y. elim (Option-cases (g 0)) [
        | inl p ↦ inl (p, ground (arith, has_parent-found parent db''.executions found))
        | inr (e, p) ↦ inr (e, p, ground arith)
      ],
    )
