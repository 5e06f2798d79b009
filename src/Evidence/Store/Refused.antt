-- ===== src/Evidence/Store/Refused.antt =====
-- The query of `GetEvent` on the tables of `migrations/001_initial.sql`.
use open_clause.Base.{◌≡◌, refl, inl, inr, Text, text, ◌++◌, text_dec, Faults, err, Option-cases}
use open_clause.Evidence.Store.Tables.{Db}
use open_clause.Evidence.Store.Read.{get_event, ambiguous}

-- `GetEvent` answers every id with an error, whether or not the event is in the tables: the columns
-- that its query selects without the name of a table are in both of the tables that it joins.
pub get_event-err : (f : Faults) (id : Text) (db : Db) → (e : Text) × (get_event f id db ≡ err e)
unfolding get_event ambiguous text text_dec
get_event-err f id db = elim (Option-cases (f 0)) [
  | inl h ↦ (
    text "evidence.GetEvent: column reference is ambiguous: " ++ text "event_id",
    rw (h, get_event) refl,
  )
  | inr (e, h) ↦ (text "evidence.GetEvent: " ++ e, rw (h, get_event) refl)
]
