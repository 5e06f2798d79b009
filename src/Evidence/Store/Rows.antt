-- ===== src/Evidence/Store/Rows.antt =====
-- Lemmas on the rows that the queries of the store read.
use open_clause.Base.{
  ℕ, ◌+◌, ◌<◌, ◌≡◌, ◌≢◌, ◌||◌, refl, false, none, some, List, [], ◌∷◌, ◌++◌, Text, ◌==◌, arith, All,
}
use open_clause.Evidence.HashChain.Verify.{last_hash}
use open_clause.Evidence.Store.Tables.{EventRow, ResultRow, has_event, has_result}
use open_clause.Evidence.Store.Write.{last_hash_tx}
use open_clause.Evidence.Store.Read.{window, join_result, chain_event}

pub window-append :
    (t : Text) (n : ℕ) (results : List ResultRow) (xs ys : List EventRow)
    → window t n results (xs ++ ys) ≡ window t n results xs ++ window t n results ys
unfolding window
window-append t n results [] ys = refl
window-append t n results (x ∷ xs) ys = ground (arith, window-append t n results xs ys)

pub join_result-append :
    (id : Text) (xs : List ResultRow) (r : ResultRow)
    → r.event_id ≢ id
    → join_result id (xs ++ (r ∷ [])) ≡ join_result id xs
unfolding join_result
join_result-append id [] r h = ground arith
join_result-append id (x ∷ xs) r h = ground (arith, join_result-append id xs r h)

-- A new result of an event that is not among the rows changes nothing that the rows show.
pub window-append_result :
    (t : Text) (n : ℕ) (results : List ResultRow) (r : ResultRow) (xs : List EventRow)
    → has_event r.event_id xs ≡ false
    → window t n (results ++ (r ∷ [])) xs ≡ window t n results xs
unfolding window has_event chain_event
window-append_result t n results r [] h = refl
window-append_result t n results r (x ∷ xs) h =
    ground (arith, window-append_result t n results r xs, join_result-append x.event_id results r)

-- The transaction reads the last hash of the tenant's chain.
pub last_hash_tx-window :
    (t prev : Text) (results : List ResultRow) (rows : List EventRow)
    → All (λ r. 0 < r.event_seq) rows
    → last_hash_tx t prev rows ≡ last_hash prev (window t 0 results rows)
unfolding window last_hash_tx chain_event
last_hash_tx-window t prev results [] h = refl
last_hash_tx-window t prev results (r ∷ rows) h = ground (
  arith,
  last_hash_tx-window t prev results rows h.1,
  last_hash_tx-window t r.hash results rows h.1,
)

pub join_result_absent :
    (id : Text) (rows : List ResultRow) → has_result id rows ≡ false → join_result id rows ≡ none
unfolding join_result has_result
join_result_absent id [] h = refl
join_result_absent id (x ∷ rows) h = ground (arith, join_result_absent id rows)

pub join_result_appended :
    (rows : List ResultRow) (r : ResultRow)
    → has_result r.event_id rows ≡ false
    → join_result r.event_id (rows ++ (r ∷ [])) ≡ some r
unfolding join_result has_result
join_result_appended [] r h = ground arith
join_result_appended (x ∷ rows) r h = ground (arith, join_result_appended rows r)

pub has_result-append :
    (id : Text) (rows : List ResultRow) (r : ResultRow)
    → has_result id (rows ++ (r ∷ [])) ≡ (has_result id rows || r.event_id == id)
unfolding has_result
has_result-append id [] r = ground arith
has_result-append id (x ∷ rows) r = ground (arith, has_result-append id rows r)

pub has_event-append :
    (id : Text) (rows : List EventRow) (r : EventRow)
    → has_event id (rows ++ (r ∷ [])) ≡ (has_event id rows || r.event_id == id)
unfolding has_event
has_event-append id [] r = ground arith
has_event-append id (x ∷ rows) r = ground (arith, has_event-append id rows r)

pub All-weaken :
    (n : ℕ) (rows : List EventRow)
    → All (λ r. (0 < r.event_seq) × (r.event_seq < n)) rows
    → All (λ r. 0 < r.event_seq) rows
All-weaken n [] h = tt
All-weaken n (r ∷ rows) h = (h.0.0, All-weaken n rows h.1)

pub All-suc :
    (n : ℕ) (rows : List EventRow)
    → All (λ r. (0 < r.event_seq) × (r.event_seq < n)) rows
    → All (λ r. (0 < r.event_seq) × (r.event_seq < n + 1)) rows
All-suc n [] h = tt
All-suc n (r ∷ rows) h = (omega (arith, h.0), All-suc n rows h.1)
