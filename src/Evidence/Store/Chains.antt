-- ===== src/Evidence/Store/Chains.antt =====
-- `RecordEvent` keeps the chain of every tenant verifiable.
use open_clause.Base.{
  ◌<◌, ◌≡◌, inl, inr, Bool-cases, Option-cases, Result-cases, ap, ◌∙◌, true, false, [], ◌∷◌, ◌++◌,
  Text, arith, All, All-append, Faults,
}
use open_clause.Types.Policy.{ToolCallEnvelope}
use open_clause.Evidence.HashChain.Verify.{last_hash, IsChain, IsChain-append}
use open_clause.Evidence.Store.Tables.{EventRow, Db, has_event, has_result}
use open_clause.Evidence.Store.Write.{
  Codec, canonical_result, record_event_tx, record_event, event_row, result_row,
}
use open_clause.Evidence.Store.Read.{window, chain_event}
use open_clause.Evidence.Store.Rows.{
  window-append, window-append_result, last_hash_tx-window, join_result_absent,
  join_result_appended, has_result-append, has_event-append, All-weaken, All-suc,
}
use open_clause.Evidence.Store.Appended.{IsAppended, record_event_tx-IsAppended, results_after}

module _ (sha256 : Text → Text) (codec : Codec) where
  -- The chain of every tenant verifies from the start, each result belongs to an event, and the
  -- sequence numbers of the events are those that were handed out.
  pub record IsConsistent (db : Db) : Type 0 where
    pub chains : (t : Text) → IsChain sha256 [] (window t 0 db.results db.events)
    pub known : (id : Text) → has_result id db.results ≡ true → has_event id db.events ≡ true
    pub numbered : All (λ r. (0 < r.event_seq) × (r.event_seq < db.next_seq)) db.events
    pub started : 0 < db.next_seq

  module _ (env env' : ToolCallEnvelope) (db db' : Db) (a : IsAppended sha256 codec env env' db db')
      (c : IsConsistent db) where
    abbrev added : EventRow
    added = record (event_row env env'.payload_canon env'.hash env'.prev_hash) {
      event_seq = db.next_seq;
    }

    no_result : has_result env.event_id db.results ≡ false
    no_result = elim (Bool-cases (has_result env.event_id db.results)) [
      | inr e ↦ e
      | inl e ↦ absurd (ground (arith, c.known env.event_id e, a.fresh))
    ]

    joined : (chain_event db'.results added).canon_result ≡ a.canon
    unfolding chain_event results_after canonical_result
    joined = elim (Option-cases env.execution_result) [
      | inl e ↦
          ground
            (arith, e, a.results, a.encoded, join_result_absent env.event_id db.results no_result)
      | inr (r, e) ↦ ground (
        arith,
        e,
        a.results,
        join_result_appended db.results (result_row env r a.canon) no_result,
      )
    ]

    old_rows : (t : Text) → window t 0 db'.results db.events ≡ window t 0 db.results db.events
    unfolding results_after
    old_rows t = elim (Option-cases env.execution_result) [
      | inl e ↦ ground (arith, e, a.results)
      | inr (r, e) ↦ ground (
        arith,
        e,
        a.results,
        window-append_result t 0 db.results (result_row env r a.canon) db.events a.fresh,
      )
    ]

    new_window :
        (t : Text)
        → window t 0 db'.results db'.events
          ≡ window t 0 db.results db.events ++ window t 0 db'.results (added ∷ [])
    new_window t =
        ap (window t 0 db'.results) a.events
        ∙ window-append t 0 db'.results db.events (added ∷ [])
        ∙ ap (λ w. w ++ window t 0 db'.results (added ∷ [])) (old_rows t)

    added-IsChain :
        (t : Text)
        → IsChain sha256
            (last_hash [] (window t 0 db.results db.events))
            (window t 0 db'.results (added ∷ []))
    unfolding window chain_event
    added-IsChain t = ground (
      arith,
      joined,
      a.prev_hash,
      a.hash,
      c.started,
      last_hash_tx-window t [] db.results db.events (All-weaken db.next_seq db.events c.numbered),
    )

    known_after : (id : Text) → has_result id db'.results ≡ true → has_event id db'.events ≡ true
    unfolding results_after
    known_after id h = elim (Option-cases env.execution_result) [
      | inl e ↦
          ground (arith, e, h, a.results, a.events, c.known id, has_event-append id db.events added)
      | inr (r, e) ↦ ground (
        arith,
        e,
        h,
        a.results,
        a.events,
        c.known id,
        has_event-append id db.events added,
        has_result-append id db.results (result_row env r a.canon),
      )
    ]

    IsConsistent-after : IsConsistent db'
    IsConsistent-after = record {
      chains = λ t. rw (new_window t) (
          IsChain-append sha256 [] (window t 0 db.results db.events) _ (c.chains t)
            (added-IsChain t));
      known = known_after;
      numbered =
          rw (a.events, a.next_seq)
            (All-append _ db.events (added ∷ []) (All-suc db.next_seq db.events c.numbered)
              (omega (arith, c.started)));
      started = omega (arith, a.next_seq);
    }

  -- `RecordEvent` keeps the tables consistent, whatever fails in it: afterwards the chain of every
  -- tenant verifies from the start.
  pub record_event-IsConsistent :
      (f : Faults) (env : ToolCallEnvelope) (db : Db)
      → IsConsistent db
      → IsConsistent (record_event sha256 codec f env db).1
  unfolding record_event
  record_event-IsConsistent f env db c =
      elim (Result-cases (record_event_tx sha256 codec f env db)) [
        | inr (e, p) ↦ rw (p, record_event) c
        | inl (r, p) ↦
            rw (p, record_event)
              (IsConsistent-after env r.0 db r.1
                (record_event_tx-IsAppended sha256 codec f env db p) c)
      ]
