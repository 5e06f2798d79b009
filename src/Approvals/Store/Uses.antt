-- ===== src/Approvals/Store/Uses.antt =====
-- Which grant `FindAndConsumeGrant` uses.
use open_clause.Base.{
  ◌-◌, ◌<◌, ◌≡◌, ◌≢◌, ◌⊎◌, inl, inr, Option-cases, Result-cases, refl, sym, ◌∙◌, Bool, true, ◌&&◌,
  Option, none, some, List, [], ◌∷◌, Text, ok, arith, any, select, Faults, text_dec,
}
use mathlib.Core.Path.{subst}
use open_clause.Base.Sort.{order_by-All, any-order_by}
use open_clause.Types.ToolCall.{Time}
use open_clause.Approvals.Model
use open_clause.Approvals.Store.Grants.{
  consume, find_and_consume_grant, consume_grant_tx, first_match, candidates, match_resource,
  is_candidate, star, newer, Wanted,
}
use open_clause.Approvals.Store.Candidates.{
  find_grant-consume, Listed-select, DistinctGrants, find_grant, Listed, first_match-All,
  first_match-any,
}

module _ (path_match : Text → Text → Option Bool) where
  -- What a grant must be to serve a call.
  pub record IsUsable (w : Wanted) (now : Time) (g : Model.ApprovalGrant) : Type 0 where
    pub tenant : g.tenant_id ≡ w.tenant_id
    pub left : 0 < g.uses_left
    pub current : now < g.expires_at
    pub tool : (g.scope.tool ≡ w.tool) ⊎ (g.scope.tool ≡ star)
    pub action : (g.scope.action ≡ w.action) ⊎ (g.scope.action ≡ star)
    pub agent : (g.scope.agent_id ≡ []) ⊎ (g.scope.agent_id ≡ w.agent_id)
    pub resource : match_resource path_match g.scope.resource_pattern w.resource ≡ true

  IsUsable-of_test :
      (w : Wanted) (now : Time) (g : Model.ApprovalGrant)
      → is_candidate w now g ≡ true
      → match_resource path_match g.scope.resource_pattern w.resource ≡ true
      → IsUsable w now g
  unfolding is_candidate
  IsUsable-of_test w now g h k = record {
    tenant = ground arith;
    left = ground arith;
    current = ground arith;
    tool = ground arith;
    action = ground arith;
    agent = ground arith;
    resource = k;
  }

  is_candidate_of_IsUsable :
      (w : Wanted) (now : Time) (g : Model.ApprovalGrant)
      → IsUsable w now g
      → is_candidate w now g ≡ true
  unfolding is_candidate
  is_candidate_of_IsUsable w now g u = ground arith

  -- The grant that a call used, and what is left of the grants.
  pub record IsUsed (w : Wanted) (now : Time) (db db' : Model.Db) (used : Model.ApprovalGrant)
      : Type 0 where
    pub grant : Model.ApprovalGrant
    pub found : find_grant used.id db.grants ≡ some grant
    pub usable : IsUsable w now grant
    pub one_less : used ≡ record grant { uses_left = grant.uses_left - 1 }
    pub stored : find_grant used.id db'.grants ≡ some used
    pub others :
        (j : Text) (g : Model.ApprovalGrant)
        → j ≢ used.id
        → find_grant j db.grants ≡ some g
        → find_grant j db'.grants ≡ some g

  consume_grant_tx-eq-some :
      (f : Faults) (w : Wanted) (now : Time) (db : Model.Db) {g' : Model.ApprovalGrant}
      {db' : Model.Db}
      → consume_grant_tx path_match f w now db ≡ ok (some g', db')
      → (g : Model.ApprovalGrant) × (first_match path_match w.resource
            (candidates path_match w now db.grants)
          ≡ some g)
        × (g' ≡ record g { uses_left = g.uses_left - 1 })
        × (db'.grants ≡ consume g.id db.grants)
  unfolding consume_grant_tx
  consume_grant_tx-eq-some f w now db h =
      elim (Option-cases
        (first_match path_match w.resource (candidates path_match w now db.grants))) [
          | inl e ↦ absurd (ground arith)
          | inr (g, e) ↦ (g, e, ground arith, ground arith)
        ]

  IsUsed-of_match :
      (w : Wanted) (now : Time) (db db' : Model.Db) (g : Model.ApprovalGrant)
      → DistinctGrants db.grants
      → first_match path_match w.resource (candidates path_match w now db.grants) ≡ some g
      → db'.grants ≡ consume g.id db.grants
      → IsUsed w now db db' (record g { uses_left = g.uses_left - 1 })
  unfolding candidates
  IsUsed-of_match w now db db' g d e left =
      let test = is_candidate w now in
      let ((found, passes), matches) =
        first_match-All path_match (Listed db.grants test) w.resource _
          (order_by-All newer (Listed db.grants test) (select test db.grants)
            (Listed-select test db.grants d))
          e in
      record {
        grant = g;
        found = found;
        usable = IsUsable-of_test w now g passes matches;
        one_less = refl;
        stored = rw left (ground (arith, find_grant-consume g.id g.id db.grants {g = g} found));
        others =
            λ j x other h. rw left (ground (arith, find_grant-consume g.id j db.grants {g = x} h));
      }

  -- A grant that `FindAndConsumeGrant` returns stands in the table and is usable for the call: of
  -- its tenant, with a use left, not expired, for its tool, action, agent and resource. It is left
  -- with one use less, and every other grant is as before.
  pub find_and_consume_grant-IsUsed :
      (f : Faults) (w : Wanted) (now : Time) (db : Model.Db) {g' : Model.ApprovalGrant}
      {db' : Model.Db}
      → DistinctGrants db.grants
      → find_and_consume_grant path_match f w now db ≡ (ok (some g'), db')
      → IsUsed w now db db' g'
  unfolding find_and_consume_grant
  find_and_consume_grant-IsUsed f w now db {g'} {db'} d h =
      elim (Result-cases (consume_grant_tx path_match f w now db)) [
        | inr (x, p) ↦ absurd (ground arith)
        | inl (r, p) ↦
            let q : consume_grant_tx path_match f w now db ≡ ok (some g', db') = ground arith in
            let (g, e, less, left) = consume_grant_tx-eq-some f w now db q in
            subst (IsUsed w now db db') (sym less) (IsUsed-of_match w now db db' g d e left)
      ]

  any-select :
      (p q : Model.ApprovalGrant → Bool) (rows : List Model.ApprovalGrant)
      → any q (select p rows) ≡ any (λ g. p g && q g) rows
  any-select p q [] = refl
  any-select p q (x ∷ rows) = ground (arith, any-select p q rows)

  any-find_grant :
      (p : Model.ApprovalGrant → Bool) (id : Text) (rows : List Model.ApprovalGrant)
      {g : Model.ApprovalGrant}
      → find_grant id rows ≡ some g
      → p g ≡ true
      → any p rows ≡ true
  unfolding find_grant
  any-find_grant p id [] h k = absurd (ground arith)
  any-find_grant p id (x ∷ rows) {g} h k = elim (text_dec x.id id) [
    | yes e ↦ let same : x ≡ g = ground arith in ground (arith, rw (← same) at k)
    | no e ↦ ground (arith, any-find_grant p id rows {g = g} (ground arith) k)
  ]

  any-candidates :
      (w : Wanted) (now : Time) (rows : List Model.ApprovalGrant) (id : Text)
      (g : Model.ApprovalGrant)
      → find_grant id rows ≡ some g
      → IsUsable w now g
      → any
          (λ x. match_resource path_match x.scope.resource_pattern w.resource)
          (candidates path_match w now rows)
        ≡ true
  unfolding candidates
  any-candidates w now rows id g found u =
      let c = is_candidate w now in
      let m = λ (x : Model.ApprovalGrant).
        match_resource path_match x.scope.resource_pattern w.resource in
      any-order_by newer m (select c rows)
      ∙ any-select c m rows
      ∙ any-find_grant (λ x. c x && m x) id rows found
          (ground (arith, is_candidate_of_IsUsable w now g u, u.resource))

  -- If any grant in the table is usable for the call, a call in which the driver does not fail
  -- uses a grant: one that does not match the resource hides none that does.
  pub find_and_consume_grant_complete :
      (w : Wanted) (now : Time) (db : Model.Db) (id : Text) (g : Model.ApprovalGrant)
      → find_grant id db.grants ≡ some g
      → IsUsable w now g
      → (used : Model.ApprovalGrant) × (db' : Model.Db) × (find_and_consume_grant path_match
            (λ _. none)
            w
            now
            db
          ≡ (ok (some used), db'))
  unfolding find_and_consume_grant consume_grant_tx
  find_and_consume_grant_complete w now db id g found u =
      elim (Option-cases
        (first_match path_match w.resource (candidates path_match w now db.grants))) [
          | inr (x, e) ↦ (
            record x { uses_left = x.uses_left - 1 },
            record db { grants = consume x.id db.grants },
            rw (e, consume_grant_tx, find_and_consume_grant),
          )
          | inl e ↦ absurd (
              ground (
                arith,
                (first_match-any path_match w.resource (candidates path_match w now db.grants)).0 e,
                any-candidates w now db.grants id g found u,
              ))
        ]
