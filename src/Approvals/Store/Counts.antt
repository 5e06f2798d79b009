-- ===== src/Approvals/Store/Counts.antt =====
-- How often a grant can be used.
use open_clause.Base.{
  ℕ, ◌+◌, ◌≡◌, inl, inr, Option-cases, refl, sym, Bool, Option, none, some, List, [], ◌∷◌, Text,
  ◌==◌, ok, err, Result, arith, if◌then◌else◌, Faults, text_dec,
}
use open_clause.Types.ToolCall.{Time}
use open_clause.Approvals.Model
use open_clause.Approvals.Store.Grants.{
  consume, find_and_consume_grant, consume_grant_tx, first_match, candidates, Wanted,
}
use open_clause.Approvals.Store.Candidates.{DistinctGrants-consume, DistinctGrants, find_grant}
use open_clause.Approvals.Store.Uses.{find_and_consume_grant-IsUsed}

-- The calls that a schedule makes, one after another, and how many of them used a grant of an id.
pub record Call : Type 0 where
  pub faults : Faults
  pub wanted : Wanted
  pub now : Time

abbrev pub counts : Text → Result Text (Option Model.ApprovalGrant) → ℕ
counts id (err e) = 0
counts id (ok none) = 0
counts id (ok (some g)) = if g.id == id then 1 else 0

module _ (path_match : Text → Text → Option Bool) (id : Text) where
  abbrev pub run : List Call → Model.Db → ℕ × Model.Db
  run [] db = (0, db)
  run (c ∷ calls) db =
      let (r, db1) = find_and_consume_grant path_match c.faults c.wanted c.now db in
      let (n, db2) = run calls db1 in (counts id r + n, db2)

  abbrev Counted :
      Model.ApprovalGrant → Result Text (Option Model.ApprovalGrant) → Model.Db → Type 0
  Counted g r db' =
      DistinctGrants db'.grants
      × ((g' : Model.ApprovalGrant) × (find_grant id db'.grants ≡ some g')
          × (counts id r + g'.uses_left ≡ g.uses_left))

  module _ (c : Call) (db : Model.Db) (g : Model.ApprovalGrant) (d : DistinctGrants db.grants)
      (found : find_grant id db.grants ≡ some g) where
    abbrev Outcome : Result Text (Option Model.ApprovalGrant) → Model.Db → Type 0
    Outcome r db' = find_and_consume_grant path_match c.faults c.wanted c.now db ≡ (r, db')

    abbrev picked : Option Model.ApprovalGrant
    picked =
        first_match path_match c.wanted.resource (candidates path_match c.wanted c.now db.grants)

    same_of_err : (e : Text) (db' : Model.Db) → Outcome (err e) db' → db' ≡ db
    unfolding find_and_consume_grant consume_grant_tx
    same_of_err e db' h = elim (Option-cases picked) [
      | inl q ↦ ground arith
      | inr (x, q) ↦ ground arith
    ]

    same_of_none : (db' : Model.Db) → Outcome (ok none) db' → db' ≡ db
    unfolding find_and_consume_grant consume_grant_tx
    same_of_none db' h = elim (Option-cases picked) [
      | inl q ↦ ground arith
      | inr (x, q) ↦ ground arith
    ]

    consumed_of_some :
        (g' : Model.ApprovalGrant) (db' : Model.Db)
        → Outcome (ok (some g')) db'
        → (x : Model.ApprovalGrant) × (db'.grants ≡ consume x.id db.grants)
    unfolding find_and_consume_grant consume_grant_tx
    consumed_of_some g' db' h = elim (Option-cases picked) [
      | inl q ↦ absurd (ground arith)
      | inr (x, q) ↦ (x, ground arith)
    ]

    count_call :
        (r : Result Text (Option Model.ApprovalGrant)) (db' : Model.Db)
        → Outcome r db'
        → Counted g r db'
    count_call (err e) db' h = rw (same_of_err e db' h) (d, (g, found, omega arith))
    count_call (ok none) db' h = rw (same_of_none db' h) (d, (g, found, omega arith))
    count_call (ok (some g')) db' h =
        let u = find_and_consume_grant-IsUsed path_match c.faults c.wanted c.now db d h in
        let (x, left) = consumed_of_some g' db' h in
        (
          rw left (DistinctGrants-consume x.id db.grants d),
          elim (text_dec g'.id id) [
            | yes e ↦ (
              g',
              rw (← e) u.stored,
              ground (arith, e, found, u.found, u.usable.left, u.one_less),
            )
            | no n ↦ (g, u.others id g (λ q. n (sym q)) found, ground arith)
          ],
        )

  run_counts :
      (calls : List Call) (db : Model.Db) (g : Model.ApprovalGrant)
      → DistinctGrants db.grants
      → find_grant id db.grants ≡ some g
      → let (n, db') = run calls db in
        (g' : Model.ApprovalGrant) × (find_grant id db'.grants ≡ some g')
        × (n + g'.uses_left ≡ g.uses_left)
  run_counts [] db g d found = (g, found, omega arith)
  run_counts (c ∷ calls) db g d found =
      let o : Result Text (Option Model.ApprovalGrant) × Model.Db =
        find_and_consume_grant path_match c.faults c.wanted c.now db in
      let (d1, (g1, found1, used1)) = count_call c db g d found o.0 o.1 refl in
      let (g2, found2, used2) = run_counts calls o.1 g1 d1 found1 in
      (g2, found2, omega (arith, used1, used2))

-- However the calls of `FindAndConsumeGrant` follow one another and whatever fails in them, the
-- number of those that used a grant, with the uses that the grant has left, makes up the uses that
-- it had: a grant is never used more often than it allows.
pub run-uses_left :
    (path_match : Text → Text → Option Bool) (id : Text) (calls : List Call) (db : Model.Db)
    (g : Model.ApprovalGrant)
    → DistinctGrants db.grants
    → find_grant id db.grants ≡ some g
    → let (n, db') = run path_match id calls db in
      (g' : Model.ApprovalGrant) × (find_grant id db'.grants ≡ some g')
      × (n + g'.uses_left ≡ g.uses_left)
run-uses_left path_match id calls db g d found = run_counts path_match id calls db g d found
