-- ===== src/Approvals/Store/Candidates.antt =====
-- Lemmas on the grants: which stand in the table, which pass a test, which match first.
use open_clause.Base.{
  ◌-◌, ◌≡◌, ◌↔◌, inl, inr, Bool-cases, refl, Bool, true, false, Option, none, some, List, [], ◌∷◌,
  Text, ◌==◌, arith, if◌then◌else◌, All, any, select,
}
use mathlib.Core.Path.{subst}
use open_clause.Approvals.Model
use open_clause.Approvals.Store.Grants.{has_grant, consume, first_match, match_resource}

-- No two grants have one id.
abbrev pub DistinctGrants : List Model.ApprovalGrant → Type 0
DistinctGrants [] = Unit
DistinctGrants (g ∷ rows) = (has_grant g.id rows ≡ false) × DistinctGrants rows

unfoldable pub find_grant : Text → List Model.ApprovalGrant → Option Model.ApprovalGrant
find_grant id [] = none
find_grant id (g ∷ rows) = if g.id == id then some g else find_grant id rows

pub find_grant-absent :
    (id : Text) (rows : List Model.ApprovalGrant)
    → has_grant id rows ≡ false
    → find_grant id rows ≡ none
unfolding find_grant has_grant
find_grant-absent id [] h = refl
find_grant-absent id (g ∷ rows) h = ground (arith, find_grant-absent id rows)

pub find_grant-consume :
    (id j : Text) (rows : List Model.ApprovalGrant) {g : Model.ApprovalGrant}
    → find_grant j rows ≡ some g
    → find_grant j (consume id rows)
      ≡ some (if j == id then record g { uses_left = g.uses_left - 1 } else g)
unfolding find_grant consume
find_grant-consume id j [] h = absurd (ground arith)
find_grant-consume id j (x ∷ rows) {g} h = ground (arith, find_grant-consume id j rows {g = g})

pub has_grant-consume :
    (id j : Text) (rows : List Model.ApprovalGrant)
    → has_grant j (consume id rows) ≡ has_grant j rows
unfolding has_grant consume
has_grant-consume id j [] = refl
has_grant-consume id j (x ∷ rows) = ground (arith, has_grant-consume id j rows)

pub DistinctGrants-consume :
    (id : Text) (rows : List Model.ApprovalGrant)
    → DistinctGrants rows
    → DistinctGrants (consume id rows)
unfolding consume
DistinctGrants-consume id [] d = tt
DistinctGrants-consume id (x ∷ rows) d =
    ground (arith, has_grant-consume id x.id rows, DistinctGrants-consume id rows d.1)

-- The grant stands in the table, and passes a test.
abbrev pub Listed :
    List Model.ApprovalGrant → (Model.ApprovalGrant → Bool) → Model.ApprovalGrant → Type 0
Listed table p g = (find_grant g.id table ≡ some g) × (p g ≡ true)

pub Listed-cons :
    (x : Model.ApprovalGrant) (table : List Model.ApprovalGrant) (p : Model.ApprovalGrant → Bool)
    → has_grant x.id table ≡ false
    → (rows : List Model.ApprovalGrant) → All (Listed table p) rows
    → All (Listed (x ∷ table) p) rows
unfolding find_grant
Listed-cons x table p h [] a = tt
Listed-cons x table p h (g ∷ rows) a =
    ground (arith, find_grant-absent x.id table h, Listed-cons x table p h rows a.1)

pub Listed-select :
    (p : Model.ApprovalGrant → Bool) (table : List Model.ApprovalGrant)
    → DistinctGrants table
    → All (Listed table p) (select p table)
unfolding find_grant
Listed-select p [] d = tt
Listed-select p (x ∷ table) d = elim (Bool-cases (p x)) [
  | inl e ↦
      rw e
        ((ground arith, e), Listed-cons x table p d.0 (select p table) (Listed-select p table d.1))
  | inr e ↦ rw e (Listed-cons x table p d.0 (select p table) (Listed-select p table d.1))
]

module _ (path_match : Text → Text → Option Bool) where
  pub first_match-All :
      (P : Model.ApprovalGrant → Type 0) (resource : Text) (rows : List Model.ApprovalGrant)
      {g : Model.ApprovalGrant}
      → All P rows
      → first_match path_match resource rows ≡ some g
      → P g × (match_resource path_match g.scope.resource_pattern resource ≡ true)
  unfolding first_match
  first_match-All P resource [] a h = absurd (ground arith)
  first_match-All P resource (x ∷ rows) {g} a h =
      elim (Bool-cases (match_resource path_match x.scope.resource_pattern resource)) [
        | inl e ↦
            let same : x ≡ g = ground arith in
            subst (λ y. P y × (match_resource path_match y.scope.resource_pattern resource ≡ true))
              same (a.0, e)
        | inr e ↦ first_match-All P resource rows a.1 (ground arith)
      ]

  -- The first match fails exactly if no row matches.
  pub first_match-any :
      (resource : Text) (rows : List Model.ApprovalGrant)
      → (first_match path_match resource rows ≡ none)
        ↔ (any (λ g. match_resource path_match g.scope.resource_pattern resource) rows ≡ false)
  unfolding first_match
  first_match-any resource [] = (λ h. refl, λ h. refl)
  first_match-any resource (x ∷ rows) = ground (arith, first_match-any resource rows)
