-- ===== src/Splitting/Assess.antt =====
-- What the loop over the requested children makes of one child.
use megacorps.Prelude.{
  ℕ, ◌≡◌, ◌⊎◌, inl, inr, refl, sym, ◌∙◌, Bool, true, false, Option, none, some, List, [], ◌∷◌,
  if◌then◌else◌, ◌==◌, arith, Any, Bool-cases,
}
use mathlib.Core.Bool.{false≢true}
use mathlib.Core.Option.{some-injective, none-ne-some}
use megacorps.Splitting.Plan.{
  SplitAgentRef, SplitContext, SplitChild, SplitCandidate, last_or, report_by_slug, Seen,
  prior_index, Assessment, fault, candidate, reviewer_of, draft, by_prior, by_department, by_role,
  by_reviewer, by_assignee, assess,
}

-- A candidate goes to a direct report, and somebody else reviews it.
pub record IsAssigned (ctx : SplitContext) (c : SplitCandidate) : Type 0 where
  pub report : Any (λ r. r ≡ c.assignee) ctx.direct_reports
  pub other : (c.reviewer.id == c.assignee.id) ≡ false

last_or-cases :
    (found other : Option SplitAgentRef) (r : SplitAgentRef)
    → last_or found other ≡ some r
    → (found ≡ some r) ⊎ (other ≡ some r)
last_or-cases none other r h = inr h
last_or-cases (some e) other r h = inl h

report_by_slug-listed :
    (reports : List SplitAgentRef) (slug : ℕ) (r : SplitAgentRef)
    → report_by_slug reports slug ≡ some r
    → Any (λ e. e ≡ r) reports
unfolding report_by_slug
report_by_slug-listed [] slug r h = ground arith
report_by_slug-listed (e ∷ rest) slug r h =
    elim (last_or-cases (report_by_slug rest slug) (if e.slug == slug then some e else none) r h) [
      | inl found ↦ inr (report_by_slug-listed rest slug r found)
      | inr here ↦ elim (Bool-cases (e.slug == slug)) [
        | inl same_slug ↦ inl (some-injective e r (rw same_slug at here))
        | inr differs ↦ absurd (none-ne-some r (rw differs at here))
      ]
    ]

-- What holds of an assessment: a property of its candidate and of the department that it takes.
abbrev pub Holds : (SplitCandidate → Option ℕ → Type 0) → Assessment → Type 0
Holds P (fault e) = Unit
Holds P (candidate c d) = P c d

-- What the loop makes of a child: assigned, and for a company boss a department that is not yet seen.
pub record IsFit (ctx : SplitContext) (seen : Seen) (index : ℕ) (c : SplitCandidate) (d : Option ℕ)
    : Type 0 where
  pub assigned : IsAssigned ctx c
  pub indexed : c.index ≡ index
  pub unseen_department :
      ctx.splitter_is_company_boss ≡ true
      → (id : ℕ) × ((d ≡ some id)
          × ((c.assignee.department_id ≡ some id) × (prior_index seen id ≡ none)))

module _ (ctx : SplitContext) (seen : Seen) (index : ℕ) (child : SplitChild) where
  by_prior-IsFit :
      (c : SplitCandidate) (d : ℕ) (prior : Option ℕ)
      → c.assignee.department_id ≡ some d
      → prior_index seen d ≡ prior
      → c.index ≡ index
      → IsAssigned ctx c
      → Holds (IsFit ctx seen index) (by_prior index c d prior)
  unfolding by_prior
  by_prior-IsFit c d none e p i a = record {
    assigned = a;
    indexed = i;
    unseen_department = λ boss. (d, (refl, (e, p)));
  }
  by_prior-IsFit c d (some prior) e p i a = tt

  by_department-IsFit :
      (c : SplitCandidate) (d : Option ℕ)
      → c.assignee.department_id ≡ d
      → c.index ≡ index
      → IsAssigned ctx c
      → Holds (IsFit ctx seen index) (by_department seen index c d)
  unfolding by_department
  by_department-IsFit c none e i a = tt
  by_department-IsFit c (some d) e i a = by_prior-IsFit c d (prior_index seen d) e refl i a

  by_role-IsFit :
      (c : SplitCandidate) (boss : Bool)
      → ctx.splitter_is_company_boss ≡ boss
      → c.index ≡ index
      → IsAssigned ctx c
      → Holds (IsFit ctx seen index) (by_role seen index c boss)
  unfolding by_role
  by_role-IsFit c true e i a = by_department-IsFit c c.assignee.department_id refl i a
  by_role-IsFit c false e i a = record {
    assigned = a;
    indexed = i;
    unseen_department = λ boss. absurd (false≢true (sym e ∙ boss));
  }

  by_reviewer-IsFit :
      (assignee : SplitAgentRef) (reviewer : Option SplitAgentRef)
      → Any (λ r. r ≡ assignee) ctx.direct_reports
      → Holds (IsFit ctx seen index) (by_reviewer ctx seen index child assignee reviewer)
  unfolding by_reviewer draft
  by_reviewer-IsFit assignee none listed = tt
  by_reviewer-IsFit assignee (some reviewer) listed =
      elim (Bool-cases (reviewer.id == assignee.id)) [
        | inl same_agent ↦ rw same_agent tt
        | inr differs ↦ rw differs (
            by_role-IsFit (draft index child assignee reviewer) ctx.splitter_is_company_boss refl
              refl (record { report = listed; other = differs }))
      ]

  by_assignee-IsFit :
      (assignee : Option SplitAgentRef)
      → report_by_slug ctx.direct_reports child.assignee_slug ≡ assignee
      → Holds (IsFit ctx seen index) (by_assignee ctx seen index child assignee)
  unfolding by_assignee
  by_assignee-IsFit none e = tt
  by_assignee-IsFit (some assignee) e =
      by_reviewer-IsFit assignee (reviewer_of ctx child.reviewer_slug)
        (report_by_slug-listed ctx.direct_reports child.assignee_slug assignee e)

  pub assess-IsFit : Holds (IsFit ctx seen index) (assess ctx seen index child)
  unfolding assess
  assess-IsFit = by_assignee-IsFit (report_by_slug ctx.direct_reports child.assignee_slug) refl
