-- ===== src/Splitting/Drafted.antt =====
-- What the loop over the children of a split plan keeps.
use megacorps.Prelude.{
  same, ℕ, suc, ◌≡◌, inl, inr, refl, sym, ap, ◌∙◌, Bool, true, false, none, some, List, [], ◌∷◌,
  ◌++◌, not, ◌==◌, length, Text, arith, All, Bool-cases, error_if, error_if-nil, append-nil_iff,
}
use mathlib.Core.Option.{none-ne-some}
use megacorps.Splitting.Plan.{
  SplitContext, SplitChild, SplitCandidate, Seen, prior_index, Assessment, fault, candidate, assess,
  seen_after, fault_of, candidate_of, drafts,
}
use megacorps.Splitting.Assess.{IsAssigned, Holds, IsFit, assess-IsFit}

-- No two candidates are for the same department.
abbrev pub IsApart : List SplitCandidate → Type 0
IsApart [] = Unit
IsApart (c ∷ rest) =
    All (λ e. same e.assignee.department_id c.assignee.department_id ≡ false) rest × IsApart rest

abbrev HasFresh : Seen → SplitCandidate → Type 0
HasFresh seen c = (id : ℕ) × ((c.assignee.department_id ≡ some id) × (prior_index seen id ≡ none))

-- The candidates of one run of the loop, from the departments that it starts with.
pub record IsDrafted (has_acceptance : Text → Bool) (ctx : SplitContext) (seen : Seen)
    (children : List SplitChild) (cs : List SplitCandidate) : Type 0 where
  pub counted : length cs ≡ length children
  pub assigned : All (IsAssigned ctx) cs
  pub criteria : All (λ child. has_acceptance child.body ≡ true) children
  pub apart : ctx.splitter_is_company_boss ≡ true → All (HasFresh seen) cs × IsApart cs

module _ (has_acceptance : Text → Bool) (ctx : SplitContext) where
  HasFresh-cons :
      (seen : Seen) (d index : ℕ) (c : SplitCandidate)
      → HasFresh ((d, index) ∷ seen) c
      → HasFresh seen c × (same c.assignee.department_id (some d) ≡ false)
  unfolding prior_index
  HasFresh-cons seen d index c (id, (e, fresh)) = elim (Bool-cases (d == id)) [
    | inl same_department ↦ absurd (none-ne-some index (sym (rw same_department at fresh)))
    | inr differs ↦ ((id, (e, rw differs at fresh)), rw e (ground arith))
  ]

  fresh_candidates :
      (seen : Seen) (d index : ℕ) (cs : List SplitCandidate)
      → All (HasFresh ((d, index) ∷ seen)) cs
      → All (HasFresh seen) cs × All (λ c. same c.assignee.department_id (some d) ≡ false) cs
  fresh_candidates seen d index [] h = (tt, tt)
  fresh_candidates seen d index (c ∷ rest) h =
      let (fresh, other) = HasFresh-cons seen d index c h.0 in
      let (all_fresh, all_other) = fresh_candidates seen d index rest h.1 in
      ((fresh, all_fresh), (other, all_other))

  draft_step :
      (seen : Seen) (index : ℕ) (child : SplitChild) (rest : List SplitChild) (found : Assessment)
      (cs : List SplitCandidate)
      → has_acceptance child.body ≡ true
      → fault_of found ≡ []
      → Holds (IsFit ctx seen index) found
      → IsDrafted has_acceptance ctx (seen_after found index seen) rest cs
      → IsDrafted has_acceptance ctx seen (child ∷ rest) (candidate_of found ++ cs)
  draft_step seen index child rest (fault e) cs accepts clean fit later = ground arith
  draft_step seen index child rest (candidate c none) cs accepts clean fit later = record {
    counted = ap suc later.counted;
    assigned = (fit.assigned, later.assigned);
    criteria = (accepts, later.criteria);
    apart =
        λ boss. let (id, (taken, _)) = fit.unseen_department boss in absurd (none-ne-some id taken);
  }
  draft_step seen index child rest (candidate c (some d)) cs accepts clean fit later = record {
    counted = ap suc later.counted;
    assigned = (fit.assigned, later.assigned);
    criteria = (accepts, later.criteria);
    apart = λ boss.
        let (id, (taken, (department, fresh))) = fit.unseen_department boss in
        let (all_fresh, all_apart) = later.apart boss in
        let (older, other) = fresh_candidates seen d index cs all_fresh in
        let its : c.assignee.department_id ≡ some d = department ∙ sym taken in
        (((id, (department, fresh)), older), (rw its other, all_apart));
  }

  pub drafts-IsDrafted :
      (index : ℕ) (seen : Seen) (children : List SplitChild)
      → (drafts has_acceptance ctx index seen children).errors ≡ []
      → IsDrafted has_acceptance ctx seen children
          (drafts has_acceptance ctx index seen children).candidates
  unfolding drafts
  drafts-IsDrafted index seen [] h = record {
    counted = refl;
    assigned = tt;
    criteria = tt;
    apart = λ boss. (tt, tt);
  }
  drafts-IsDrafted index seen (child ∷ rest) h =
      let found = assess ctx seen index child in
      let (accepts, more) = (append-nil_iff (error_if (not (has_acceptance child.body)) _) _).0 h in
      let (clean, later) = (append-nil_iff (fault_of found) _).0 more in
      draft_step seen index child rest found _
        (ground (arith, error_if-nil (not (has_acceptance child.body)) _ accepts)) clean
        (assess-IsFit ctx seen index child)
        (drafts-IsDrafted (suc index) (seen_after found index seen) rest later)
