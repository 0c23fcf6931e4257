-- ===== src/Children/Blocking.antt =====
-- dispatch.ts `blockingChildrenForPolicy`: the children that are named when the policy is not satisfied.
use megacorps.Prelude.{
  ℕ, ◌≡◌, ◌⊎◌, refl, sym, subst, ◌∙◌, and-true, All-members, Any, Bool, true, false, Option, none,
  some, List, [], ◌∷◌, ◌&&◌, not, all, keep, is_empty, All, ◌≢◌, arith, Bool-cases, inl, inr,
}
use mathlib.Core.Bool.{false≢true}
use megacorps.Workflow.Status.{done, in_review, cancelled}
use megacorps.Children.Policy.{
  Doubles, child_weight, is_required_level, child_can_be_ignored, ChildPolicy,
  all_required_accepted, all_non_cancelled_accepted, threshold, manual, ChildRow, RequestedStatus,
  status, success, completion_status_for_quality_gate, child_is_done, child_is_required,
  total_weight, done_weight, done_or_ignored, not_ignored, unfinished, required_satisfied,
  satisfied_by, policy_of, child_completion_policy_satisfied, required_blocking, blocking_by,
  blocking_children_for_policy,
}

-- No status that is asked for completes a card past its reviewer, and without a reviewer a card is
-- never left in review.
pub completion_status-reviewed :
    (asked : RequestedStatus) (reviewer : ℕ)
    → (completion_status_for_quality_gate asked (some reviewer) ≢ done)
      × (completion_status_for_quality_gate asked none ≢ in_review)
unfolding completion_status_for_quality_gate
completion_status-reviewed success reviewer = (ground arith, ground arith)
completion_status-reviewed (status s) reviewer = (ground arith, ground arith)

-- Nothing is kept exactly when the test fails on all.
keep-none :
    {A : Type 0} (p q : A → Bool) (xs : List A)
    → ((x : A) → p x ≡ not (q x))
    → is_empty (keep p xs) ≡ all q xs
keep-none p q [] h = refl
keep-none p q (x ∷ xs) h = ground (arith, keep-none p q xs h, h x)

-- The same below a filter.
keep-filtered :
    {A : Type 0} (p q : A → Bool) (xs : List A)
    → is_empty (keep (λ x. p x && not (q x)) xs) ≡ all q (keep p xs)
keep-filtered p q [] = refl
keep-filtered p q (x ∷ xs) = ground (arith, keep-filtered p q xs)

-- Four fifths of a sum of weights, none of which is negative, are at most the sum, also when rounded.
abbrev pub IsRounded : Doubles → Type 0
IsRounded d =
    (children : List ChildRow)
    → d.at_least (total_weight d (d.of_hundredths 0) children)
        (d.four_fifths (total_weight d (d.of_hundredths 0) children))
      ≡ true

-- With every child done, all of the weight is done.
done_weight-all :
    (d : Doubles) (sum : d.Double) (children : List ChildRow)
    → all child_is_done children ≡ true
    → done_weight d sum children ≡ total_weight d sum children
unfolding done_weight total_weight
done_weight-all d sum [] h = refl
done_weight-all d sum (c ∷ rest) h =
    let (here, later) = and-true (child_is_done c) (all child_is_done rest) h in
    rw here (
      done_weight-all d (d.plus sum (d.of_hundredths (child_weight c.estimated_weight))) rest later)

required_blocking-none :
    (children : List ChildRow) → is_empty (required_blocking children) ≡ required_satisfied children
unfolding required_blocking required_satisfied
required_blocking-none children = elim (Bool-cases (is_empty (keep child_is_required children))) [
  | inl e ↦
      rw e (
        keep-none (λ c. unfinished c && not_ignored c) done_or_ignored children (λ c. ground arith))
  | inr e ↦ rw e (keep-none unfinished child_is_done (keep child_is_required children) (λ c. refl))
]

threshold-satisfied :
    (d : Doubles) (children : List ChildRow)
    → IsRounded d
    → all child_is_done children ≡ true
    → satisfied_by d threshold children ≡ true
threshold-satisfied d children rounded h =
    subst
      (λ sum. d.at_least sum (d.four_fifths (total_weight d (d.of_hundredths 0) children)) ≡ true)
      (sym (done_weight-all d (d.of_hundredths 0) children h)) (rounded children)

blocking_by-none :
    (d : Doubles) (policy : ChildPolicy) (children : List ChildRow)
    → IsRounded d
    → satisfied_by d policy children ≡ false
    → is_empty (blocking_by policy children) ≡ false
blocking_by-none d all_non_cancelled_accepted children rounded h =
    ground (arith, keep-filtered not_ignored child_is_done children)
blocking_by-none d threshold children rounded h = elim (Bool-cases (all child_is_done children)) [
  | inl e ↦ absurd (false≢true (sym h ∙ threshold-satisfied d children rounded e))
  | inr e ↦ keep-none unfinished child_is_done children (λ c. refl) ∙ e
]
blocking_by-none d all_required_accepted children rounded h =
    ground (arith, required_blocking-none children)
blocking_by-none d manual children rounded h = ground (arith, required_blocking-none children)

blocking_children-is_empty :
    (d : Doubles) (policy : Option ChildPolicy) (children : List ChildRow)
    → IsRounded d
    → is_empty (blocking_children_for_policy d policy children)
      ≡ child_completion_policy_satisfied d policy children
unfolding blocking_children_for_policy child_completion_policy_satisfied
blocking_children-is_empty d policy [] rounded = refl
blocking_children-is_empty d policy (c ∷ rest) rounded =
    elim (Bool-cases (satisfied_by d (policy_of policy) (c ∷ rest))) [
      | inl e ↦ rw e refl
      | inr e ↦ rw e (blocking_by-none d (policy_of policy) (c ∷ rest) rounded e)
    ]

-- What the policy asks of a child that is not done, so that it holds its parent back: any under the
-- threshold, one that is not cancelled where those are left out, and otherwise a required one, or, if
-- none is required, one that is not cancelled.
abbrev pub HoldsBack : ChildPolicy → List ChildRow → ChildRow → Type 0
HoldsBack threshold children c = Unit
HoldsBack all_non_cancelled_accepted children c = c.column_status ≢ some cancelled
HoldsBack all_required_accepted children c =
    (is_required_level c.child_requirement_level ≡ true)
    ⊎ (All (λ s. is_required_level s.child_requirement_level ≡ false) children
        × (c.column_status ≢ some cancelled))
HoldsBack manual children c =
    (is_required_level c.child_requirement_level ≡ true)
    ⊎ (All (λ s. is_required_level s.child_requirement_level ≡ false) children
        × (c.column_status ≢ some cancelled))

keep-All :
    {A : Type 0} (p : A → Bool) (P Q : A → Type 0) (xs : List A)
    → ((x : A) → p x ≡ true → P x → Q x)
    → All P xs
    → All Q (keep p xs)
keep-All p P Q [] f h = tt
keep-All p P Q (x ∷ xs) f h = elim (Bool-cases (p x)) [
  | inl e ↦ rw e (f x e h.0, keep-All p P Q xs f h.1)
  | inr e ↦ rw e (keep-All p P Q xs f h.1)
]

child-unfinished : (c : ChildRow) → unfinished c ≡ true → c.column_status ≢ some done
unfolding child_is_done
child-unfinished c h e = absurd (false≢true (rw e at h))

child-not_ignored : (c : ChildRow) → not_ignored c ≡ true → c.column_status ≢ some cancelled
unfolding child_can_be_ignored
child-not_ignored c h e = absurd (false≢true (rw e at h))

child-required :
    (c : ChildRow) → child_is_required c ≡ true → is_required_level c.child_requirement_level ≡ true
unfolding child_is_required
child-required c h = h

none-required :
    (children : List ChildRow)
    → is_empty (keep child_is_required children) ≡ true
    → All (λ s. is_required_level s.child_requirement_level ≡ false) children
unfolding child_is_required
none-required [] h = tt
none-required (c ∷ rest) h = elim (Bool-cases (is_required_level c.child_requirement_level)) [
  | inl e ↦ absurd (false≢true (rw e at h))
  | inr e ↦ (e, none-required rest (rw e at h))
]

-- A child of the list that is not done and holds its parent back.
abbrev pub HoldsParent : ChildPolicy → List ChildRow → ChildRow → Type 0
HoldsParent policy children c =
    Any (λ x. x ≡ c) children × (c.column_status ≢ some done) × HoldsBack policy children c

required_blocking-All :
    (children : List ChildRow)
    → All (HoldsParent all_required_accepted children) (required_blocking children)
unfolding required_blocking
required_blocking-All children = elim (Bool-cases (is_empty (keep child_is_required children))) [
  | inl e ↦ rw e (
      keep-All (λ c. unfinished c && not_ignored c) (λ c. Any (λ x. x ≡ c) children)
        (HoldsParent all_required_accepted children) children
        (λ c h m. (
          m,
          child-unfinished c (ground arith),
          inr (none-required children e, child-not_ignored c (ground arith)),
        ))
        (All-members children))
  | inr e ↦ rw e (
      keep-All unfinished
        (λ c. Any (λ x. x ≡ c) children × (is_required_level c.child_requirement_level ≡ true))
        (HoldsParent all_required_accepted children) (keep child_is_required children)
        (λ c h m. (m.0, child-unfinished c h, inl m.1))
        (keep-All child_is_required (λ c. Any (λ x. x ≡ c) children)
          (λ c. Any (λ x. x ≡ c) children × (is_required_level c.child_requirement_level ≡ true))
          children (λ c h m. (m, child-required c h)) (All-members children)))
]

blocking_by-All :
    (policy : ChildPolicy) (children : List ChildRow)
    → All (HoldsParent policy children) (blocking_by policy children)
blocking_by-All threshold children =
    keep-All unfinished (λ c. Any (λ x. x ≡ c) children) (HoldsParent threshold children) children
      (λ c h m. (m, child-unfinished c h, tt)) (All-members children)
blocking_by-All all_non_cancelled_accepted children =
    keep-All (λ c. not_ignored c && unfinished c) (λ c. Any (λ x. x ≡ c) children)
      (HoldsParent all_non_cancelled_accepted children) children
      (λ c h m. (m, child-unfinished c (ground arith), child-not_ignored c (ground arith)))
      (All-members children)
blocking_by-All all_required_accepted children = required_blocking-All children
blocking_by-All manual children = required_blocking-All children

-- For each policy a parent that may not be completed names a child that holds it back, and one that
-- may be completed names none; and whatever is named is one of the children, is not done, and holds the
-- parent back under that policy: a required child, or, where none is required, one that is not
-- cancelled; any that is not cancelled, where those are left out; any at all under the threshold. Of
-- the platform's numbers this needs that a sum of weights is at least four fifths of itself.
pub blocking_children-HoldsParent :
    (d : Doubles) (policy : Option ChildPolicy) (children : List ChildRow)
    → IsRounded d
    → (is_empty (blocking_children_for_policy d policy children)
        ≡ child_completion_policy_satisfied d policy children)
      × All
          (HoldsParent (policy_of policy) children)
          (blocking_children_for_policy d policy children)
unfolding blocking_children_for_policy
blocking_children-HoldsParent d policy children rounded = (
  blocking_children-is_empty d policy children rounded,
  elim (Bool-cases (child_completion_policy_satisfied d policy children)) [
    | inl e ↦ rw e tt
    | inr e ↦ rw e (blocking_by-All (policy_of policy) children)
  ],
)
