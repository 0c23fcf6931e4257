-- ===== src/Splitting/Sound.antt =====
-- What an accepted split plan guarantees.
use megacorps.Prelude.{
  ℕ, ◌+◌, ◌≤◌, ◌<◌, ◌≡◌, refl, sym, ap, subst, ◌∙◌, Bool, true, false, Option, List, [], ◌∷◌, ◌&&◌,
  not, keep, is_empty, get_or, ltb, leb, length, Text, text, text_eq, arith, All, All-map_prop,
  error_if, error_if-nil, append-nil_iff,
}
use mathlib.Core.Bool.{false≢true}
use megacorps.Splitting.Cycles.{has_dependency_cycle}
use megacorps.Splitting.Acyclic.{LeadsTo}
use megacorps.Splitting.Decides.{has_dependency_cycle-LeadsTo}
use megacorps.Splitting.Plan.{
  SplitContext, SplitChild, SplitCandidate, SplitError, SplitEvaluation, accepted, rejected,
  effective_fanout_cap, split_hard_fanout_cap, split_max_rounds, context_errors, edges_of,
  invalid_dependencies, cycle_found, fanout_errors, drafts, plan_errors, evaluation,
  evaluate_split_plan,
}
use megacorps.Splitting.Assess.{IsAssigned}
use megacorps.Splitting.Drafted.{IsApart, drafts-IsDrafted}

-- What an accepted split guarantees.
pub record IsSoundSplit (has_acceptance : Text → Bool) (ctx : SplitContext)
    (children : List SplitChild) (cs : List SplitCandidate) (round : ℕ) : Type 0 where
  pub allowed : text_eq (get_or ctx.decision_mode (text "auto")) (text "solo") ≡ false
  pub idle : ctx.live_children ≡ 0
  pub bounded :
      (ctx.split_round < get_or ctx.max_rounds split_max_rounds) × (round ≡ ctx.split_round + 1)
  pub counted : length cs ≡ length children
  pub assigned : All (IsAssigned ctx) cs
  pub criteria : All (λ child. has_acceptance child.body ≡ true) children
  pub fanout :
      ctx.splitter_is_company_boss ≡ false
      → (length cs ≤ effective_fanout_cap ctx.max_children_per_card)
        × (length cs ≤ split_hard_fanout_cap)
  pub apart : ctx.splitter_is_company_boss ≡ true → IsApart cs
  pub inside : All (λ c. All (λ dep. dep < length children) c.depends_on) cs
  pub acyclic : (a : ℕ) → ¬ LeadsTo (edges_of cs) a a

keep-nil :
    {A : Type 0} (p : A → Bool) (xs : List A)
    → is_empty (keep p xs) ≡ true
    → All (λ x. p x ≡ false) xs
keep-nil p [] h = tt
keep-nil p (x ∷ rest) h = (ground arith, keep-nil p rest (ground arith))

invalid_dependencies-nil :
    (count : ℕ) (cs : List SplitCandidate)
    → invalid_dependencies count cs ≡ []
    → All (λ c. All (λ dep. dep < count) c.depends_on) cs
unfolding invalid_dependencies
invalid_dependencies-nil count [] h = tt
invalid_dependencies-nil count (c ∷ rest) h =
    let (mine, others) =
      (append-nil_iff (error_if (not (is_empty (keep (λ dep. leb count dep) c.depends_on))) _) _).0
        h in
    (
      All-map_prop (λ dep. leb count dep ≡ false) (λ dep. dep < count) c.depends_on
          (λ dep e. ground arith)
          (keep-nil (λ dep. leb count dep) c.depends_on (ground (arith, error_if-nil _ _ mine))),
      invalid_dependencies-nil count rest others,
    )

no_cycle :
    (cs : List SplitCandidate)
    → cycle_found (has_dependency_cycle (edges_of cs)) ≡ false
    → (a : ℕ) → ¬ LeadsTo (edges_of cs) a a
no_cycle cs h a path =
    let (ends, (found, finds)) = has_dependency_cycle-LeadsTo (edges_of cs) in
    false≢true (sym h ∙ ap cycle_found (finds (a, path)))

effective_fanout_cap-le :
    (configured : Option ℕ) → effective_fanout_cap configured ≤ split_hard_fanout_cap
unfolding effective_fanout_cap
effective_fanout_cap-le configured = ground arith

abbrev candidates_or : List SplitCandidate → SplitEvaluation → List SplitCandidate
candidates_or cs (accepted ds round) = ds
candidates_or cs (rejected es) = cs

abbrev round_or : ℕ → SplitEvaluation → ℕ
round_or n (accepted ds round) = round
round_or n (rejected es) = n

evaluation-accepted :
    (ctx : SplitContext) (found cs : List SplitCandidate) (errors : List SplitError) (round : ℕ)
    → evaluation ctx found errors ≡ accepted cs round
    → (errors ≡ []) × ((found ≡ cs) × (round ≡ ctx.split_round + 1))
evaluation-accepted ctx found cs (e ∷ more) round h = ground arith
evaluation-accepted ctx found cs [] round h =
    (refl, (ap (candidates_or []) h, sym (ap (round_or 0) h)))

module _ (has_acceptance : Text → Bool) (ctx : SplitContext) where
  drafts-IsSoundSplit :
      (children : List SplitChild)
      → plan_errors has_acceptance ctx children (drafts has_acceptance ctx 0 [] children) ≡ []
      → IsSoundSplit has_acceptance ctx children
          (drafts has_acceptance ctx 0 [] children).candidates
          (ctx.split_round + 1)
  unfolding plan_errors context_errors fanout_errors
  drafts-IsSoundSplit children h =
      let d = drafts has_acceptance ctx 0 [] children in
      let (context, h1) = (append-nil_iff (context_errors ctx) _).0 h in
      let (clean, h2) = (append-nil_iff d.errors _).0 h1 in
      let (fanned, h3) = (append-nil_iff (fanout_errors ctx (length children)) _).0 h2 in
      let (valid, cyclic) =
        (append-nil_iff (invalid_dependencies (length children) d.candidates) _).0 h3 in
      let (solo, c1) =
        (append-nil_iff
            (error_if (text_eq (get_or ctx.decision_mode (text "auto")) (text "solo")) _) _).0
          context in
      let (live, c2) = (append-nil_iff (error_if (ltb 0 ctx.live_children) _) _).0 c1 in
      let (spent, staff) =
        (append-nil_iff (error_if (leb (get_or ctx.max_rounds split_max_rounds) ctx.split_round) _)
            _).0
          c2 in
      let drafted = drafts-IsDrafted has_acceptance ctx 0 [] children clean in
      let fits =
        error_if-nil
          (not ctx.splitter_is_company_boss
            && ltb (effective_fanout_cap ctx.max_children_per_card) (length children))
          _ fanned in
      record {
        allowed = error_if-nil _ _ solo;
        idle = ground (arith, error_if-nil _ _ live);
        bounded = (ground (arith, error_if-nil _ _ spent), refl);
        counted = drafted.counted;
        assigned = drafted.assigned;
        criteria = drafted.criteria;
        fanout = λ role.
            let fit : length d.candidates ≤ effective_fanout_cap ctx.max_children_per_card =
              ground (arith, drafted.counted, fits, role) in
            (fit, omega (arith, fit, effective_fanout_cap-le ctx.max_children_per_card));
        apart = λ boss. (drafted.apart boss).1;
        inside = invalid_dependencies-nil (length children) d.candidates valid;
        acyclic = no_cycle d.candidates (error_if-nil _ _ cyclic);
      }

  -- A split plan that is accepted comes from a card that is not in solo mode, has no live child and
  -- has a round left; there is a candidate for each child asked for, with acceptance criteria, for a
  -- direct report and reviewed by another agent; a company boss has at most one for each department,
  -- anyone else at most the configured number and never more than five; and the dependencies stay
  -- inside the request and have no cycle.
  pub evaluate_split_plan-IsSoundSplit :
      (children : List SplitChild) (cs : List SplitCandidate) (round : ℕ)
      → evaluate_split_plan has_acceptance ctx children ≡ accepted cs round
      → IsSoundSplit has_acceptance ctx children cs round
  unfolding evaluate_split_plan
  evaluate_split_plan-IsSoundSplit [] cs round h = ground arith
  evaluate_split_plan-IsSoundSplit (child ∷ rest) cs round h =
      let d = drafts has_acceptance ctx 0 [] (child ∷ rest) in
      let (clean, (same_candidates, next_round)) =
        evaluation-accepted ctx d.candidates cs (plan_errors has_acceptance ctx (child ∷ rest) d)
          round h in
      subst (IsSoundSplit has_acceptance ctx (child ∷ rest) cs) (sym next_round) (
        subst (λ es. IsSoundSplit has_acceptance ctx (child ∷ rest) es (ctx.split_round + 1))
          same_candidates (drafts-IsSoundSplit (child ∷ rest) clean))
