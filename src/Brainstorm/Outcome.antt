-- ===== src/Brainstorm/Outcome.antt =====
-- What an accepted brainstorm plan guarantees, what it refuses, and when a round ends.
use megacorps.Prelude.{
  append-nil_iff, error_if, error_if-nil, contains_self, ◌⊎◌, ℕ, ◌+◌, ◌*◌, ◌≤◌, ◌≡◌, ◌≢◌, refl, sym,
  subst, Bool, true, false, Option, none, some, List, [], ◌∷◌, ◌||◌, not, all, keep, is_empty,
  is_some, ◌==◌, contains, arith, All, Bool-cases, inl, inr, ap, ==→≡, ≡→==, All-Any, ◌∙◌,
}
use mathlib.Core.Bool.{false≢true}
use mathlib.Core.Option.{some-injective}
use megacorps.Recovery.Store.{RunStatus}
use megacorps.Brainstorm.Plan.{
  BrainstormDepartment, BrainstormTarget, BrainstormPlanInput, BrainstormError, BrainstormPlan,
  planned, refused, not_owner, not_allowed, round_in_progress, by_slug, Addressed, target, fault,
  own, address_department, address, add_fault, targets_of, faults_of, right_errors, covered,
  missing_of, minimum_errors, errors_before, plan_of, plan_brainstorm_targets,
  brainstorm_round_complete,
}
use megacorps.Brainstorm.Targets.{IsTarget, targets_of-IsTarget}

-- What an accepted plan guarantees.
pub record IsSoundPlan (input : BrainstormPlanInput) (targets : List BrainstormTarget)
    : Type 0 where
  pub owner : input.is_owner ≡ true
  pub leads : (input.asker_is_company_boss || input.asker_is_department_head) ≡ true
  pub free : input.already_pending ≡ false
  pub some_target : is_empty targets ≡ false
  pub aimed : All (IsTarget input) targets
  pub known : All (λ slug. is_some (by_slug input.departments slug) ≡ true) input.requested
  pub minimum : all (contains (covered targets)) input.client_minimum_ids ≡ true

known_department :
    (input : BrainstormPlanInput) (slug : ℕ) (d : Option BrainstormDepartment)
    (rest : List BrainstormError)
    → add_fault (address_department input.asker_id slug d) rest ≡ []
    → is_some d ≡ true
unfolding address_department
known_department input slug none rest h = ground arith
known_department input slug (some d) rest h = refl

add_fault-rest : (a : Addressed) (rest : List BrainstormError) → add_fault a rest ≡ [] → rest ≡ []
add_fault-rest (target t) rest h = h
add_fault-rest (fault e) rest h = ground arith
add_fault-rest own rest h = h

faults_of-known :
    (input : BrainstormPlanInput) (slugs : List ℕ)
    → faults_of input slugs ≡ []
    → All (λ slug. is_some (by_slug input.departments slug) ≡ true) slugs
unfolding faults_of address
faults_of-known input [] h = tt
faults_of-known input (slug ∷ rest) h = (
  known_department input slug (by_slug input.departments slug) (faults_of input rest) h,
  faults_of-known input rest (add_fault-rest (address input slug) (faults_of input rest) h),
)

keep-nil_all :
    (p : ℕ → Bool) (ids : List ℕ) → is_empty (keep (λ id. not (p id)) ids) ≡ true → all p ids ≡ true
keep-nil_all p [] h = refl
keep-nil_all p (x ∷ rest) h = ground (arith, keep-nil_all p rest)

abbrev targets_or : List BrainstormTarget → BrainstormPlan → List BrainstormTarget
targets_or ts (planned us) = us
targets_or ts (refused es) = ts

plan_of-planned :
    (found targets : List BrainstormTarget) (errors : List BrainstormError)
    → plan_of found errors ≡ planned targets
    → (errors ≡ []) × ((found ≡ targets) × (is_empty found ≡ false))
plan_of-planned found targets (e ∷ more) h = ground arith
plan_of-planned [] targets [] h = ground arith
plan_of-planned (t ∷ rest) targets [] h = (refl, (ap (targets_or []) h, refl))

-- A plan that is accepted was asked for by the card's owner, a boss or head, with no round open; it
-- has a target, each the head of a department that was asked for and not the asker; every department
-- asked for is one of the company; and the departments that the client wants are all among the targets.
pub plan_brainstorm_targets-IsSoundPlan :
    (input : BrainstormPlanInput) (targets : List BrainstormTarget)
    → plan_brainstorm_targets input ≡ planned targets
    → IsSoundPlan input targets
unfolding plan_brainstorm_targets errors_before right_errors minimum_errors missing_of
plan_brainstorm_targets-IsSoundPlan input targets h =
    let (clean, (same_targets, some_found)) =
      plan_of-planned (targets_of input input.requested) targets (errors_before input) h in
    let (rights, more) = (append-nil_iff (right_errors input) _).0 clean in
    let (faultless, covers) = (append-nil_iff (faults_of input input.requested) _).0 more in
    let (owns, others) = (append-nil_iff (error_if (not input.is_owner) not_owner) _).0 rights in
    let (leads, pending) =
      (append-nil_iff
          (error_if (not (input.asker_is_company_boss || input.asker_is_department_head))
            not_allowed)
          _).0
        others in
    subst (IsSoundPlan input) same_targets (record {
      owner = ground (arith, error_if-nil (not input.is_owner) not_owner owns);
      leads = ground (
        arith,
        error_if-nil (not (input.asker_is_company_boss || input.asker_is_department_head))
            not_allowed leads,
      );
      free = error_if-nil input.already_pending round_in_progress pending;
      some_target = some_found;
      aimed = targets_of-IsTarget input input.requested (contains_self input.requested);
      known = faults_of-known input input.requested faultless;
      minimum =
          keep-nil_all (contains (covered (targets_of input input.requested)))
            input.client_minimum_ids
            (ground (
              arith,
              error_if-nil (not (is_empty (missing_of input (targets_of input input.requested)))) _
                  covers,
            ));
    })

-- A round that is complete stays complete while the statuses do not change, and a round whose
-- timeout has passed is complete whatever the heads did.
pub brainstorm_round_complete-ends :
    (statuses : List (Option RunStatus)) (opened_at now later timeout_minutes : ℕ)
    → now ≤ later
    → (is_some (brainstorm_round_complete statuses opened_at now timeout_minutes) ≡ true)
      ⊎ (opened_at + timeout_minutes * 60000 ≤ now)
    → is_some (brainstorm_round_complete statuses opened_at later timeout_minutes) ≡ true
unfolding brainstorm_round_complete
brainstorm_round_complete-ends statuses opened_at now later timeout_minutes h over = ground arith

-- A department that the asker heads is covered by no target.
covered-own :
    (input : BrainstormPlanInput) (id : ℕ) (targets : List BrainstormTarget)
    → All (IsTarget input) targets
    → All (λ d. (d.id == id) ≡ true → d.head_agent_id ≡ some input.asker_id) input.departments
    → contains (covered targets) id ≡ false
covered-own input id [] aimed h = refl
covered-own input id (t ∷ rest) aimed h = elim (Bool-cases (t.department.id == id)) [
  | inl e ↦
      All-Any (λ d. (d.id == id) ≡ true → d.head_agent_id ≡ some input.asker_id)
        (λ d. d ≡ t.department) input.departments h aimed.0.listed
        (λ d own_head is_it. absurd (
          false≢true (
            sym aimed.0.other
            ∙ ≡→== t.head input.asker_id (
                some-injective t.head input.asker_id (
                  sym aimed.0.heads
                  ∙ subst (λ x. (x.id == id) ≡ true → x.head_agent_id ≡ some input.asker_id) is_it
                      own_head e)))))
  | inr e ↦ ground (arith, covered-own input id rest aimed.1 h)
]

all-contains :
    (p : ℕ → Bool) (ids : List ℕ) (id : ℕ) → all p ids ≡ true → contains ids id ≡ true → p id ≡ true
all-contains p [] id h k = ground arith
all-contains p (x ∷ rest) id h k = elim (Bool-cases (x == id)) [
  | inl e ↦ subst (λ y. p y ≡ true) (==→≡ x id e) (ground arith)
  | inr e ↦ all-contains p rest id (ground arith) (ground arith)
]

-- When the client wants a department to take part that the asker heads, no plan is accepted: the
-- asker is skipped as a target, and the department then counts as missing.
pub plan_brainstorm_targets-own_minimum :
    (input : BrainstormPlanInput) (id : ℕ) (targets : List BrainstormTarget)
    → contains input.client_minimum_ids id ≡ true
    → All (λ d. (d.id == id) ≡ true → d.head_agent_id ≡ some input.asker_id) input.departments
    → plan_brainstorm_targets input ≢ planned targets
plan_brainstorm_targets-own_minimum input id targets wanted heads h =
    let sound = plan_brainstorm_targets-IsSoundPlan input targets h in
    false≢true (
      sym (covered-own input id targets sound.aimed heads)
      ∙ all-contains (contains (covered targets)) input.client_minimum_ids id sound.minimum wanted)
