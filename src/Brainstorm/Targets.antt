-- ===== src/Brainstorm/Targets.antt =====
-- Whom a brainstorm plan addresses.
use megacorps.Prelude.{
  ℕ, ◌≡◌, refl, sym, subst, true, false, Option, none, some, List, [], ◌∷◌, if◌then◌else◌, ◌==◌,
  contains, arith, All, Any, Bool-cases, inl, inr, ap, ◌⊎◌, ==→≡,
}
use mathlib.Core.Option.{some-injective, none-ne-some}
use megacorps.Brainstorm.Plan.{
  BrainstormDepartment, BrainstormTarget, BrainstormPlanInput, later_or, by_slug, Addressed, target,
  fault, own, address_head, address_department, address, add_target, targets_of,
}

-- A target is another agent, who heads a department of the company that was asked for.
pub record IsTarget (input : BrainstormPlanInput) (t : BrainstormTarget) : Type 0 where
  pub listed : Any (λ d. d ≡ t.department) input.departments
  pub heads : t.department.head_agent_id ≡ some t.head
  pub other : (t.head == input.asker_id) ≡ false
  pub asked : contains input.requested t.department.slug ≡ true

later_or-cases :
    (found other : Option BrainstormDepartment) (d : BrainstormDepartment)
    → later_or found other ≡ some d
    → (found ≡ some d) ⊎ (other ≡ some d)
later_or-cases none other d h = inr h
later_or-cases (some e) other d h = inl h

by_slug-slug :
    (departments : List BrainstormDepartment) (slug : ℕ) (d : BrainstormDepartment)
    → by_slug departments slug ≡ some d
    → d.slug ≡ slug
unfolding by_slug
by_slug-slug [] slug d h = ground arith
by_slug-slug (e ∷ rest) slug d h =
    elim (later_or-cases (by_slug rest slug) (if e.slug == slug then some e else none) d h) [
      | inl found ↦ by_slug-slug rest slug d found
      | inr here ↦ elim (Bool-cases (e.slug == slug)) [
        | inl same_slug ↦
            subst (λ (x : BrainstormDepartment). x.slug ≡ slug)
              (some-injective e d (rw same_slug at here)) (==→≡ e.slug slug same_slug)
        | inr differs ↦ absurd (none-ne-some d (rw differs at here))
      ]
    ]

by_slug-listed :
    (departments : List BrainstormDepartment) (slug : ℕ) (d : BrainstormDepartment)
    → by_slug departments slug ≡ some d
    → Any (λ e. e ≡ d) departments
unfolding by_slug
by_slug-listed [] slug d h = ground arith
by_slug-listed (e ∷ rest) slug d h =
    elim (later_or-cases (by_slug rest slug) (if e.slug == slug then some e else none) d h) [
      | inl found ↦ inr (by_slug-listed rest slug d found)
      | inr here ↦ elim (Bool-cases (e.slug == slug)) [
        | inl same_slug ↦ inl (some-injective e d (rw same_slug at here))
        | inr differs ↦ absurd (none-ne-some d (rw differs at here))
      ]
    ]

abbrev target_or : BrainstormTarget → Addressed → BrainstormTarget
target_or t (target u) = u
target_or t _ = t

head_target :
    (input : BrainstormPlanInput) (slug : ℕ) (d : BrainstormDepartment) (head : Option ℕ)
    (t : BrainstormTarget)
    → Any (λ e. e ≡ d) input.departments
    → d.head_agent_id ≡ head
    → d.slug ≡ slug
    → contains input.requested slug ≡ true
    → address_head input.asker_id slug d head ≡ target t
    → IsTarget input t
unfolding address_head
head_target input slug d none t listed e named asked h = ground arith
head_target input slug d (some head) t listed e named asked h =
    elim (Bool-cases (head == input.asker_id)) [
      | inl self ↦ ground arith
      | inr differs ↦
          subst (IsTarget input) (ap (target_or t) (rw differs at h)) (record {
            listed = listed;
            heads = e;
            other = differs;
            asked = rw (sym named) at asked;
          })
    ]

department_target :
    (input : BrainstormPlanInput) (slug : ℕ) (d : Option BrainstormDepartment)
    (t : BrainstormTarget)
    → by_slug input.departments slug ≡ d
    → contains input.requested slug ≡ true
    → address_department input.asker_id slug d ≡ target t
    → IsTarget input t
unfolding address_department
department_target input slug none t e asked h = ground arith
department_target input slug (some d) t e asked h =
    head_target input slug d d.head_agent_id t (by_slug-listed input.departments slug d e) refl
      (by_slug-slug input.departments slug d e) asked h

add_target-IsTarget :
    (input : BrainstormPlanInput) (a : Addressed) (rest : List BrainstormTarget)
    → ((t : BrainstormTarget) → a ≡ target t → IsTarget input t)
    → All (IsTarget input) rest
    → All (IsTarget input) (add_target a rest)
add_target-IsTarget input (target t) rest h k = (h t refl, k)
add_target-IsTarget input (fault e) rest h k = k
add_target-IsTarget input own rest h k = k

pub targets_of-IsTarget :
    (input : BrainstormPlanInput) (slugs : List ℕ)
    → All (λ slug. contains input.requested slug ≡ true) slugs
    → All (IsTarget input) (targets_of input slugs)
unfolding targets_of address
targets_of-IsTarget input [] h = tt
targets_of-IsTarget input (slug ∷ rest) h =
    add_target-IsTarget input (address input slug) (targets_of input rest)
      (λ t e. department_target input slug (by_slug input.departments slug) t refl h.0 e)
      (targets_of-IsTarget input rest h.1)
