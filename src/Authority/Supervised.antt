-- ===== src/Authority/Supervised.antt =====
-- Who is made an agent's supervisor.
use megacorps.Prelude.{
  ℕ, ◌≡◌, refl, sym, ap, subst, ◌∙◌, true, false, Option, none, some, ◌&&◌, Any, is_some, arith,
  Bool-cases, inl, inr,
}
use mathlib.Core.Bool.{false≢true}
use mathlib.Core.Option.{some-injective, none-ne-some}
use megacorps.Authority.Roles.{AuthorityAgent, AuthorityPosition, is_set}
use megacorps.Authority.Organization.{
  boss_required, OrganizationInput, Organization, Directory, Resolution, unresolved, resolved,
  Supervisor, no_supervisor, supervisor, position_with, is_member, holds_boss_role, company_boss,
  is_working, head_supervisor, holders, manager_of, supervisors, supervisor_for, join,
  resolve_agent_organization,
}
use megacorps.Authority.Granted.{resolve-join}
use megacorps.Authority.Candidates.{
  HasAgent, find-HasAgent, IsEligible, boss_in, resolved-apart, staff_supervisor-HasAgent,
  holders-IsEligible,
}

-- The supervisor of an agent who gets the position.
pub record IsSupervised (dir : Directory) (company : ℕ) (value : OrganizationInput)
    (p : AuthorityPosition) (boss : Option ℕ) : Type 0 where
  pub of_boss : is_set p.is_company_boss ≡ true → is_set p.is_department_head ≡ false → boss ≡ none
  pub of_head :
      is_set p.is_department_head ≡ true
      → (id : ℕ) → boss ≡ some id
      → HasAgent (λ a. is_member company a && holds_boss_role dir company a) dir.agents id
  pub of_working_head :
      is_set p.is_department_head ≡ true → is_working value ≡ true → is_some boss ≡ true
  pub of_staff :
      is_set p.is_company_boss ≡ false
      → is_set p.is_department_head ≡ false
      → (id : ℕ) → boss ≡ some id
      → (manager : AuthorityPosition) × ((manager_of dir company p.manager_position_id
            ≡ some manager)
          × Any (λ a. (a.id ≡ id) × IsEligible company value manager a) dir.agents)

abbrev boss_of_resolution : Resolution → Option ℕ
boss_of_resolution (unresolved e) = none
boss_of_resolution (resolved org) = org.boss_id

head_supervisor-of :
    (dir : Directory) (company : ℕ) (value : OrganizationInput) (found : Option AuthorityAgent)
    (boss : Option ℕ)
    → company_boss dir company ≡ found
    → head_supervisor dir company value found ≡ supervisor boss
    → ((id : ℕ)
        → boss ≡ some id
        → HasAgent (λ a. is_member company a && holds_boss_role dir company a) dir.agents id)
      × (is_working value ≡ true → is_some boss ≡ true)
unfolding head_supervisor company_boss
head_supervisor-of dir company value none boss e h = elim (Bool-cases (is_working value)) [
  | inl working ↦ absurd (resolved-apart boss_required boss (rw working at h))
  | inr idle ↦
      let vacant : boss ≡ none = ap boss_in (sym (rw idle at h)) in
      (
        λ id found. absurd (none-ne-some id (sym vacant ∙ found)),
        λ working. absurd (false≢true (sym idle ∙ working)),
      )
]
head_supervisor-of dir company value (some a) boss e h =
    let taken : boss ≡ some a.id = ap boss_in (sym h) in
    (
      λ id found.
          subst (HasAgent (λ a. is_member company a && holds_boss_role dir company a) dir.agents)
            (some-injective a.id id (sym taken ∙ found))
            (find-HasAgent (λ a. is_member company a && holds_boss_role dir company a) dir.agents a
              e),
      λ working. rw taken refl,
    )

supervisor_for-IsSupervised :
    (dir : Directory) (company : ℕ) (value : OrganizationInput) (p : AuthorityPosition)
    (boss : Option ℕ)
    → supervisor_for dir company value p ≡ supervisor boss
    → IsSupervised dir company value p boss
unfolding supervisor_for supervisors
supervisor_for-IsSupervised dir company value p boss h = record {
  of_boss = λ b d. ap boss_in (sym (rw (d, b) at h));
  of_head = λ d.
      (head_supervisor-of dir company value (company_boss dir company) boss refl (rw d at h)).0;
  of_working_head = λ d.
      (head_supervisor-of dir company value (company_boss dir company) boss refl (rw d at h)).1;
  of_staff = λ b d id e.
      holders-IsEligible dir company value (manager_of dir company p.manager_position_id) id (
        staff_supervisor-HasAgent value
          (holders dir company value (manager_of dir company p.manager_position_id)) value.boss_id
          boss id (rw (d, b) at h) e);
}

join-supervisor :
    (p : AuthorityPosition) (s : Supervisor) (org : Organization)
    → join p s ≡ resolved org
    → s ≡ supervisor org.boss_id
join-supervisor p (no_supervisor e) org h = ground arith
join-supervisor p (supervisor b) org h = ap supervisor (ap boss_of_resolution h)

-- An agent who is given a position of the company is placed under an eligible supervisor or under none:
-- a company boss under nobody, a department head under an active holder of an active boss position, and
-- always when the head is at work, and a staff member under another active agent of the company who
-- holds the position that manages the agent's own.
pub resolve-IsSupervised :
    (dir : Directory) (company : ℕ) (value : OrganizationInput) (org : Organization)
    (p : AuthorityPosition)
    → value.position_id ≡ some p.id
    → position_with dir company p.id ≡ some p
    → resolve_agent_organization dir company value ≡ resolved org
    → IsSupervised dir company value p org.boss_id
resolve-IsSupervised dir company value org p e found h =
    supervisor_for-IsSupervised dir company value p org.boss_id (
      join-supervisor p (supervisor_for dir company value p) org
        (sym (resolve-join dir company value p e found) ∙ h))
