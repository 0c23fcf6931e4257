-- ===== src/Authority/Granted.antt =====
-- The authority of an agent who was assigned to a position.
use megacorps.Prelude.{
  ℕ, ◌≡◌, refl, sym, ap, ◌∙◌, true, false, Option, none, some, ◌||◌, ◌==◌, ==_refl, same, arith,
  Bool-cases, inl, inr,
}
use megacorps.Authority.Roles.{
  AuthorityAgent, AuthorityPosition, AgentAuthority, is_set, is_not_off, is_in_office,
  is_boss_office, is_head_office, agent_authority, validate_position_role,
}
use megacorps.Authority.Organization.{
  OrganizationInput, Organization, Directory, Resolution, unresolved, resolved, Supervisor,
  no_supervisor, supervisor, position_with, supervisor_for, department_for, join, resolve_position,
  resolve_given, resolve_agent_organization,
}

-- What a position names.
abbrev pub named_authority : AuthorityPosition → AgentAuthority
named_authority p = record {
  boss = is_set p.is_company_boss;
  department_head = is_set p.is_company_boss || is_set p.is_department_head;
  staff = true;
  active = true;
}

-- The agent's row after the assignment.
pub record IsAssignedTo (value : OrganizationInput) (org : Organization) (p : AuthorityPosition)
    (a : AuthorityAgent) : Type 0 where
  pub position : a.position_id ≡ value.position_id
  pub department : a.department_id ≡ org.department_id
  pub company : (a.company_id == p.company_id) ≡ true
  pub at_work : (is_not_off a.is_active ≡ true) × (a.is_deleted ≡ false)

abbrev department_in : Resolution → Option ℕ
department_in (unresolved e) = none
department_in (resolved org) = org.department_id

join-department :
    (p : AuthorityPosition) (s : Supervisor) (org : Organization)
    → join p s ≡ resolved org
    → org.department_id ≡ department_for p
join-department p (no_supervisor e) org h = ground arith
join-department p (supervisor boss) org h = ap department_in (sym h)

-- A position that is found settles the department, and its rule the supervisor.
pub resolve-join :
    (dir : Directory) (company : ℕ) (value : OrganizationInput) (p : AuthorityPosition)
    → value.position_id ≡ some p.id
    → position_with dir company p.id ≡ some p
    → resolve_agent_organization dir company value ≡ join p (supervisor_for dir company value p)
unfolding resolve_agent_organization
resolve-join dir company value p e found =
    ap (resolve_given dir company value) e ∙ ap (resolve_position dir company value) found

position-department :
    (dir : Directory) (company : ℕ) (value : OrganizationInput) (org : Organization)
    (p : AuthorityPosition)
    → value.position_id ≡ some p.id
    → position_with dir company p.id ≡ some p
    → resolve_agent_organization dir company value ≡ resolved org
    → org.department_id ≡ department_for p
position-department dir company value org p e found h =
    join-department p (supervisor_for dir company value p) org
      (sym (resolve-join dir company value p e found) ∙ h)

same_refl : (x : Option ℕ) → same x x ≡ true
same_refl none = refl
same_refl (some x) = ==_refl x

boss_office-eq :
    (p : AuthorityPosition)
    → validate_position_role p ≡ none
    → is_boss_office p ≡ is_set p.is_company_boss
unfolding validate_position_role is_boss_office
boss_office-eq p h = ground arith

head_office-eq :
    (a : AuthorityAgent) (p : AuthorityPosition)
    → validate_position_role p ≡ none
    → same a.department_id p.default_department_id ≡ true
    → is_set p.is_company_boss ≡ false
    → is_head_office a p ≡ is_set p.is_department_head
unfolding validate_position_role is_head_office
head_office-eq a p h e staff = ground arith

in_office :
    (a : AuthorityAgent) (p : AuthorityPosition)
    → a.position_id ≡ some p.id
    → (a.company_id == p.company_id) ≡ true
    → (is_not_off a.is_active ≡ true) × (a.is_deleted ≡ false)
    → is_not_off p.is_active ≡ true
    → is_in_office a p ≡ true
unfolding is_in_office
in_office a p holds company (active, present) usable =
    let here : same a.position_id (some p.id) ≡ true = rw holds (==_refl p.id) in ground arith

office-eq :
    (a : AuthorityAgent) (p : AuthorityPosition)
    → validate_position_role p ≡ none
    → a.department_id ≡ department_for p
    → is_boss_office p || is_head_office a p
      ≡ is_set p.is_company_boss || is_set p.is_department_head
office-eq a p valid department = elim (Bool-cases (is_set p.is_company_boss)) [
  | inl boss ↦ rw boss (ground (arith, boss_office-eq p valid))
  | inr other ↦
      let in_department : a.department_id ≡ p.default_department_id = rw other at department in
      ground (
        arith,
        boss_office-eq p valid,
        head_office-eq a p valid (rw in_department (same_refl p.default_department_id)) other,
      )
]

-- Assigning an agent to an active position that passed the check of its role gives the agent exactly
-- the authority that the position names: a boss's, a department head's, or a staff member's.
pub resolve-agent_authority :
    (dir : Directory) (company : ℕ) (value : OrganizationInput) (org : Organization)
    (p : AuthorityPosition) (a : AuthorityAgent)
    → value.position_id ≡ some p.id
    → position_with dir company p.id ≡ some p
    → validate_position_role p ≡ none
    → is_not_off p.is_active ≡ true
    → resolve_agent_organization dir company value ≡ resolved org
    → IsAssignedTo value org p a
    → agent_authority (some a) (some p) ≡ named_authority p
unfolding agent_authority
resolve-agent_authority dir company value org p a e found valid usable h given =
    let department = given.department ∙ position-department dir company value org p e found h in
    rw (in_office a p (given.position ∙ e) given.company given.at_work usable) (
      ap
        (λ b. record {
          boss = b;
          department_head = is_boss_office p || is_head_office a p;
          staff = true;
          active = true;
        })
        (boss_office-eq p valid)
      ∙ ap
          (λ d. record {
            boss = is_set p.is_company_boss;
            department_head = d;
            staff = true;
            active = true;
          })
          (office-eq a p valid department))
