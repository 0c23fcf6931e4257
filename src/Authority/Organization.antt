-- ===== src/Authority/Organization.antt =====
-- position-authority.ts `resolveAgentOrganization`, on the rows that the database holds. A value that
-- is not given is `none`, like one that is null.
use megacorps.Prelude.{
  ℕ, Bool, false, Option, none, some, List, [], ◌∷◌, ◌&&◌, not, any, find, keep, if◌then◌else◌,
  ◌==◌, same, is_some,
}
use megacorps.Authority.Roles.{AuthorityAgent, AuthorityPosition, is_set, is_not_off}

pub record OrganizationInput : Type 0 where
  pub id : Option ℕ
  pub position_id : Option ℕ
  pub department_id : Option ℕ
  pub boss_id : Option ℕ
  pub is_active : Option Bool
  pub is_deleted : Bool
  pub auto_select : Bool
  pub reset_ineligible_boss : Bool

pub record Organization : Type 0 where
  pub department_id : Option ℕ
  pub boss_id : Option ℕ

pub data OrganizationError : Type 0 where
  position_company_mismatch boss_required supervisor_ineligible supervisor_choice_required :
      OrganizationError

pub data Resolution : Type 0 where
  unresolved : OrganizationError → Resolution
  resolved : Organization → Resolution

-- The supervisor alone, before the department joins it.
pub data Supervisor : Type 0 where
  no_supervisor : OrganizationError → Supervisor
  supervisor : Option ℕ → Supervisor

-- The tables, as one query sees them.
pub record Directory : Type 0 where
  pub positions : List AuthorityPosition
  pub agents : List AuthorityAgent

unfoldable pub position_with : Directory → ℕ → ℕ → Option AuthorityPosition
position_with dir company id =
    find (λ (p : AuthorityPosition). p.id == id && p.company_id == company) dir.positions

-- An agent of the company that is not deleted and not switched off.
unfoldable pub is_member : ℕ → AuthorityAgent → Bool
is_member company a = a.company_id == company && (not a.is_deleted && is_not_off a.is_active)

unfoldable pub holds_boss_role : Directory → ℕ → AuthorityAgent → Bool
holds_boss_role dir company a =
    any
      (λ (role : AuthorityPosition).
        role.company_id == company
        && (same (some role.id) a.position_id
            && (is_set role.is_company_boss && is_not_off role.is_active)))
      dir.positions

unfoldable pub company_boss : Directory → ℕ → Option AuthorityAgent
company_boss dir company =
    find (λ (a : AuthorityAgent). is_member company a && holds_boss_role dir company a) dir.agents

abbrev pub id_of : Option AuthorityAgent → Option ℕ
id_of none = none
id_of (some a) = some a.id

-- The agent is, or will be, at work.
unfoldable pub is_working : OrganizationInput → Bool
is_working value = is_not_off value.is_active && not value.is_deleted

unfoldable pub head_supervisor :
    Directory → ℕ → OrganizationInput → Option AuthorityAgent → Supervisor
head_supervisor dir company value boss =
    if not (is_some boss) && is_working value
    then no_supervisor boss_required
    else supervisor (id_of boss)

unfoldable pub is_candidate : ℕ → OrganizationInput → ℕ → AuthorityAgent → Bool
is_candidate company value manager a =
    is_member company a && (same a.position_id (some manager) && not (same (some a.id) value.id))

abbrev pub holders :
    Directory → ℕ → OrganizationInput → Option AuthorityPosition → List AuthorityAgent
holders dir company value none = []
holders dir company value (some manager) =
    if is_not_off manager.is_active
    then keep (is_candidate company value manager.id) dir.agents
    else []

abbrev pub manager_of : Directory → ℕ → Option ℕ → Option AuthorityPosition
manager_of dir company none = none
manager_of dir company (some id) = position_with dir company id

unfoldable pub supervisors :
    Directory → ℕ → OrganizationInput → AuthorityPosition → List AuthorityAgent
supervisors dir company value position =
    holders dir company value (manager_of dir company position.manager_position_id)

abbrev pub is_among : Option ℕ → List AuthorityAgent → Bool
is_among none agents = false
is_among (some id) agents = any (λ (a : AuthorityAgent). a.id == id) agents

abbrev pub only_one : List AuthorityAgent → Supervisor
only_one [] = supervisor none
only_one (a ∷ []) = supervisor (some a.id)
only_one (a ∷ b ∷ rest) = no_supervisor supervisor_choice_required

-- Without a supervisor: the only candidate, where one is to be selected.
unfoldable pub select_supervisor : OrganizationInput → List AuthorityAgent → Supervisor
select_supervisor value candidates =
    if value.auto_select && is_working value then only_one candidates else supervisor none

unfoldable pub staff_supervisor : OrganizationInput → List AuthorityAgent → Option ℕ → Supervisor
staff_supervisor value candidates none = select_supervisor value candidates
staff_supervisor value candidates (some id) =
    if is_among (some id) candidates
    then supervisor (some id)
    else if value.reset_ineligible_boss
    then select_supervisor value candidates
    else no_supervisor supervisor_ineligible

unfoldable pub supervisor_for : Directory → ℕ → OrganizationInput → AuthorityPosition → Supervisor
supervisor_for dir company value position =
    if is_set position.is_department_head
    then head_supervisor dir company value (company_boss dir company)
    else if is_set position.is_company_boss
    then supervisor none
    else staff_supervisor value (supervisors dir company value position) value.boss_id

abbrev pub department_for : AuthorityPosition → Option ℕ
department_for position =
    if is_set position.is_company_boss then none else position.default_department_id

abbrev pub join : AuthorityPosition → Supervisor → Resolution
join position (no_supervisor e) = unresolved e
join position (supervisor boss) =
    resolved (record { department_id = department_for position; boss_id = boss })

abbrev pub resolve_position :
    Directory → ℕ → OrganizationInput → Option AuthorityPosition → Resolution
resolve_position dir company value none = unresolved position_company_mismatch
resolve_position dir company value (some position) =
    join position (supervisor_for dir company value position)

abbrev pub resolve_given : Directory → ℕ → OrganizationInput → Option ℕ → Resolution
resolve_given dir company value none =
    resolved (record { department_id = value.department_id; boss_id = value.boss_id })
resolve_given dir company value (some id) =
    resolve_position dir company value (position_with dir company id)

unfoldable pub resolve_agent_organization : Directory → ℕ → OrganizationInput → Resolution
resolve_agent_organization dir company value = resolve_given dir company value value.position_id
