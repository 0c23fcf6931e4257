-- ===== src/Examples/Offices.antt =====
-- A new developer, who gets a staff position below the head of development.
use megacorps.Prelude.{true, false, none, some, [], ◌∷◌, ◌≡◌, refl}
use megacorps.Authority.Roles.{
  AuthorityAgent, AuthorityPosition, agent_authority, validate_position_role,
}
use megacorps.Authority.Organization.{
  OrganizationInput, Organization, Directory, resolved, position_with, is_member, is_working,
  is_candidate, supervisors, select_supervisor, staff_supervisor, supervisor_for,
  resolve_agent_organization,
}
use megacorps.Authority.Granted.{named_authority, resolve-agent_authority}
use megacorps.Authority.Supervised.{IsSupervised, resolve-IsSupervised}

abbrev lead_position : AuthorityPosition
lead_position = record {
  id = 50;
  company_id = 8;
  rank = 1;
  is_company_boss = some false;
  is_department_head = some true;
  is_company_leadership = none;
  is_active = some true;
  default_department_id = some 6;
  manager_position_id = none;
}

abbrev developer : AuthorityPosition
developer = record {
  id = 51;
  company_id = 8;
  rank = 3;
  is_company_boss = none;
  is_department_head = some false;
  is_company_leadership = none;
  is_active = none;
  default_department_id = some 6;
  manager_position_id = some 50;
}

abbrev lead : AuthorityAgent
lead = record {
  id = 2;
  company_id = 8;
  position_id = some 50;
  department_id = some 6;
  is_active = some true;
  is_deleted = false;
}

abbrev firm : Directory
firm = record { positions = lead_position ∷ developer ∷ []; agents = lead ∷ [] }

abbrev hire : OrganizationInput
hire = record {
  id = none;
  position_id = some 51;
  department_id = none;
  boss_id = none;
  is_active = none;
  is_deleted = false;
  auto_select = true;
  reset_ineligible_boss = false;
}

abbrev placed : Organization
placed = record { department_id = some 6; boss_id = some 2 }

abbrev hired : AuthorityAgent
hired = record {
  id = 9;
  company_id = 8;
  position_id = some 51;
  department_id = some 6;
  is_active = none;
  is_deleted = false;
}

developer_is_found : position_with firm 8 51 ≡ some developer
unfolding position_with
developer_is_found = refl

developer_is_valid : validate_position_role developer ≡ none
unfolding validate_position_role
developer_is_valid = refl

hire_is_placed : resolve_agent_organization firm 8 hire ≡ resolved placed
unfolding resolve_agent_organization position_with supervisor_for supervisors is_candidate is_member
    staff_supervisor select_supervisor is_working
hire_is_placed = refl

resolve-agent_authority_example :
    agent_authority (some hired) (some developer) ≡ named_authority developer
resolve-agent_authority_example =
    resolve-agent_authority firm 8 hire placed developer hired refl developer_is_found
      developer_is_valid refl hire_is_placed
      (record { position = refl; department = refl; company = refl; at_work = (refl, refl) })

resolve-IsSupervised_example : IsSupervised firm 8 hire developer (some 2)
resolve-IsSupervised_example =
    resolve-IsSupervised firm 8 hire placed developer refl developer_is_found hire_is_placed
