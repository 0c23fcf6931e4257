-- ===== src/Authority/Roles.antt =====
-- agent-authority.ts, and `validatePositionRole` of position-authority.ts. The rank is a natural number.
use megacorps.Prelude.{
  ℕ, Bool, true, false, Option, none, some, ◌&&◌, ◌||◌, not, if◌then◌else◌, ltb, ◌==◌, same,
  is_some,
}

pub record AuthorityAgent : Type 0 where
  pub id : ℕ
  pub company_id : ℕ
  pub position_id : Option ℕ
  pub department_id : Option ℕ
  pub is_active : Option Bool
  pub is_deleted : Bool

-- A row of the positions, with what the rules of both files read.
pub record AuthorityPosition : Type 0 where
  pub id : ℕ
  pub company_id : ℕ
  pub rank : ℕ
  pub is_company_boss : Option Bool
  pub is_department_head : Option Bool
  pub is_company_leadership : Option Bool
  pub is_active : Option Bool
  pub default_department_id : Option ℕ
  pub manager_position_id : Option ℕ

pub record AgentAuthority : Type 0 where
  pub boss : Bool
  pub department_head : Bool
  pub staff : Bool
  pub active : Bool

-- `value === true`, which a flag's truth value is as well.
abbrev pub is_set : Option Bool → Bool
is_set (some true) = true
is_set _ = false

-- `value !== false`.
abbrev pub is_not_off : Option Bool → Bool
is_not_off (some false) = false
is_not_off _ = true

abbrev pub inactive_authority : AgentAuthority
inactive_authority = record { boss = false; department_head = false; staff = false; active = false }

unfoldable pub is_in_office : AuthorityAgent → AuthorityPosition → Bool
is_in_office agent position =
    is_not_off agent.is_active
    && (not agent.is_deleted
        && (is_not_off position.is_active
            && (same agent.position_id (some position.id)
                && agent.company_id == position.company_id)))

unfoldable pub is_boss_office : AuthorityPosition → Bool
is_boss_office position =
    is_set position.is_company_boss
    && (not (is_set position.is_department_head)
        && (position.rank == 0 && not (is_some position.default_department_id)))

unfoldable pub is_head_office : AuthorityAgent → AuthorityPosition → Bool
is_head_office agent position =
    not (is_set position.is_company_boss)
    && (is_set position.is_department_head
        && (position.rank == 1
            && (is_some position.default_department_id
                && same agent.department_id position.default_department_id)))

abbrev pub granted : AuthorityAgent → AuthorityPosition → AgentAuthority
granted agent position =
    if is_in_office agent position
    then record {
      boss = is_boss_office position;
      department_head = is_boss_office position || is_head_office agent position;
      staff = true;
      active = true;
    }
    else inactive_authority

unfoldable pub agent_authority : Option AuthorityAgent → Option AuthorityPosition → AgentAuthority
agent_authority (some agent) (some position) = granted agent position
agent_authority _ _ = inactive_authority

pub data PositionError : Type 0 where
  boss_position_invalid head_position_invalid staff_position_invalid : PositionError

-- `none` when nothing is thrown.
unfoldable pub validate_position_role : AuthorityPosition → Option PositionError
validate_position_role value =
    let department = is_some value.default_department_id in
    if is_set value.is_company_boss
    then if is_set value.is_department_head
        || (not (value.rank == 0) || (department || is_some value.manager_position_id))
      then some boss_position_invalid
      else none
    else if is_set value.is_department_head
    then if is_set value.is_company_leadership || (not (value.rank == 1) || not department)
      then some head_position_invalid
      else none
    else if ltb value.rank 2
        || (ltb 9 value.rank
            || (if is_set value.is_company_leadership then department else not department))
    then some staff_position_invalid
    else none
