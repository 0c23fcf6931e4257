-- ===== src/Brainstorm/Plan.antt =====
-- brainstorm.ts: `planBrainstormTargets` and `brainstormRoundComplete`. Slugs and identifiers are
-- numbers, times are in milliseconds; a message is the error's name with what it tells apart.
use megacorps.Prelude.{
  error_if, ◌+◌, ℕ, ◌*◌, Bool, false, Option, none, some, List, [], ◌∷◌, ◌++◌, ◌||◌, not, keep,
  is_empty, if◌then◌else◌, leb, ◌==◌, contains,
}
use megacorps.Recovery.Store.{RunStatus, is_live_run}

pub record BrainstormDepartment : Type 0 where
  pub id : ℕ
  pub slug : ℕ
  pub head_agent_id : Option ℕ

pub record BrainstormTarget : Type 0 where
  pub department : BrainstormDepartment
  pub head : ℕ

pub record BrainstormPlanInput : Type 0 where
  pub requested : List ℕ
  pub departments : List BrainstormDepartment
  pub asker_id : ℕ
  pub asker_is_company_boss : Bool
  pub asker_is_department_head : Bool
  pub is_owner : Bool
  pub already_pending : Bool
  pub client_minimum_ids : List ℕ

pub data BrainstormError : Type 0 where
  not_owner not_allowed round_in_progress no_targets : BrainstormError
  department_unknown department_headless : ℕ → BrainstormError
  client_minimum : List ℕ → BrainstormError

pub data BrainstormPlan : Type 0 where
  planned : List BrainstormTarget → BrainstormPlan
  refused : List BrainstormError → BrainstormPlan

-- `bySlug`: a later department with the same slug takes the earlier one's place.
abbrev pub later_or :
    Option BrainstormDepartment → Option BrainstormDepartment → Option BrainstormDepartment
later_or none d = d
later_or (some e) d = some e

unfoldable pub by_slug : List BrainstormDepartment → ℕ → Option BrainstormDepartment
by_slug [] slug = none
by_slug (d ∷ rest) slug = later_or (by_slug rest slug) (if d.slug == slug then some d else none)

-- One requested department: a target, an error, or the asker's own, which is skipped.
pub data Addressed : Type 0 where
  target : BrainstormTarget → Addressed
  fault : BrainstormError → Addressed
  own : Addressed

unfoldable pub address_head : ℕ → ℕ → BrainstormDepartment → Option ℕ → Addressed
address_head asker slug d none = fault (department_headless slug)
address_head asker slug d (some head) =
    if head == asker then own else target (record { department = d; head = head })

unfoldable pub address_department : ℕ → ℕ → Option BrainstormDepartment → Addressed
address_department asker slug none = fault (department_unknown slug)
address_department asker slug (some d) = address_head asker slug d d.head_agent_id

unfoldable pub address : BrainstormPlanInput → ℕ → Addressed
address input slug = address_department input.asker_id slug (by_slug input.departments slug)

abbrev pub add_target : Addressed → List BrainstormTarget → List BrainstormTarget
add_target (target t) rest = t ∷ rest
add_target _ rest = rest

abbrev pub add_fault : Addressed → List BrainstormError → List BrainstormError
add_fault (fault e) rest = e ∷ rest
add_fault _ rest = rest

unfoldable pub targets_of : BrainstormPlanInput → List ℕ → List BrainstormTarget
targets_of input [] = []
targets_of input (slug ∷ rest) = add_target (address input slug) (targets_of input rest)

unfoldable pub faults_of : BrainstormPlanInput → List ℕ → List BrainstormError
faults_of input [] = []
faults_of input (slug ∷ rest) = add_fault (address input slug) (faults_of input rest)

unfoldable pub right_errors : BrainstormPlanInput → List BrainstormError
right_errors input =
    error_if (not input.is_owner) not_owner
    ++ (error_if (not (input.asker_is_company_boss || input.asker_is_department_head)) not_allowed
        ++ error_if input.already_pending round_in_progress)

abbrev pub covered : List BrainstormTarget → List ℕ
covered [] = []
covered (t ∷ rest) = t.department.id ∷ covered rest

unfoldable pub missing_of : BrainstormPlanInput → List BrainstormTarget → List ℕ
missing_of input targets = keep (λ id. not (contains (covered targets) id)) input.client_minimum_ids

unfoldable pub minimum_errors : List ℕ → List BrainstormError
minimum_errors missing = error_if (not (is_empty missing)) (client_minimum missing)

unfoldable pub errors_before : BrainstormPlanInput → List BrainstormError
errors_before input =
    right_errors input
    ++ (faults_of input input.requested
        ++ minimum_errors (missing_of input (targets_of input input.requested)))

abbrev pub plan_of : List BrainstormTarget → List BrainstormError → BrainstormPlan
plan_of targets (e ∷ more) = refused (e ∷ more)
plan_of [] [] = refused (no_targets ∷ [])
plan_of (t ∷ rest) [] = planned (t ∷ rest)

unfoldable pub plan_brainstorm_targets : BrainstormPlanInput → BrainstormPlan
plan_brainstorm_targets input = plan_of (targets_of input input.requested) (errors_before input)

pub data RoundEnd : Type 0 where
  all_answered timeout : RoundEnd

abbrev live_status : Option RunStatus → Bool
live_status none = false
live_status (some s) = is_live_run s

-- `none` is a round that goes on. The difference of the two times is moved to one side, where it
-- cannot be negative.
unfoldable pub brainstorm_round_complete :
    List (Option RunStatus) → (opened_at now timeout_minutes : ℕ) → Option RoundEnd
brainstorm_round_complete statuses opened_at now timeout_minutes =
    if is_empty (keep live_status statuses)
    then some all_answered
    else if leb (opened_at + timeout_minutes * 60000) now
    then some timeout
    else none
