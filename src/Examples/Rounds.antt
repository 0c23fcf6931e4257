-- ===== src/Examples/Rounds.antt =====
-- A company of three departments, for the theorems on brainstorm rounds.
use megacorps.Prelude.{true, false, some, List, [], ◌∷◌, ◌≢◌, refl, arith}
use megacorps.Brainstorm.Plan.{
  BrainstormDepartment, BrainstormTarget, BrainstormPlanInput, planned, plan_brainstorm_targets,
  by_slug, address_head, address_department, address, targets_of, faults_of, right_errors,
  missing_of, minimum_errors, errors_before,
}
use megacorps.Brainstorm.Outcome.{
  IsSoundPlan, plan_brainstorm_targets-IsSoundPlan, plan_brainstorm_targets-own_minimum,
}

abbrev sales : BrainstormDepartment
sales = record { id = 1; slug = 10; head_agent_id = some 100 }

abbrev design : BrainstormDepartment
design = record { id = 2; slug = 20; head_agent_id = some 200 }

-- The boss, agent 300, asks sales and design; the client wants sales.
abbrev question : BrainstormPlanInput
question = record {
  requested = 10 ∷ 20 ∷ [];
  departments = sales ∷ design ∷ [];
  asker_id = 300;
  asker_is_company_boss = true;
  asker_is_department_head = false;
  is_owner = true;
  already_pending = false;
  client_minimum_ids = 1 ∷ [];
}

abbrev both_heads : List BrainstormTarget
both_heads =
    record { department = sales; head = 100 } ∷ record { department = design; head = 200 } ∷ []

plan_brainstorm_targets-IsSoundPlan_example : IsSoundPlan question both_heads
unfolding plan_brainstorm_targets by_slug address_head address_department address targets_of
    faults_of right_errors missing_of minimum_errors errors_before
plan_brainstorm_targets-IsSoundPlan_example =
    plan_brainstorm_targets-IsSoundPlan question both_heads refl

-- The same question, asked by the head of sales.
abbrev own_question : BrainstormPlanInput
own_question = record question {
  asker_id = 100;
  asker_is_company_boss = false;
  asker_is_department_head = true;
}

plan_brainstorm_targets-own_minimum_example :
    plan_brainstorm_targets own_question ≢ planned (record { department = design; head = 200 } ∷ [])
plan_brainstorm_targets-own_minimum_example =
    plan_brainstorm_targets-own_minimum own_question 1
      (record { department = design; head = 200 } ∷ []) refl (λ e. refl, (λ e. ground arith, tt))
