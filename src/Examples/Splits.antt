-- ===== src/Examples/Splits.antt =====
-- A splitter with two reports, who splits a card in two children.
use megacorps.Prelude.{
  ℕ, Bool, true, false, none, some, List, [], ◌∷◌, ◌≡◌, ◌↔◌, refl, Text, text, not, is_empty, ◌==◌,
  if◌then◌else◌,
}
use megacorps.Splitting.Cycles.{Edges, targets, keys, visit_each, visit, has_dependency_cycle}
use megacorps.Splitting.Acyclic.{LeadsTo}
use megacorps.Splitting.Decides.{has_dependency_cycle-LeadsTo}
use megacorps.Splitting.Plan.{
  SplitAgentRef, SplitContext, SplitChild, SplitCandidate, accepted, effective_fanout_cap,
  report_by_slug, context_errors, draft, by_reviewer, by_role, by_assignee, assess, edges_of,
  invalid_dependencies, fanout_errors, drafts, plan_errors, evaluate_split_plan,
}
use megacorps.Splitting.Sound.{IsSoundSplit, evaluate_split_plan-IsSoundSplit}

-- Two children that wait for each other.
abbrev waits : Edges
waits = (0, 1 ∷ []) ∷ (1, 0 ∷ []) ∷ []

has_dependency_cycle-LeadsTo_example :
    ((b : Bool) × (has_dependency_cycle waits ≡ some b))
    × ((has_dependency_cycle waits ≡ some true) ↔ ((a : ℕ) × LeadsTo waits a a))
has_dependency_cycle-LeadsTo_example = has_dependency_cycle-LeadsTo waits

abbrev lead : SplitAgentRef
lead = record { id = 1; slug = 10; department_id = some 5 }

abbrev ann : SplitAgentRef
ann = record { id = 2; slug = 20; department_id = some 5 }

abbrev bob : SplitAgentRef
bob = record { id = 3; slug = 30; department_id = some 5 }

abbrev team : SplitContext
team = record {
  split_round = 1;
  decision_mode = none;
  splitter = lead;
  splitter_is_company_boss = false;
  direct_reports = ann ∷ bob ∷ [];
  resolve_agent = λ slug. if slug == 30 then some bob else none;
  live_children = 0;
  max_children_per_card = none;
  max_rounds = none;
}

abbrev build : SplitChild
build = record {
  body = text "Build it. Acceptance: it runs";
  assignee_slug = 20;
  reviewer_slug = some 30;
  depends_on = none;
}

abbrev check : SplitChild
check = record {
  body = text "Check it. Acceptance: a report";
  assignee_slug = 30;
  reviewer_slug = none;
  depends_on = some (0 ∷ 1 ∷ []);
}

-- A stand-in for the reader of the brief: any text has its criteria.
abbrev any_text : Text → Bool
any_text body = not (is_empty body)

abbrev two_parts : List SplitCandidate
two_parts =
    record { index = 0; child = build; assignee = ann; reviewer = bob; depends_on = [] }
    ∷ record { index = 1; child = check; assignee = bob; reviewer = lead; depends_on = 0 ∷ [] }
    ∷ []

team_splits : evaluate_split_plan any_text team (build ∷ check ∷ []) ≡ accepted two_parts 2
unfolding evaluate_split_plan plan_errors drafts fanout_errors invalid_dependencies edges_of assess
    by_assignee by_reviewer by_role draft context_errors report_by_slug effective_fanout_cap
    has_dependency_cycle visit visit_each keys targets
team_splits = refl

evaluate_split_plan-IsSoundSplit_example :
    IsSoundSplit any_text team (build ∷ check ∷ []) two_parts 2
evaluate_split_plan-IsSoundSplit_example =
    evaluate_split_plan-IsSoundSplit any_text team (build ∷ check ∷ []) two_parts 2 team_splits
