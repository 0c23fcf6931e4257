-- ===== src/Splitting/Plan.antt =====
-- card-splitting.ts `evaluateSplitPlan`. Slugs and identifiers are numbers, indexes are natural
-- numbers, as the request's schema has them; an error is its name with what it tells apart.
use megacorps.Prelude.{
  error_if, ℕ, suc, ◌+◌, Bool, true, false, Option, none, some, List, [], ◌∷◌, ◌++◌, ◌&&◌, not,
  keep, is_empty, get_or, if◌then◌else◌, ltb, leb, ◌==◌, length, Text, text, text_eq,
}
use megacorps.Splitting.Cycles.{Edges, has_dependency_cycle}

abbrev pub split_hard_fanout_cap : ℕ
split_hard_fanout_cap = 5

abbrev pub split_max_rounds : ℕ
split_max_rounds = 3

pub record SplitAgentRef : Type 0 where
  pub id : ℕ
  pub slug : ℕ
  pub department_id : Option ℕ

pub record SplitContext : Type 0 where
  pub split_round : ℕ
  pub decision_mode : Option Text
  pub splitter : SplitAgentRef
  pub splitter_is_company_boss : Bool
  pub direct_reports : List SplitAgentRef
  pub resolve_agent : ℕ → Option SplitAgentRef
  pub live_children : ℕ
  pub max_children_per_card : Option ℕ
  pub max_rounds : Option ℕ

-- `AgentReportChild`, with what a plan reads of it.
pub record SplitChild : Type 0 where
  pub body : Text
  pub assignee_slug : ℕ
  pub reviewer_slug : Option ℕ
  pub depends_on : Option (List ℕ)

pub record SplitCandidate : Type 0 where
  pub index : ℕ
  pub child : SplitChild
  pub assignee : SplitAgentRef
  pub reviewer : SplitAgentRef
  pub depends_on : List ℕ

pub data SplitError : Type 0 where
  split_empty forbidden_solo round_in_progress rounds_exhausted no_direct_reports : SplitError
  missing_acceptance not_direct_report reviewer_unknown reviewer_is_assignee department_missing :
      ℕ → SplitError
  department_duplicate : (prior index : ℕ) → SplitError
  fanout_exceeded dependency_cycle : SplitError
  dependency_invalid : (index : ℕ) → List ℕ → SplitError

pub data SplitEvaluation : Type 0 where
  accepted : List SplitCandidate → (round : ℕ) → SplitEvaluation
  rejected : List SplitError → SplitEvaluation

-- `Math.min(5, Math.max(1, Math.trunc(configured ?? 3)))`.
unfoldable pub effective_fanout_cap : Option ℕ → ℕ
effective_fanout_cap configured =
    let value = get_or configured 3 in
    let floor = if ltb value 1 then 1 else value in
    if ltb split_hard_fanout_cap floor then split_hard_fanout_cap else floor

-- `reportBySlug`: a later report with the same slug takes the earlier one's place.
abbrev pub last_or : Option SplitAgentRef → Option SplitAgentRef → Option SplitAgentRef
last_or none r = r
last_or (some later) r = some later

unfoldable pub report_by_slug : List SplitAgentRef → ℕ → Option SplitAgentRef
report_by_slug [] slug = none
report_by_slug (r ∷ rest) slug =
    last_or (report_by_slug rest slug) (if r.slug == slug then some r else none)

unfoldable pub context_errors : SplitContext → List SplitError
context_errors ctx =
    error_if (text_eq (get_or ctx.decision_mode (text "auto")) (text "solo")) forbidden_solo
    ++ (error_if (ltb 0 ctx.live_children) round_in_progress
        ++ (error_if (leb (get_or ctx.max_rounds split_max_rounds) ctx.split_round) rounds_exhausted
            ++ error_if (is_empty ctx.direct_reports) no_direct_reports))

-- `seenDepartments`: the department and the index of the child that took it.
abbrev pub Seen : Type 0
Seen = List (ℕ × ℕ)

unfoldable pub prior_index : Seen → ℕ → Option ℕ
prior_index [] d = none
prior_index (s ∷ rest) d = if s.0 == d then some s.1 else prior_index rest d

-- What the loop makes of one child: an error, or a candidate, with the department that it takes.
pub data Assessment : Type 0 where
  fault : SplitError → Assessment
  candidate : SplitCandidate → Option ℕ → Assessment

abbrev pub reviewer_of : SplitContext → Option ℕ → Option SplitAgentRef
reviewer_of ctx none = some ctx.splitter
reviewer_of ctx (some slug) = ctx.resolve_agent slug

unfoldable pub draft : ℕ → SplitChild → SplitAgentRef → SplitAgentRef → SplitCandidate
draft index child assignee reviewer = record {
  index = index;
  child = child;
  assignee = assignee;
  reviewer = reviewer;
  depends_on = keep (λ dep. not (dep == index)) (get_or child.depends_on []);
}

unfoldable pub by_prior : ℕ → SplitCandidate → ℕ → Option ℕ → Assessment
by_prior index c d none = candidate c (some d)
by_prior index c d (some prior) = fault (department_duplicate prior index)

unfoldable pub by_department : Seen → ℕ → SplitCandidate → Option ℕ → Assessment
by_department seen index c none = fault (department_missing index)
by_department seen index c (some d) = by_prior index c d (prior_index seen d)

-- A company boss splits by department.
unfoldable pub by_role : Seen → ℕ → SplitCandidate → (boss : Bool) → Assessment
by_role seen index c true = by_department seen index c c.assignee.department_id
by_role seen index c false = candidate c none

unfoldable pub by_reviewer :
    SplitContext → Seen → ℕ → SplitChild → SplitAgentRef → Option SplitAgentRef → Assessment
by_reviewer ctx seen index child assignee none = fault (reviewer_unknown index)
by_reviewer ctx seen index child assignee (some reviewer) =
    if reviewer.id == assignee.id
    then fault (reviewer_is_assignee index)
    else by_role seen index (draft index child assignee reviewer) ctx.splitter_is_company_boss

unfoldable pub by_assignee :
    SplitContext → Seen → ℕ → SplitChild → Option SplitAgentRef → Assessment
by_assignee ctx seen index child none = fault (not_direct_report index)
by_assignee ctx seen index child (some assignee) =
    by_reviewer ctx seen index child assignee (reviewer_of ctx child.reviewer_slug)

unfoldable pub assess : SplitContext → Seen → ℕ → SplitChild → Assessment
assess ctx seen index child =
    by_assignee ctx seen index child (report_by_slug ctx.direct_reports child.assignee_slug)

abbrev pub seen_after : Assessment → ℕ → Seen → Seen
seen_after (fault e) index seen = seen
seen_after (candidate c none) index seen = seen
seen_after (candidate c (some d)) index seen = (d, index) ∷ seen

abbrev pub fault_of : Assessment → List SplitError
fault_of (fault e) = e ∷ []
fault_of (candidate c d) = []

abbrev pub candidate_of : Assessment → List SplitCandidate
candidate_of (fault e) = []
candidate_of (candidate c d) = c ∷ []

-- The state of the loop, seen from its end: the errors and the candidates.
pub record Drafts : Type 0 where
  pub errors : List SplitError
  pub candidates : List SplitCandidate

unfoldable pub edges_of : List SplitCandidate → Edges
edges_of [] = []
edges_of (c ∷ rest) = (c.index, c.depends_on) ∷ edges_of rest

unfoldable pub invalid_dependencies : ℕ → List SplitCandidate → List SplitError
invalid_dependencies count [] = []
invalid_dependencies count (c ∷ rest) =
    let invalid = keep (λ dep. leb count dep) c.depends_on in
    error_if (not (is_empty invalid)) (dependency_invalid c.index invalid)
    ++ invalid_dependencies count rest

abbrev pub cycle_found : Option Bool → Bool
cycle_found (some b) = b
cycle_found none = false

unfoldable pub fanout_errors : SplitContext → ℕ → List SplitError
fanout_errors ctx count =
    error_if
      (not ctx.splitter_is_company_boss
        && ltb (effective_fanout_cap ctx.max_children_per_card) count)
      fanout_exceeded

abbrev pub evaluation : SplitContext → List SplitCandidate → List SplitError → SplitEvaluation
evaluation ctx candidates [] = accepted candidates (ctx.split_round + 1)
evaluation ctx candidates (e ∷ more) = rejected (e ∷ more)

module _ (has_acceptance : Text → Bool) where
  -- `children.forEach`.
  unfoldable pub drafts : SplitContext → ℕ → Seen → List SplitChild → Drafts
  drafts ctx index seen [] = record { errors = []; candidates = [] }
  drafts ctx index seen (child ∷ rest) =
      let found = assess ctx seen index child in
      let later = drafts ctx (suc index) (seen_after found index seen) rest in
      record {
        errors =
            error_if (not (has_acceptance child.body)) (missing_acceptance index)
            ++ (fault_of found ++ later.errors);
        candidates = candidate_of found ++ later.candidates;
      }

  unfoldable pub plan_errors : SplitContext → List SplitChild → Drafts → List SplitError
  plan_errors ctx children d =
      context_errors ctx
      ++ (d.errors
          ++ (fanout_errors ctx (length children)
              ++ (invalid_dependencies (length children) d.candidates
                  ++ error_if (cycle_found (has_dependency_cycle (edges_of d.candidates)))
                      dependency_cycle)))

  unfoldable pub evaluate_split_plan : SplitContext → List SplitChild → SplitEvaluation
  evaluate_split_plan ctx [] = rejected (split_empty ∷ [])
  evaluate_split_plan ctx (child ∷ rest) =
      let d = drafts ctx 0 [] (child ∷ rest) in
      evaluation ctx d.candidates (plan_errors ctx (child ∷ rest) d)
