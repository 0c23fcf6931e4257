-- ===== src/Children/Policy.antt =====
-- dispatch.ts: `completionStatusForQualityGate`, `childCompletionPolicySatisfied` and
-- `blockingChildrenForPolicy`. A weight is a decimal with two places, kept here in hundredths; the
-- floating point numbers that the source adds and compares are those of the platform, a parameter.
use megacorps.Prelude.{
  ℕ, Bool, true, false, Option, none, some, List, [], ◌∷◌, ◌&&◌, ◌||◌, not, all, keep, is_empty,
  is_some, if◌then◌else◌, ltb, Text,
}
use megacorps.Workflow.Status.{CardStatus, done, in_review, cancelled, status_eq}

-- A requested status: one of the card statuses, or the word `success`.
pub data RequestedStatus : Type 0 where
  success : RequestedStatus
  status : CardStatus → RequestedStatus

unfoldable pub completion_status_for_quality_gate : RequestedStatus → Option ℕ → CardStatus
completion_status_for_quality_gate success reviewer = if is_some reviewer then in_review else done
completion_status_for_quality_gate (status done) reviewer =
    if is_some reviewer then in_review else done
completion_status_for_quality_gate (status in_review) reviewer =
    if is_some reviewer then in_review else done
completion_status_for_quality_gate (status s) reviewer = s

-- `requiredChildPolicy`; `manual`, and any other text, is handled as the default is.
pub data ChildPolicy : Type 0 where
  all_required_accepted all_non_cancelled_accepted threshold manual : ChildPolicy

pub data RequirementLevel : Type 0 where
  required optional follow_up : RequirementLevel

pub record ChildRow : Type 0 where
  pub title : Text
  pub column_status : Option CardStatus
  pub child_requirement_level : Option RequirementLevel
  pub estimated_weight : Option ℕ

abbrev pub positive_or_one : ℕ → ℕ
positive_or_one w = if ltb 0 w then w else 100

unfoldable pub child_weight : Option ℕ → ℕ
child_weight none = 100
child_weight (some w) = positive_or_one w

abbrev pub status_is : CardStatus → Option CardStatus → Bool
status_is s none = false
status_is s (some t) = status_eq t s

unfoldable pub child_is_done : ChildRow → Bool
child_is_done c = status_is done c.column_status

unfoldable pub child_can_be_ignored : ChildRow → Bool
child_can_be_ignored c = status_is cancelled c.column_status

abbrev pub is_required_level : Option RequirementLevel → Bool
is_required_level none = true
is_required_level (some required) = true
is_required_level (some _) = false

unfoldable pub child_is_required : ChildRow → Bool
child_is_required c = is_required_level c.child_requirement_level

-- The platform's floating point numbers, as far as the sums use them: `Number` of a decimal with two
-- places, `+`, `* 0.8` and `>=`.
pub record Doubles : Type 1 where
  pub Double : Type 0
  pub of_hundredths : ℕ → Double
  pub plus : Double → Double → Double
  pub four_fifths : Double → Double
  pub at_least : Double → Double → Bool

-- `children.reduce((sum, child) => sum + weight(child), sum)`.
unfoldable pub total_weight : (d : Doubles) → d.Double → List ChildRow → d.Double
total_weight d sum [] = sum
total_weight d sum (c ∷ rest) =
    total_weight d (d.plus sum (d.of_hundredths (child_weight c.estimated_weight))) rest

unfoldable pub done_weight : (d : Doubles) → d.Double → List ChildRow → d.Double
done_weight d sum [] = sum
done_weight d sum (c ∷ rest) =
    done_weight d
      (d.plus sum
        (d.of_hundredths (if child_is_done c then child_weight c.estimated_weight else 0)))
      rest

abbrev pub done_or_ignored : ChildRow → Bool
done_or_ignored c = child_is_done c || child_can_be_ignored c

abbrev pub not_ignored : ChildRow → Bool
not_ignored c = not (child_can_be_ignored c)

abbrev pub unfinished : ChildRow → Bool
unfinished c = not (child_is_done c)

abbrev pub policy_of : Option ChildPolicy → ChildPolicy
policy_of none = all_required_accepted
policy_of (some p) = p

-- The default: the required children, or every child when none is required.
unfoldable pub required_satisfied : List ChildRow → Bool
required_satisfied children =
    let needed = keep child_is_required children in
    if is_empty needed then all done_or_ignored children else all child_is_done needed

abbrev pub satisfied_by : Doubles → ChildPolicy → List ChildRow → Bool
satisfied_by d all_non_cancelled_accepted children = all child_is_done (keep not_ignored children)
satisfied_by d threshold children =
    let none_yet = d.of_hundredths 0 in
    d.at_least (done_weight d none_yet children) (d.four_fifths (total_weight d none_yet children))
satisfied_by d all_required_accepted children = required_satisfied children
satisfied_by d manual children = required_satisfied children

unfoldable pub child_completion_policy_satisfied :
    Doubles → Option ChildPolicy → List ChildRow → Bool
child_completion_policy_satisfied d policy [] = true
child_completion_policy_satisfied d policy (c ∷ rest) = satisfied_by d (policy_of policy) (c ∷ rest)

unfoldable pub required_blocking : List ChildRow → List ChildRow
required_blocking children =
    let needed = keep child_is_required children in
    if is_empty needed
    then keep (λ c. unfinished c && not_ignored c) children
    else keep unfinished needed

abbrev pub blocking_by : ChildPolicy → List ChildRow → List ChildRow
blocking_by all_non_cancelled_accepted children = keep (λ c. not_ignored c && unfinished c) children
blocking_by threshold children = keep unfinished children
blocking_by _ children = required_blocking children

unfoldable pub blocking_children_for_policy :
    Doubles → Option ChildPolicy → List ChildRow → List ChildRow
blocking_children_for_policy d policy children =
    if child_completion_policy_satisfied d policy children
    then []
    else blocking_by (policy_of policy) children
