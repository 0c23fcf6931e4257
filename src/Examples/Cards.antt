-- ===== src/Examples/Cards.antt =====
-- Concrete cards for the theorems on the workflow and on child cards.
use megacorps.Prelude.{
  ℕ, ◌+◌, ◌*◌, ◌/◌, leb, All, arith, true, none, some, [], ◌∷◌, ◌≡◌, ◌≢◌, ◌↔◌, ◌⊎◌, refl, ◌&&◌,
  ◌||◌, not, is_some, is_empty, text, arith,
}
use megacorps.Workflow.Status.{
  CardActorType, CardTransitionAction, todo, in_progress, in_review, waiting_on_client, done,
  blocked, cancelled, user, agent_worker, agent_leader, claim, submit_review, block, reopen,
  includes_actor, card_transition_defs, status_eq,
}
use megacorps.Workflow.Transition.{
  can_transition_card, infer_card_transition_action, validate_card_transition, status_text,
  normalize_card_status, get_card_transition_target,
}
use megacorps.Workflow.Agreement.{only_action, only_move, can_transition-infer}
use megacorps.Workflow.Steps.{Step, act, Reach, here, next, worker-Reach, Step-done}
use megacorps.Workflow.Spelling.{normalize-eq-some_iff}
use megacorps.Workflow.Guards.{assert_status_move, assert_status_move-accepts}
use megacorps.Children.Policy.{
  Doubles, total_weight, ChildRow, required, optional, threshold, blocking_children_for_policy,
  child_completion_policy_satisfied,
}
use megacorps.Children.Blocking.{IsRounded, HoldsParent, blocking_children-HoldsParent}

can_transition-infer_example : can_transition_card in_progress in_review ≡ (
    (is_some (infer_card_transition_action in_progress in_review)
      && not (only_action in_progress in_review))
    || only_move in_progress in_review)
can_transition-infer_example = can_transition-infer in_progress in_review

worker_path : Reach agent_worker todo in_review
unfolding validate_card_transition get_card_transition_target
worker_path = next (next here (act claim refl refl refl)) (act submit_review refl refl refl)

worker-Reach_example : (in_review ≢ done) × (in_review ≢ cancelled)
worker-Reach_example = worker-Reach todo in_review worker_path (ground arith) (ground arith)

reopening : Step agent_leader done todo
unfolding validate_card_transition get_card_transition_target
reopening = act reopen refl refl refl

Step-done_example :
    (todo ≡ done)
    ⊎ ((todo ≡ todo)
        × ((agent_leader ≡ agent_leader)
            ⊎ (agent_leader ≡ user)
            ⊎ (agent_leader ≡ CardActorType.system)))
Step-done_example = Step-done agent_leader todo reopening

blocking : Step agent_worker waiting_on_client blocked
unfolding validate_card_transition get_card_transition_target
blocking = act block refl refl refl

normalize-eq-some_iff_example :
    (normalize_card_status (some (text "backlog")) ≡ some todo)
    ↔ ((text "backlog" ≡ status_text todo) ⊎ ((text "backlog" ≡ text "backlog") × (todo ≡ todo)))
normalize-eq-some_iff_example = normalize-eq-some_iff (text "backlog") todo

assert_status_move-accepts_example : (assert_status_move todo in_progress agent_worker ≡ none) ↔ (
    (status_eq todo in_progress ≡ true)
    ⊎ ((a : CardTransitionAction) × (infer_card_transition_action todo in_progress ≡ some a)
        × (includes_actor (card_transition_defs a).allow agent_worker ≡ true)))
assert_status_move-accepts_example = assert_status_move-accepts todo in_progress agent_worker

-- A finished child of weight 1.5 and an open one of weight 1.
abbrev finished_child : ChildRow
finished_child = record {
  title = text "API";
  column_status = some done;
  child_requirement_level = some required;
  estimated_weight = some 150;
}

abbrev open_child : ChildRow
open_child = record {
  title = text "Docs";
  column_status = none;
  child_requirement_level = some optional;
  estimated_weight = none;
}

-- Numbers that are exact.
abbrev exact : Doubles
exact = record {
  Double = ℕ;
  of_hundredths = λ n. 5 * n;
  plus = λ a b. a + b;
  four_fifths = λ a. 4 * (a / 5);
  at_least = λ a b. leb b a;
}

exact-IsRounded : IsRounded exact
exact-IsRounded children = most (total_weight exact 0 children)
  where
    most : (n : ℕ) → leb (4 * (n / 5)) n ≡ true
    most n = ground arith

blocking_children-HoldsParent_example :
    (is_empty
        (blocking_children_for_policy exact (some threshold) (finished_child ∷ open_child ∷ []))
      ≡ child_completion_policy_satisfied exact (some threshold) (finished_child ∷ open_child ∷ []))
    × All
        (HoldsParent threshold (finished_child ∷ open_child ∷ []))
        (blocking_children_for_policy exact (some threshold) (finished_child ∷ open_child ∷ []))
blocking_children-HoldsParent_example =
    blocking_children-HoldsParent exact (some threshold) (finished_child ∷ open_child ∷ [])
      exact-IsRounded
