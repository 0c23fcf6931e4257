-- ===== src/Workflow/Agreement.antt =====
-- How the two tables, `allowedTransitions` and `cardTransitionDefs`, agree.
use megacorps.Prelude.{
  Bool, true, false, List, [], ◌∷◌, none, some, ◌≡◌, ◌&&◌, ◌||◌, not, arith, is_some, Bool-cases,
  inl, inr,
}
use megacorps.Workflow.Status.{
  CardStatus, CardActorType, CardTransitionAction, todo, in_progress, in_review, needs_review,
  blocked, manual_move, status_eq, includes_status, includes_actor, card_transition_actions,
  card_transition_defs,
}
use megacorps.Workflow.Transition.{
  can_transition_card, get_card_transition_target, is_manual_move, infer_from,
  infer_card_transition_action, validate_card_transition,
}

-- `release` and `request_help` have edges that a manual move has not.
abbrev pub only_action : CardStatus → CardStatus → Bool
only_action in_progress todo = true
only_action blocked needs_review = true
only_action _ _ = false

-- A manual move may send a card in review back to work, and no action does.
abbrev pub only_move : CardStatus → CardStatus → Bool
only_move in_review in_progress = true
only_move needs_review in_progress = true
only_move _ _ = false

-- A status change is open to a manual move exactly when some action makes it, but for four edges:
-- two that only an action makes and two that only a manual move makes.
pub can_transition-infer :
    (from to : CardStatus)
    → can_transition_card from to ≡ (
        (is_some (infer_card_transition_action from to) && not (only_action from to))
        || only_move from to)
unfolding can_transition_card infer_card_transition_action
can_transition-infer todo to = ground arith
can_transition-infer _ to = ground arith

-- An action that the search finds is no manual move, and its row has the edge.
infer_from-found :
    (actions : List CardTransitionAction) (from to : CardStatus) {a : CardTransitionAction}
    → infer_from actions from to ≡ some a
    → (is_manual_move a ≡ false)
      × (status_eq (card_transition_defs a).to to ≡ true)
      × (includes_status (card_transition_defs a).from from ≡ true)
unfolding infer_from
infer_from-found [] from to h = ground arith
infer_from-found (action ∷ rest) from to {a} h =
    elim (Bool-cases (
      not (is_manual_move action)
      && (status_eq (card_transition_defs action).to to
          && includes_status (card_transition_defs action).from from))) [
            | inl e ↦ ground arith
            | inr e ↦ infer_from-found rest from to (rw e at h)
          ]

status_eq→≡ : (a b : CardStatus) → status_eq a b ≡ true → a ≡ b
status_eq→≡ todo b h = ground arith
status_eq→≡ _ b h = ground arith

manual_self :
    (s : CardStatus) (actor : CardActorType)
    → includes_actor (card_transition_defs manual_move).allow actor ≡ true
    → validate_card_transition manual_move s actor (some s) ≡ none
unfolding validate_card_transition can_transition_card
manual_self s actor h = ground arith

-- The action that the server infers for a status change is one that its validation accepts, with
-- the new status as the target, for every actor in the action's `allow` list.
pub infer-validates :
    (from to : CardStatus) (actor : CardActorType) (a : CardTransitionAction)
    → infer_card_transition_action from to ≡ some a
    → includes_actor (card_transition_defs a).allow actor ≡ true
    → validate_card_transition a from actor (some to) ≡ none
unfolding infer_card_transition_action validate_card_transition get_card_transition_target
infer-validates from to actor a h allowed = elim (Bool-cases (status_eq from to)) [
  | inl same_status ↦
      let same : from ≡ to = status_eq→≡ from to same_status in
      let manual : a ≡ manual_move = ground arith in
      rw manual (rw (← same) (manual_self from actor (rw manual at allowed)))
  | inr moved ↦
      let (acts, target, listed) =
        infer_from-found card_transition_actions from to {a = a} (rw moved at h) in
      let same = status_eq→≡ _ _ target in ground arith
]
