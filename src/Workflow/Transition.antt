-- ===== src/Workflow/Transition.antt =====
-- packages/shared/src/index.ts: the functions over the two tables.
use megacorps.Prelude.{
  Bool, true, false, List, [], ◌∷◌, Option, none, some, ◌&&◌, not, if◌then◌else◌, Text, text,
  text_eq,
}
use megacorps.Workflow.Status.{
  CardStatus, CardActorType, CardTransitionAction, todo, in_progress, in_review, needs_review,
  waiting_on_external, waiting_on_client, waiting_on_brainstorm, done, blocked, cancelled,
  manual_move, status_eq, includes_status, includes_actor, card_statuses, card_transition_actions,
  card_transition_defs, allowed_transitions,
}

unfoldable pub can_transition_card : CardStatus → CardStatus → Bool
unfolding includes_status allowed_transitions
can_transition_card from to =
    if status_eq from to then true else includes_status (allowed_transitions from) to

unfoldable pub get_card_transition_target : CardTransitionAction → CardStatus
unfolding card_transition_defs
get_card_transition_target action = (card_transition_defs action).to

abbrev pub is_manual_move : CardTransitionAction → Bool
is_manual_move manual_move = true
is_manual_move _ = false

-- The loop over `cardTransitionActions`.
unfoldable pub infer_from :
    List CardTransitionAction → CardStatus → CardStatus → Option CardTransitionAction
unfolding card_transition_defs includes_status
infer_from [] from to = none
infer_from (action ∷ rest) from to =
    let def = card_transition_defs action in
    if not (is_manual_move action) && (status_eq def.to to && includes_status def.from from)
    then some action
    else infer_from rest from to

unfoldable pub infer_card_transition_action : CardStatus → CardStatus → Option CardTransitionAction
unfolding infer_from
infer_card_transition_action from to =
    if status_eq from to then some manual_move else infer_from card_transition_actions from to

-- The two error codes, with the values that the message shows.
pub data TransitionError : Type 0 where
  forbidden : CardActorType → CardTransitionAction → TransitionError
  no_target : TransitionError
  cannot_move : CardStatus → CardStatus → TransitionError
  cannot_act : CardTransitionAction → CardStatus → TransitionError
  wrong_target : CardTransitionAction → CardStatus → TransitionError

abbrev manual_error : CardStatus → Option CardStatus → Option TransitionError
unfolding can_transition_card
manual_error from none = some no_target
manual_error from (some target) =
    if can_transition_card from target then none else some (cannot_move from target)

abbrev target_error : CardTransitionAction → Option CardStatus → Option TransitionError
unfolding get_card_transition_target
target_error action none = none
target_error action (some target) =
    if status_eq target (get_card_transition_target action)
    then none
    else some (wrong_target action target)

unfoldable pub validate_card_transition :
    CardTransitionAction → CardStatus → CardActorType → Option CardStatus → Option TransitionError
unfolding card_transition_defs includes_actor includes_status manual_error target_error
validate_card_transition action from actor target =
    let def = card_transition_defs action in
    if not (includes_actor def.allow actor)
    then some (forbidden actor action)
    else if is_manual_move action
    then manual_error from target
    else if not (includes_status def.from from)
    then some (cannot_act action from)
    else target_error action target

-- The spelling of each status.
abbrev pub status_text : CardStatus → Text
status_text todo = text "todo"
status_text in_progress = text "in_progress"
status_text in_review = text "in_review"
status_text needs_review = text "needs_review"
status_text waiting_on_external = text "waiting_on_external"
status_text waiting_on_client = text "waiting_on_client"
status_text waiting_on_brainstorm = text "waiting_on_brainstorm"
status_text done = text "done"
status_text blocked = text "blocked"
status_text cancelled = text "cancelled"

-- The status that a list of statuses holds under a spelling.
unfoldable pub spelled : List CardStatus → Text → Option CardStatus
spelled [] value = none
spelled (s ∷ rest) value = if text_eq (status_text s) value then some s else spelled rest value

unfoldable pub normalize_card_status : Option Text → Option CardStatus
unfolding spelled
normalize_card_status none = none
normalize_card_status (some []) = none
normalize_card_status (some (c ∷ s)) =
    let value = c ∷ s in
    if text_eq value (text "backlog") then some todo else spelled card_statuses value
