-- ===== src/Workflow/Guards.antt =====
-- The callers of the workflow: `assertCardTransition` (card-actions.ts), `assertStatusMove`
-- (runner-routes.ts) and the status guard of PUT /api/cards/:id (routes.ts).
use megacorps.Prelude.{
  ℕ, true, Option, none, some, ◌≡◌, refl, arith, inl, inr, ◌⊎◌, ◌↔◌, ◌||◌, if◌then◌else◌, get_or,
  is_some, Text, Bool-cases, Option-cases,
}
use megacorps.Workflow.Status.{
  CardStatus, CardActorType, CardTransitionAction, todo, user, manual_move, status_eq,
  includes_actor, card_transition_defs,
}
use megacorps.Workflow.Transition.{
  TransitionError, forbidden, cannot_move, normalize_card_status, infer_card_transition_action,
  validate_card_transition, can_transition_card,
}
use megacorps.Workflow.Agreement.{only_move, infer-validates, can_transition-infer}

pub record HttpError : Type 0 where
  pub status_code : ℕ
  pub error : TransitionError

abbrev pub http_error : TransitionError → HttpError
http_error (forbidden actor action) = record { status_code = 403; error = forbidden actor action }
http_error e = record { status_code = 409; error = e }

unfoldable pub assert_card_transition :
    CardTransitionAction → CardStatus → CardActorType → Option CardStatus → Option HttpError
assert_card_transition action from actor to = elim (validate_card_transition action from actor to) [
  | none ↦ none
  | some e ↦ some (http_error e)
]

unfoldable pub assert_status_move : CardStatus → CardStatus → CardActorType → Option HttpError
unfolding assert_card_transition
assert_status_move from to actor =
    if status_eq from to then none else elim (infer_card_transition_action from to) [
      | none ↦ some (http_error (cannot_move from to))
      | some action ↦ assert_card_transition action from actor (some to)
    ]

unfoldable pub change_error : CardStatus → CardStatus → Option HttpError
unfolding assert_card_transition
change_error from to =
    if status_eq to from
    then none
    else assert_card_transition (get_or (infer_card_transition_action from to) manual_move) from
        user (some to)

-- A request without a status, or with the card's own, is not checked.
unfoldable pub update_card_transition : Option Text → Option Text → Option HttpError
unfolding change_error
update_card_transition column_status requested =
    let from = get_or (normalize_card_status column_status) todo in
    elim (normalize_card_status requested) [ none ↦ none | some to ↦ change_error from to ]

validate-allow :
    (a : CardTransitionAction) (from : CardStatus) (actor : CardActorType) (t : Option CardStatus)
    → validate_card_transition a from actor t ≡ none
    → includes_actor (card_transition_defs a).allow actor ≡ true
unfolding validate_card_transition
validate-allow a from actor t h =
    elim (Bool-cases (includes_actor (card_transition_defs a).allow actor)) [
      | inl e ↦ e
      | inr e ↦ ground arith
    ]

assert-validate :
    (a : CardTransitionAction) (from : CardStatus) (actor : CardActorType) (t : Option CardStatus)
    → (assert_card_transition a from actor t ≡ none)
      ↔ (validate_card_transition a from actor t ≡ none)
unfolding assert_card_transition
assert-validate a from actor t = ground arith

-- A runner's status report is accepted exactly when it changes nothing, or when the action that
-- is inferred for it lists the runner's actor type.
pub assert_status_move-accepts :
    (from to : CardStatus) (actor : CardActorType)
    → (assert_status_move from to actor ≡ none) ↔ (
        (status_eq from to ≡ true)
        ⊎ ((a : CardTransitionAction) × (infer_card_transition_action from to ≡ some a)
            × (includes_actor (card_transition_defs a).allow actor ≡ true)))
unfolding assert_status_move
assert_status_move-accepts from to actor = elim (Bool-cases (status_eq from to)) [
  | inl e ↦ (λ h. inl e, λ h. rw e)
  | inr e ↦ rw e (elim (Option-cases (infer_card_transition_action from to)) [
    | inl none_found ↦ rw none_found (λ h. ground arith, λ h. ground arith)
    | inr (a, found) ↦ (
      λ h. inr (
        a,
        found,
        validate-allow a from actor (some to)
            ((assert-validate a from actor (some to)).0 (rw found at h)),
      ),
      λ h. elim h [
        | inl same_status ↦ ground arith
        | inr (b, again, allowed) ↦ rw again (
            (assert-validate b from actor (some to)).1
              (infer-validates from to actor b again allowed))
      ],
    )
  ])
]

every_action-user :
    (a : CardTransitionAction) → includes_actor (card_transition_defs a).allow user ≡ true
unfolding card_transition_defs includes_actor
every_action-user manual_move = refl
every_action-user _ = refl

manual-validate :
    (from to : CardStatus)
    → (validate_card_transition manual_move from user (some to) ≡ none)
      ↔ (can_transition_card from to ≡ true)
unfolding validate_card_transition
manual-validate from to = ground arith

user_change :
    (from to : CardStatus)
    → (validate_card_transition
          (get_or (infer_card_transition_action from to) manual_move)
          from
          user
          (some to)
        ≡ none)
      ↔ ((is_some (infer_card_transition_action from to) || only_move from to) ≡ true)
user_change from to = elim (Option-cases (infer_card_transition_action from to)) [
  | inl no_action ↦
      let table = can_transition-infer from to in
      rw no_action (
        λ h. ground (arith, table, (manual-validate from to).0 h),
        λ h. (manual-validate from to).1 (ground (arith, table)),
      )
  | inr (a, found) ↦
      rw found (λ h. refl, λ h. infer-validates from to user a found (every_action-user a))
]

change_error-accepts :
    (from to : CardStatus)
    → (change_error from to ≡ none) ↔ (
        (status_eq to from || (is_some (infer_card_transition_action from to) || only_move from to))
        ≡ true)
unfolding change_error
change_error-accepts from to =
    let action = get_or (infer_card_transition_action from to) manual_move in
    let (plain, checked) = assert-validate action from user (some to) in
    let (needs, enough) = user_change from to in
    elim (Bool-cases (status_eq to from)) [
      | inl e ↦ rw e (λ h. refl, λ h. refl)
      | inr e ↦ rw e (λ h. needs (plain h), λ h. checked (enough h))
    ]

-- The status guard of PUT /api/cards/:id: with both statuses readable, the user's change passes
-- exactly when the status stays, some action makes the change, or it is one of the two edges that
-- only a manual move has.
update_card_transition-accepts :
    (stored requested : Text) (from to : CardStatus)
    → normalize_card_status (some stored) ≡ some from
    → normalize_card_status (some requested) ≡ some to
    → (update_card_transition (some stored) (some requested) ≡ none) ↔ (
        (status_eq to from || (is_some (infer_card_transition_action from to) || only_move from to))
        ≡ true)
unfolding update_card_transition
update_card_transition-accepts stored requested from to hf ht =
    let (accepts, accepted) = change_error-accepts from to in
    (λ h. accepts (ground arith), λ h. ground (arith, accepted h))
