-- ===== src/Workflow/Steps.antt =====
-- The card's life as a step relation: what validated actions can reach.
use megacorps.Prelude.{false, none, some, ◌≡◌, ◌≢◌, refl, arith, ◌⊎◌}
use megacorps.Workflow.Status.{
  agent_worker, agent_leader, user, system, agent_reviewer, CardStatus, CardActorType,
  CardTransitionAction, todo, in_progress, in_review, needs_review, waiting_on_external,
  waiting_on_client, waiting_on_brainstorm, done, blocked, cancelled, claim, client_answered,
  brainstorm_closed, approve, complete, resume, manual_move,
}
use megacorps.Workflow.Transition.{
  get_card_transition_target, is_manual_move, validate_card_transition,
}

-- One accepted request of an actor: an action moves the card to its target, a manual move to the
-- status that it names.
pub data Step (actor : CardActorType) : CardStatus → CardStatus → Type 0 where
  act :
      {from to : CardStatus} (a : CardTransitionAction)
      → is_manual_move a ≡ false
      → validate_card_transition a from actor none ≡ none
      → get_card_transition_target a ≡ to
      → Step actor from to
  move :
      {from to : CardStatus}
      → validate_card_transition manual_move from actor (some to) ≡ none
      → Step actor from to

pub data Reach (actor : CardActorType) (start : CardStatus) : CardStatus → Type 0 where
  here : Reach actor start start
  next : {s t : CardStatus} → Reach actor start s → Step actor s t → Reach actor start t

-- The statuses that a worker's steps keep a card in, once it is there.
worker-Step :
    {s t : CardStatus}
    → Step agent_worker s t
    → s ≢ done
    → s ≢ cancelled
    → (t ≢ done) × (t ≢ cancelled)
unfolding validate_card_transition get_card_transition_target
worker-Step (act a m v e) h k = ground arith
worker-Step (move v) h k = ground arith

-- No sequence of the transitions that the workflow's tables accept from a worker completes or cancels a
-- card: from a card that is neither done nor cancelled they reach no such card. What the server writes
-- without validating it, also in a worker's name, is no such transition.
pub worker-Reach :
    (s t : CardStatus)
    → Reach agent_worker s t
    → s ≢ done
    → s ≢ cancelled
    → (t ≢ done) × (t ≢ cancelled)
worker-Reach s t here h k = (h, k)
worker-Reach s t (next r step) h k =
    let (not_done, not_cancelled) = worker-Reach s _ r h k in
    worker-Step step not_done not_cancelled

-- A step out of `done` leads to `todo`, and is a leader's, a user's or the system's; any other
-- step keeps the card done.
pub Step-done :
    (actor : CardActorType) (t : CardStatus)
    → Step actor done t
    → (t ≡ done) ⊎ ((t ≡ todo) × ((actor ≡ agent_leader) ⊎ (actor ≡ user) ⊎ (actor ≡ system)))
unfolding validate_card_transition get_card_transition_target
Step-done actor t (act a m v e) = ground arith
Step-done actor t (move v) = ground arith

-- A card that waits for the client: a worker or a reviewer can only block it.
pub Step-waiting_on_client :
    (actor : CardActorType) (t : CardStatus)
    → Step actor waiting_on_client t
    → (actor ≡ agent_worker) ⊎ (actor ≡ agent_reviewer)
    → t ≡ blocked
unfolding validate_card_transition get_card_transition_target
Step-waiting_on_client actor t (act a m v e) w = ground arith
Step-waiting_on_client actor t (move v) w = ground arith

-- No status is a dead end: from every status the user's steps reach `done`.
Reach-done : (s : CardStatus) → Reach user s done
unfolding validate_card_transition get_card_transition_target
Reach-done todo = next (next here (act claim refl refl refl)) (act complete refl refl refl)
Reach-done in_progress = next here (act complete refl refl refl)
Reach-done in_review = next here (act approve refl refl refl)
Reach-done needs_review = next here (act approve refl refl refl)
Reach-done waiting_on_external = next here (act complete refl refl refl)
Reach-done waiting_on_client =
    next (next here (act client_answered refl refl refl)) (act complete refl refl refl)
Reach-done waiting_on_brainstorm =
    next (next here (act brainstorm_closed refl refl refl)) (act complete refl refl refl)
Reach-done done = here
Reach-done blocked =
    next (next (next here (act resume refl refl refl)) (act claim refl refl refl))
      (act complete refl refl refl)
Reach-done cancelled = next here (act complete refl refl refl)
