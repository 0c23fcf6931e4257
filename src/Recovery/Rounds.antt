-- ===== src/Recovery/Rounds.antt =====
-- What `requestCardRecovery` keeps, writes and refuses.
use megacorps.Prelude.{
  ◌==◌, ◌∙◌, ◌&&◌, ℕ, suc, ◌≤◌, ◌≡◌, refl, sym, subst, true, false, Option, none, some, [], ◌∷◌,
  ltb, ==_refl, is_some, contains, contains-append, length, length-append, IsDistinct,
  IsDistinct-snoc, arith, Bool-cases, Option-cases, inl, inr, ◌⊎◌,
}
use mathlib.Core.Bool.{false≢true}
use mathlib.Core.Option.{some-injective, none-ne-some}
use megacorps.Workflow.Status.{in_review, needs_review}
use megacorps.Recovery.Store.{
  locked, RecoveryState, CardRow, Store, is_settled, recovery_mutation_allowed,
}
use megacorps.Recovery.Owner.{owner_for}
use megacorps.Recovery.Ownership.{MayOwn, owner_for-MayOwn}
use megacorps.Recovery.Request.{
  Failure, recovery_round_limit, handled_or_human, is_awaiting_manager, request_allowed, round_of,
  visited_of, events_of, next_owner, next_recovery, recovered_card, human_gate, commit_recovery,
  recovery_on, request_card_recovery,
}

-- The rounds spent are the owners tried, no owner is tried twice, and a manager who is awaited is one of them.
pub record IsWellFormed (r : RecoveryState) : Type 0 where
  pub bounded : r.round ≤ recovery_round_limit
  pub counted : length r.visited_owner_ids ≡ r.round
  pub distinct : IsDistinct r.visited_owner_ids
  pub owned : is_awaiting_manager r.mode ≡ true → is_some r.owner_id ≡ true

abbrev pub WellFormedState : Option RecoveryState → Type 0
WellFormedState none = Unit
WellFormedState (some r) = IsWellFormed r

abbrev pub WellFormedCard : Option CardRow → Type 0
WellFormedCard none = Unit
WellFormedCard (some c) = WellFormedState c.recovery

pub next_owner-fresh :
    (store : Store) (card : CardRow) (failure : Failure) (id : ℕ)
    → next_owner store card failure ≡ some id
    → (suc (round_of card.recovery) ≤ recovery_round_limit)
      × MayOwn store card failure.actor_id (visited_of card.recovery) id
unfolding next_owner
next_owner-fresh store card failure id h =
    elim (Bool-cases (ltb (round_of card.recovery) recovery_round_limit)) [
      | inl below ↦ (
        ground arith,
        owner_for-MayOwn store card failure.actor_id (visited_of card.recovery) id (rw below at h),
      )
      | inr spent ↦ ground arith
    ]

next_owner-none :
    (store : Store) (card : CardRow) (failure : Failure)
    → next_owner store card failure ≡ none
    → (recovery_round_limit ≤ round_of card.recovery)
      ⊎ (owner_for store card failure.actor_id (visited_of card.recovery) ≡ none)
unfolding next_owner
next_owner-none store card failure h =
    elim (Bool-cases (ltb (round_of card.recovery) recovery_round_limit)) [
      | inl below ↦ inr (rw below at h)
      | inr spent ↦ inl (ground arith)
    ]

visited-WellFormed :
    (old : Option RecoveryState)
    → WellFormedState old
    → (round_of old ≤ recovery_round_limit)
      × ((length (visited_of old) ≡ round_of old) × IsDistinct (visited_of old))
visited-WellFormed none w = (omega arith, (refl, tt))
visited-WellFormed (some r) w = (w.bounded, (w.counted, w.distinct))

next_recovery-IsWellFormed :
    (store : Store) (card : CardRow) (failure : Failure) (owner : Option ℕ)
    → next_owner store card failure ≡ owner
    → WellFormedState card.recovery
    → IsWellFormed (next_recovery store card failure owner)
unfolding next_recovery
next_recovery-IsWellFormed store card failure none e w =
    let (below, (counted, distinct)) = visited-WellFormed card.recovery w in
    record {
      bounded = omega (arith, below);
      counted = omega (arith, counted);
      distinct = distinct;
      owned = λ h. absurd (false≢true h);
    }
next_recovery-IsWellFormed store card failure (some id) e w =
    let (below, (counted, distinct)) = visited-WellFormed card.recovery w in
    let (left, owns) = next_owner-fresh store card failure id e in
    record {
      bounded = omega (arith, left);
      counted = omega (arith, counted, length-append (visited_of card.recovery) (id ∷ []));
      distinct = IsDistinct-snoc (visited_of card.recovery) id distinct owns.fresh;
      owned = λ h. refl;
    }

recovery_on-WellFormedCard :
    (store : Store) (input : CardRow) (failure : Failure) (row : Option CardRow)
    → WellFormedCard store.card
    → WellFormedCard row
    → WellFormedCard (recovery_on store input failure row).0.card
unfolding commit_recovery recovered_card
recovery_on-WellFormedCard store input failure none w v = w
recovery_on-WellFormedCard store input failure (some card) w v =
    elim (Bool-cases (request_allowed store card input failure)) [
      | inl ok ↦ rw ok (next_recovery-IsWellFormed store card failure _ refl v)
      | inr refused ↦ rw refused w
    ]

pub locked-WellFormedCard :
    (input : CardRow) (row : Option CardRow)
    → WellFormedCard row
    → WellFormedCard (locked input row)
locked-WellFormedCard input none w = tt
locked-WellFormedCard input (some row) w =
    elim (Bool-cases (row.id == input.id && row.company_id == input.company_id)) [
      | inl found ↦ rw found w
      | inr missed ↦ rw missed tt
    ]

pub locked-some :
    (input : CardRow) (row : Option CardRow) (card : CardRow)
    → locked input row ≡ some card
    → row ≡ some card
locked-some input none card h = h
locked-some input (some row) card h =
    elim (Bool-cases (row.id == input.id && row.company_id == input.company_id)) [
      | inl found ↦ rw found at h
      | inr missed ↦ absurd (none-ne-some card (rw missed at h))
    ]

-- A request for recovery keeps the card's recovery state well formed: at most three rounds, one
-- for each owner tried, no owner tried twice, and an owner whenever a manager is awaited.
pub request_card_recovery-WellFormedCard :
    (store : Store) (input : CardRow) (failure : Failure)
    → WellFormedCard store.card
    → WellFormedCard (request_card_recovery store input failure).0.card
unfolding request_card_recovery
request_card_recovery-WellFormedCard store input failure w =
    recovery_on-WellFormedCard store input failure (locked input store.card) w
      (locked-WellFormedCard input store.card w)

-- What a request leaves behind that was carried out: the card unlocked and without a date to run
-- at, and either with a manager to review it, or with an open gate for a human.
pub record IsHandedOn (store after : Store) (card : CardRow) (failure : Failure) (updated : CardRow)
    : Type 0 where
  pub stored : after.card ≡ some updated
  pub unlocked :
      (updated.execution_lock_id ≡ none)
      × ((updated.execution_locked_by ≡ none) × (updated.active_heartbeat_run_id ≡ none))
  pub undated : (updated.next_run_at ≡ none) × (updated.completed_at ≡ none)
  pub handled : contains (events_of updated.recovery) failure.event_key ≡ true
  pub handed :
      ((id : ℕ) × ((updated.reviewer_id ≡ some id)
          × ((updated.column_status ≡ some needs_review)
              × ((after.approvals ≡ store.approvals)
                  × MayOwn store card failure.actor_id (visited_of card.recovery) id))))
      ⊎ ((updated.reviewer_id ≡ none)
          × ((updated.column_status ≡ some in_review)
              × ((after.approvals ≡ human_gate store.next_id card none ∷ store.approvals)
                  × ((recovery_round_limit ≤ round_of card.recovery)
                      ⊎ (owner_for store card failure.actor_id (visited_of card.recovery)
                          ≡ none)))))

next_recovery-handled :
    (store : Store) (card : CardRow) (failure : Failure) (owner : Option ℕ)
    → contains (next_recovery store card failure owner).handled_event_keys failure.event_key ≡ true
unfolding next_recovery
next_recovery-handled store card failure owner = ground (
  arith,
  contains-append (events_of card.recovery) (failure.event_key ∷ []) failure.event_key,
  ==_refl failure.event_key,
)

commit_recovery-IsHandedOn :
    (store : Store) (card : CardRow) (failure : Failure) (owner : Option ℕ)
    → next_owner store card failure ≡ owner
    → IsHandedOn store
        (commit_recovery store card failure).0
        card
        failure
        (recovered_card store card failure owner)
unfolding commit_recovery recovered_card
commit_recovery-IsHandedOn store card failure none e = record {
  stored = rw e refl;
  unlocked = (refl, (refl, refl));
  undated = (refl, refl);
  handled = next_recovery-handled store card failure none;
  handed = inr (refl, (refl, (rw e refl, next_owner-none store card failure e)));
}
commit_recovery-IsHandedOn store card failure (some id) e = record {
  stored = rw e refl;
  unlocked = (refl, (refl, refl));
  undated = (refl, refl);
  handled = next_recovery-handled store card failure (some id);
  handed = inl (id, (refl, (refl, (rw e refl, (next_owner-fresh store card failure id e).1))));
}

request_allowed-settled :
    (store : Store) (card input : CardRow) (failure : Failure)
    → request_allowed store card input failure ≡ true
    → is_settled card.column_status ≡ false
unfolding request_allowed recovery_mutation_allowed
request_allowed-settled store card input failure h = ground arith

recovery_on-IsHandedOn :
    (store : Store) (input : CardRow) (failure : Failure) (row : Option CardRow) (updated : CardRow)
    → (recovery_on store input failure row).1 ≡ some updated
    → (card : CardRow) × ((row ≡ some card)
        × ((is_settled card.column_status ≡ false)
            × IsHandedOn store (recovery_on store input failure row).0 card failure updated))
unfolding commit_recovery
recovery_on-IsHandedOn store input failure none updated h = ground arith
recovery_on-IsHandedOn store input failure (some card) updated h =
    elim (Bool-cases (request_allowed store card input failure)) [
      | inl ok ↦ (
        card,
        (
          refl,
          (
            request_allowed-settled store card input failure ok,
            rw ok (
                subst (IsHandedOn store (commit_recovery store card failure).0 card failure)
                  (some-injective
                    (recovered_card store card failure (next_owner store card failure)) updated
                    (rw ok at h))
                  (commit_recovery-IsHandedOn store card failure (next_owner store card failure)
                    refl)),
          ),
        ),
      )
      | inr refused ↦ absurd (none-ne-some updated (rw refused at h))
    ]

-- A request that returns a row found a card that is not done, cancelled or waiting for the client,
-- and hands it on: unlocked, with the event recorded, and either to a manager who may own the
-- recovery and reviews it from now on, or, when the rounds or the managers are spent, to a human
-- through an approval that the request opens.
pub request_card_recovery-IsHandedOn :
    (store : Store) (input : CardRow) (failure : Failure) (updated : CardRow)
    → (request_card_recovery store input failure).1 ≡ some updated
    → (card : CardRow) × ((store.card ≡ some card)
        × ((is_settled card.column_status ≡ false)
            × IsHandedOn store (request_card_recovery store input failure).0 card failure updated))
unfolding request_card_recovery
request_card_recovery-IsHandedOn store input failure updated h =
    let (card, (found, more)) =
      recovery_on-IsHandedOn store input failure (locked input store.card) updated h in
    (card, (locked-some input store.card card found, more))

request_allowed-handled :
    (store : Store) (card again : CardRow) (later : Failure)
    → contains (events_of card.recovery) later.event_key ≡ true
    → request_allowed store card again later ≡ false
unfolding request_allowed
request_allowed-handled store card again later h = elim (Option-cases card.recovery) [
  | inl new ↦ absurd (false≢true (rw new at h))
  | inr (old, e) ↦ ground (
    arith,
    subst (λ r. handled_or_human r later.event_key ≡ true) (sym e)
        (handled_of old (subst (λ r. contains (events_of r) later.event_key ≡ true) e h)),
  )
]
  where
    handled_of :
        (old : RecoveryState)
        → contains old.handled_event_keys later.event_key ≡ true
        → handled_or_human (some old) later.event_key ≡ true
    handled_of old k = ground arith

recovery_on-refused :
    (store : Store) (again : CardRow) (later : Failure) (row : Option CardRow)
    → ((card : CardRow) → row ≡ some card → request_allowed store card again later ≡ false)
    → recovery_on store again later row ≡ (store, none)
recovery_on-refused store again later none h = refl
recovery_on-refused store again later (some card) h = rw (h card refl) refl

-- After a request that returned a row, a second request for the same event writes nothing and
-- returns nothing, whichever row its caller had read.
pub request_card_recovery-replay :
    (store : Store) (input again : CardRow) (failure later : Failure) (updated : CardRow)
    → (request_card_recovery store input failure).1 ≡ some updated
    → later.event_key ≡ failure.event_key
    → let after = (request_card_recovery store input failure).0 in
      request_card_recovery after again later ≡ (after, none)
unfolding request_card_recovery
request_card_recovery-replay store input again failure later updated h e =
    let after = (request_card_recovery store input failure).0 in
    let (card, (_, (_, handed))) = request_card_recovery-IsHandedOn store input failure updated h in
    recovery_on-refused after again later (locked again after.card) (λ row found.
      let same_row : updated ≡ row =
        some-injective updated row (sym handed.stored ∙ locked-some again after.card row found) in
      subst (λ c. request_allowed after c again later ≡ false) same_row
        (request_allowed-handled after updated again later (rw e handed.handled)))
