-- ===== src/Retry/Limits.antt =====
-- What the count of failures and the back-off guarantee.
use megacorps.Prelude.{
  ◌==◌, Text, ℕ, ◌≤◌, ◌≡◌, refl, true, false, Option, none, some, ◌&&◌, leb, arith, Bool-cases, inl,
  inr,
}
use megacorps.Recovery.Store.{
  RecoveryStage, dispatch, review, message, message_review, RetryEntry, RunRetryState, CardRow,
  Store, locked,
}
use megacorps.Recovery.Request.{
  Failure, recovered_card, request_allowed, commit_recovery, recovery_on, request_card_recovery,
}
use megacorps.Retry.Ready.{
  run_failure_limit, is_retry_kind, entry_of, set_entry, failures_of, entry_ready, run_retry_ready,
  assert_run_retry_not_exhausted,
}
use megacorps.Retry.Keeps.{complete_retryable_run-keeps}
use megacorps.Retry.Complete.{
  RunCompletion, counts, failures_after, entry_after, blocks, retried_card, complete_retryable_run,
}

abbrev pub LimitedState : RunRetryState → Type 0
LimitedState r =
    (failures_of r.review ≤ run_failure_limit)
    × ((failures_of r.message ≤ run_failure_limit)
        × (failures_of r.message_review ≤ run_failure_limit))

abbrev pub LimitedCard : Option CardRow → Type 0
LimitedCard none = Unit
LimitedCard (some c) = LimitedState c.run_retry_state

entry_ready-below :
    (entry : Option RetryEntry) (now : ℕ)
    → entry_ready entry now ≡ true
    → leb run_failure_limit (failures_of entry) ≡ false
entry_ready-below none now h = refl
entry_ready-below (some e) now h = ground arith

-- A run that is ready to be tried passes the check for exhaustion, so an operator's retry is refused
-- only where the automatic one is.
pub run_retry_ready-assert :
    (card : CardRow) (kind : RecoveryStage) (now : ℕ)
    → is_retry_kind kind ≡ true
    → run_retry_ready card kind now ≡ true
    → assert_run_retry_not_exhausted card kind ≡ none
unfolding run_retry_ready assert_run_retry_not_exhausted
run_retry_ready-assert card kind now retried ready =
    ground (arith, entry_ready-below (entry_of kind card.run_retry_state) now)

failures_after-le :
    (input : RunCompletion) (entry : Option RetryEntry)
    → failures_after input entry ≤ run_failure_limit
unfolding failures_after
failures_after-le input entry = ground arith

entry_after-le :
    (input : RunCompletion) (now : ℕ) (entry : Option RetryEntry)
    → failures_of (entry_after input now entry) ≤ run_failure_limit
unfolding entry_after
entry_after-le input now entry = elim (Bool-cases (counts input)) [
  | inl counted ↦ rw counted (failures_after-le input entry)
  | inr cleared ↦ rw cleared (omega arith)
]

set_entry-LimitedState :
    (kind : RecoveryStage) (input : RunCompletion) (now : ℕ) (entry : Option RetryEntry)
    (r : RunRetryState)
    → LimitedState r
    → LimitedState (set_entry kind (entry_after input now entry) r)
set_entry-LimitedState dispatch input now entry r h = h
set_entry-LimitedState review input now entry r h = (entry_after-le input now entry, h.1)
set_entry-LimitedState message input now entry r h = (h.0, (entry_after-le input now entry, h.1.1))
set_entry-LimitedState message_review input now entry r h =
    (h.0, (h.1.0, entry_after-le input now entry))

recovered_card-LimitedState :
    (store : Store) (card : CardRow) (failure : Failure) (owner : Option ℕ)
    → LimitedState card.run_retry_state
    → LimitedState (recovered_card store card failure owner).run_retry_state
unfolding recovered_card
recovered_card-LimitedState store card failure none w = w
recovered_card-LimitedState store card failure (some id) w = (omega arith, w.1)

recovery_on-LimitedCard :
    (store : Store) (input : CardRow) (failure : Failure) (row : Option CardRow)
    → LimitedCard store.card
    → LimitedCard row
    → LimitedCard (recovery_on store input failure row).0.card
unfolding commit_recovery
recovery_on-LimitedCard store input failure none w v = w
recovery_on-LimitedCard store input failure (some card) w v =
    elim (Bool-cases (request_allowed store card input failure)) [
      | inl ok ↦ rw ok (recovered_card-LimitedState store card failure _ v)
      | inr refused ↦ rw refused w
    ]

locked-LimitedCard :
    (input : CardRow) (row : Option CardRow) → LimitedCard row → LimitedCard (locked input row)
locked-LimitedCard input none w = tt
locked-LimitedCard input (some row) w =
    elim (Bool-cases (row.id == input.id && row.company_id == input.company_id)) [
      | inl found ↦ rw found w
      | inr missed ↦ rw missed tt
    ]

request_card_recovery-LimitedCard :
    (store : Store) (input : CardRow) (failure : Failure)
    → LimitedCard store.card
    → LimitedCard (request_card_recovery store input failure).0.card
unfolding request_card_recovery
request_card_recovery-LimitedCard store input failure w =
    recovery_on-LimitedCard store input failure (locked input store.card) w
      (locked-LimitedCard input store.card w)

retried_card-LimitedState :
    (input : RunCompletion) (kind : RecoveryStage) (now : ℕ) (reason : Text) (card : CardRow)
    → LimitedState card.run_retry_state
    → LimitedState (retried_card input kind now reason card).run_retry_state
unfolding retried_card
retried_card-LimitedState input kind now reason card w =
    let limited =
      set_entry-LimitedState kind input now (entry_of kind card.run_retry_state)
        card.run_retry_state w in
    elim (Bool-cases (blocks input kind card)) [
      | inl stopped ↦ rw stopped limited
      | inr moving ↦ rw moving limited
    ]

-- Settling a run, whatever its outcome, keeps the count of failures of every kind at most five.
pub complete_retryable_run-LimitedCard :
    (fence : CardRow → CardRow → ℕ) (reason_text : RecoveryStage → ℕ → Option Text → Text)
    (s : Store) (run : ℕ) (input : RunCompletion) (now : ℕ)
    → LimitedCard s.card
    → LimitedCard (complete_retryable_run fence reason_text s run input now).0.card
complete_retryable_run-LimitedCard fence reason_text =
    complete_retryable_run-keeps LimitedCard request_card_recovery-LimitedCard
      (λ input kind now reason card version w.
        retried_card-LimitedState input kind now reason card w)
      fence reason_text
