-- ===== src/Retry/Ready.antt =====
-- run-retry.ts: when a run may be tried again. Times are in milliseconds.
use megacorps.Prelude.{
  ℕ, Bool, true, false, Option, none, some, ◌&&◌, ◌||◌, not, if◌then◌else◌, ltb, leb, ◌==◌,
}
use megacorps.Workflow.Status.{CardStatus, blocked}
use megacorps.Recovery.Store.{
  RecoveryStage, dispatch, review, message, message_review, RecoveryState, RetryEntry,
  RunRetryState, CardRow,
}
use megacorps.Recovery.Request.{is_awaiting_human, is_awaiting_manager, stage_eq}

abbrev pub run_failure_limit : ℕ
run_failure_limit = 5

-- `RETRY_MINUTES[failures - 1]`, for fewer failures than the limit.
abbrev pub retry_minutes : ℕ → ℕ
retry_minutes failures =
    if failures == 1 then 1 else if failures == 2 then 5 else if failures == 3 then 15 else 30

unfoldable pub is_retry_kind : RecoveryStage → Bool
is_retry_kind dispatch = false
is_retry_kind _ = true

abbrev pub entry_of : RecoveryStage → RunRetryState → Option RetryEntry
entry_of dispatch s = none
entry_of review s = s.review
entry_of message s = s.message
entry_of message_review s = s.message_review

abbrev pub set_entry : RecoveryStage → Option RetryEntry → RunRetryState → RunRetryState
set_entry dispatch e s = s
set_entry review e s = record s { review = e }
set_entry message e s = record s { message = e }
set_entry message_review e s = record s { message_review = e }

-- A recovery that waits stops every run but the manager's review.
unfoldable pub recovery_pending : Option RecoveryState → RecoveryStage → Bool
recovery_pending none kind = false
recovery_pending (some r) kind =
    is_awaiting_human r.mode || (is_awaiting_manager r.mode && not (stage_eq kind review))

abbrev pub is_blocked : Option CardStatus → Bool
is_blocked (some blocked) = true
is_blocked _ = false

abbrev pub due : Option ℕ → ℕ → Bool
due none now = true
due (some at) now = leb at now

abbrev pub entry_ready : Option RetryEntry → ℕ → Bool
entry_ready none now = true
entry_ready (some e) now = ltb e.failures run_failure_limit && due e.next_run_at now

unfoldable pub run_retry_ready : CardRow → RecoveryStage → ℕ → Bool
run_retry_ready card kind now =
    if recovery_pending card.recovery kind
    then false
    else if not (is_retry_kind kind)
    then true
    else if is_blocked card.column_status
    then false
    else entry_ready (entry_of kind card.run_retry_state) now

pub data RetryError : Type 0 where
  recovery_is_pending card_blocked retry_exhausted : RetryError

abbrev pub failures_of : Option RetryEntry → ℕ
failures_of none = 0
failures_of (some e) = e.failures

-- `none` when nothing is thrown.
unfoldable pub assert_run_retry_not_exhausted : CardRow → RecoveryStage → Option RetryError
assert_run_retry_not_exhausted card kind =
    if recovery_pending card.recovery kind
    then some recovery_is_pending
    else if is_blocked card.column_status
    then some card_blocked
    else if leb run_failure_limit (failures_of (entry_of kind card.run_retry_state))
    then some retry_exhausted
    else none

-- `resetRunRetries`.
abbrev pub reset_run_retries : CardRow → CardRow
reset_run_retries card = record card {
  run_retry_state = record { review = none; message = none; message_review = none };
}
