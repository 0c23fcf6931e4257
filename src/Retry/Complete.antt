-- ===== src/Retry/Complete.antt =====
-- run-retry.ts `completeRetryableRun`: the transaction that settles a run. The acknowledgement of an
-- A2A execution, the task log, notifications and live events are left out. The database trigger that
-- gives a written card its merge gate version is the parameter `fence`.
use megacorps.Prelude.{
  ℕ, suc, ◌+◌, ◌*◌, Bool, true, false, Option, none, some, ◌&&◌, ◌||◌, not, any, find, map,
  if◌then◌else◌, ltb, leb, ◌==◌, same, Text,
}
use megacorps.Workflow.Status.{
  CardStatus, done, cancelled, blocked, waiting_on_client, waiting_on_external,
}
use megacorps.Recovery.Store.{
  RecoveryStage, RetryEntry, CardRow, RunStatus, success, failed, cancelled_run, is_live_run,
  TaskRunRow, IntentState, prepared, is_claimed, MergeIntentRow, Store, human_gate_open,
  completion_condition,
}
use megacorps.Recovery.Request.{Failure, request_card_recovery}
use megacorps.Retry.Ready.{
  run_failure_limit, retry_minutes, is_retry_kind, entry_of, set_entry, failures_of,
}

pub data CompletionStatus : Type 0 where
  succeeded failed_run cancelled_completion : CompletionStatus

pub record RunCompletion : Type 0 where
  pub status : CompletionStatus
  pub error : Option Text
  pub retryable_failure : Bool
  pub preserve_card : Bool

abbrev pub run_status_of : CompletionStatus → RunStatus
run_status_of succeeded = success
run_status_of failed_run = failed
run_status_of cancelled_completion = cancelled_run

abbrev pub is_failed : CompletionStatus → Bool
is_failed failed_run = true
is_failed _ = false

abbrev pub is_succeeded : CompletionStatus → Bool
is_succeeded succeeded = true
is_succeeded _ = false

abbrev pub is_cancelled : CompletionStatus → Bool
is_cancelled cancelled_completion = true
is_cancelled _ = false

-- The update of the run, for a run that is queued or running.
unfoldable pub settle_run : ℕ → RunCompletion → TaskRunRow → TaskRunRow
settle_run id input run =
    if run.id == id && is_live_run run.status
    then record run { status = run_status_of input.status; error = input.error }
    else run

abbrev pub counts : RunCompletion → Bool
counts input = is_failed input.status && input.retryable_failure

-- `Math.min(RUN_FAILURE_LIMIT, failures + 1)`.
abbrev pub one_more : ℕ → ℕ
one_more failures = if ltb failures run_failure_limit then suc failures else run_failure_limit

unfoldable pub failures_after : RunCompletion → Option RetryEntry → ℕ
failures_after input entry = if counts input then one_more (failures_of entry) else 0

abbrev pub is_exhausted : ℕ → Bool
is_exhausted failures = leb run_failure_limit failures

unfoldable pub entry_after : RunCompletion → ℕ → Option RetryEntry → Option RetryEntry
entry_after input now entry =
    let failures = failures_after input entry in
    if counts input
    then some (record {
      failures = failures;
      next_run_at =
          if is_exhausted failures then none else some (now + retry_minutes failures * 60000);
    })
    else none

abbrev pub keeps_column : Option CardStatus → Bool
keeps_column (some done) = true
keeps_column (some cancelled) = true
keeps_column (some blocked) = true
keeps_column (some waiting_on_client) = true
keeps_column _ = false

abbrev pub is_out : Option CardStatus → Bool
is_out (some cancelled) = true
is_out (some waiting_on_client) = true
is_out _ = false

unfoldable pub blocks : RunCompletion → RecoveryStage → CardRow → Bool
blocks input kind card =
    is_exhausted (failures_after input (entry_of kind card.run_retry_state))
    && not (keeps_column card.column_status)

unfoldable pub retried_card : RunCompletion → RecoveryStage → ℕ → Text → CardRow → CardRow
retried_card input kind now reason card =
    let state =
      set_entry kind (entry_after input now (entry_of kind card.run_retry_state))
        card.run_retry_state in
    if blocks input kind card
    then record card {
      run_retry_state = state;
      column_status = some blocked;
      last_error = some reason;
      next_run_at = none;
      completed_at = none;
    }
    else record card { run_retry_state = state }

abbrev pub waits_external : Option CardStatus → Bool
waits_external (some waiting_on_external) = true
waits_external _ = false

abbrev pub is_prepared : IntentState → Bool
is_prepared prepared = true
is_prepared _ = false

-- The exact prepared candidate of the run is carried across the write of the card.
unfoldable pub carry_intent : CardRow → ℕ → (version : ℕ) → MergeIntentRow → MergeIntentRow
carry_intent card run version m =
    if m.card_id == card.id
      && (same m.originating_task_run_id (some run)
          && (is_prepared m.state
              && (m.gate_version == card.merge_gate_version && not m.authorized)))
    then record m { gate_version = version }
    else m

module _ (fence : CardRow → CardRow → ℕ)
    (reason_text : RecoveryStage → ℕ → Option Text → Text) where
  unfoldable pub failure_of : TaskRunRow → Text → Failure
  failure_of run reason = record {
    reason = reason;
    event_key = run.id;
    actor_id = run.agent_id;
    stage = run.kind;
    source_message_id = run.message_comment_id;
    task_run_id = some run.id;
    original_reviewer_id = none;
    permission_blocked = false;
    require_current_run_authority = false;
  }

  -- What is written of the card, its intents and its recovery.
  unfoldable pub retry_card : Store → TaskRunRow → RunCompletion → ℕ → CardRow → Store
  retry_card s run input now card =
      let reason =
        reason_text run.kind (failures_after input (entry_of run.kind card.run_retry_state))
          input.error in
      let drafted = retried_card input run.kind now reason card in
      let updated = record drafted { merge_gate_version = fence card drafted } in
      let carries =
        is_succeeded input.status
        && (not (blocks input run.kind card) && waits_external card.column_status) in
      let written = record s {
        card = some updated;
        merge_intents =
            if carries
            then map (carry_intent card run.id updated.merge_gate_version) s.merge_intents
            else s.merge_intents;
      } in
      if blocks input run.kind card
      then (request_card_recovery written updated (failure_of run reason)).0
      else written

  abbrev pub merge_in_flight : Store → CardRow → Bool
  merge_in_flight s card =
      any (λ (m : MergeIntentRow). m.card_id == card.id && is_claimed m.state) s.merge_intents

  -- The card after a run that was live is settled.
  unfoldable pub settle_card : Store → TaskRunRow → RunCompletion → ℕ → CardRow → Store
  settle_card s run input now card =
      if is_cancelled input.status || input.preserve_card
      then s
      else if merge_in_flight s card
      then s
      else if any (human_gate_open card.id) s.approvals || is_out card.column_status
      then s
      else if completion_condition s card none false card
      then retry_card s run input now card
      else s

  abbrev pub settle_row : Store → TaskRunRow → RunCompletion → ℕ → Option CardRow → Store
  settle_row s run input now none = s
  settle_row s run input now (some card) =
      if card.id == run.card_id && is_live_run run.status
      then settle_card (record s { task_runs = map (settle_run run.id input) s.task_runs }) run
          input now card
      else s

  abbrev pub complete_run : Store → RunCompletion → ℕ → Option TaskRunRow → Store × Bool
  complete_run s input now none = (s, false)
  complete_run s input now (some run) =
      if is_retry_kind run.kind then (settle_row s run input now s.card, true) else (s, false)

  unfoldable pub complete_retryable_run : Store → ℕ → RunCompletion → ℕ → Store × Bool
  complete_retryable_run s run input now =
      complete_run s input now (find (λ (r : TaskRunRow). r.id == run) s.task_runs)
