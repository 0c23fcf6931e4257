-- ===== src/Recovery/Apply.antt =====
-- card-recovery.ts `applyRecoveryReport`, the transaction.
use megacorps.Prelude.{
  ℕ, suc, Bool, true, false, Option, none, some, ◌∷◌, ◌++◌, ◌&&◌, not, find, map, if◌then◌else◌,
  ◌==◌, same, is_some, get_or, Text, text,
}
use megacorps.Workflow.Status.{in_review}
use megacorps.Recovery.Store.{
  dispatch, review, awaiting_human, reworking, RecoveryState, CardRow, TaskRunRow, RecoveryNote,
  Store, locked, completion_condition, recovery_mutation_allowed,
}
use megacorps.Recovery.Owner.{active_agent}
use megacorps.Recovery.Request.{stage_eq, is_awaiting_manager, source_of, human_gate}
use megacorps.Recovery.Report.{
  ManagerAction, reason_of, instructions_of, is_raise, RecoveryReport, combines, action_required,
  authority_changed, permission_decision_required, message_authority_changed, Applied, Decision,
  thrown, nothing, applied, Assignee, refused, assign, assignee_for, body_for, supersede,
  forget_stage, source_holds, resume_source, clear_failures, resumed_column, action_of,
}

-- `r` after the decision.
unfoldable pub decided_recovery : RecoveryState → ManagerAction → RecoveryState
decided_recovery r action = record r {
  mode = if is_raise action then awaiting_human else reworking;
  reason = reason_of action;
}

unfoldable pub decided_card : CardRow → RecoveryState → ManagerAction → Option ℕ → CardRow
unfolding decided_recovery
decided_card card r action assignee =
    let human = is_raise action in
    record card {
      body = body_for card action;
      assignee_id = assignee;
      reviewer_id = if human then none else r.original_reviewer_id;
      column_status = some (if human then in_review else resumed_column r);
      recovery = some (decided_recovery r action);
      repair_dispatch =
          if not human && stage_eq r.stage dispatch
          then clear_failures card.repair_dispatch
          else card.repair_dispatch;
      repair_review =
          if not human && stage_eq r.stage review
          then clear_failures card.repair_review
          else card.repair_review;
      run_retry_state = forget_stage r.stage card.run_retry_state;
      retry_count = if stage_eq r.stage dispatch then 0 else card.retry_count;
      next_run_at = none;
      last_error = some (reason_of action);
      review_feedback = some (get_or (instructions_of action) (reason_of action));
      completed_at = none;
    }

-- `[action.reason, action.instructions].filter(Boolean).join('\n\n')`.
abbrev pub decision_body : ManagerAction → Text
decision_body action = elim (instructions_of action) [
  | none ↦ reason_of action
  | some instructions ↦ reason_of action ++ (text "\n\n" ++ instructions)
]

unfoldable pub guidance : ManagerAction → Text
guidance action =
    text "\n\nRecovery guidance:\n" ++ get_or (instructions_of action) (reason_of action)

unfoldable pub commit_decision :
    Store → CardRow → RecoveryState → ℕ → ManagerAction → Option ℕ → Applied
unfolding decided_card
commit_decision store card r actor action assignee =
    let updated = decided_card card r action assignee in
    let approvals = map (supersede card.id) store.approvals in
    let note : RecoveryNote = record {
      card_id = card.id;
      action = action_of action;
      agent_id = some actor;
      body = decision_body action;
      assignee_agent_id = none;
      round = r.round;
    } in
    record {
      store = record store {
        card = some updated;
        approvals =
            if is_raise action
            then human_gate store.next_id updated r.owner_id ∷ approvals
            else approvals;
        comments =
            if is_raise action
            then store.comments
            else map (resume_source card.id r (guidance action)) store.comments;
        recovery_notes = note ∷ store.recovery_notes;
        next_id = suc store.next_id;
      };
      card = updated;
      continue_kind = if is_raise action then none else some r.stage;
      source_message_id = r.source_message_id;
    }

-- The delegated request that a decision resumes, if there is one, must still hold.
unfoldable pub source_lost : Store → CardRow → RecoveryState → Bool
source_lost store card r =
    is_some r.source_message_id && not (source_holds r (source_of store card r.source_message_id))

unfoldable pub assigned_decision :
    Store → CardRow → RecoveryState → ℕ → ManagerAction → Assignee → Decision
assigned_decision store card r actor action (refused e) = thrown e
assigned_decision store card r actor action (assign assignee) =
    if not (is_raise action) && source_lost store card r
    then thrown message_authority_changed
    else applied (commit_decision store card r actor action assignee)

-- The run that reports is the actor's review of a card of the company.
abbrev pub reports : Store → CardRow → ℕ → Option ℕ → Bool
reports store card actor none = true
reports store card actor (some id) =
    elim (find (λ (run : TaskRunRow). run.id == id) store.task_runs) [
      | none ↦ false
      | some run ↦
          run.company_id == card.company_id
          && (same run.agent_id (some actor) && stage_eq run.kind review)
    ]

abbrev pub has_authority : CardRow → RecoveryState → ℕ → Bool
has_authority card r actor =
    is_awaiting_manager r.mode
    && (same r.owner_id (some actor) && same card.reviewer_id (some actor))

unfoldable pub recovery_decision :
    Store → CardRow → CardRow → RecoveryState → ℕ → ManagerAction → Option ℕ → Decision
recovery_decision store card input r actor action task_run =
    if not (has_authority card r actor)
    then thrown authority_changed
    else if r.permission_blocked && not (is_raise action)
    then thrown permission_decision_required
    else if not (completion_condition store input task_run false card)
    then nothing
    else if not (is_some (active_agent store.agents actor))
    then thrown authority_changed
    else if not (reports store card actor task_run)
    then nothing
    else assigned_decision store card r actor action (assignee_for store r actor action)

abbrev pub decide_recovery :
    Store → CardRow → CardRow → ℕ → ManagerAction → Option ℕ → Option RecoveryState → Decision
decide_recovery store card input actor action task_run none = thrown authority_changed
decide_recovery store card input actor action task_run (some r) =
    recovery_decision store card input r actor action task_run

abbrev pub decide_row : Store → CardRow → ℕ → ManagerAction → Option ℕ → Option CardRow → Decision
decide_row store input actor action task_run none = nothing
decide_row store input actor action task_run (some card) =
    if recovery_mutation_allowed store none card
    then decide_recovery store card input actor action task_run card.recovery
    else nothing

abbrev pub decide_action : Store → CardRow → ℕ → Option ℕ → Bool → Option ManagerAction → Decision
decide_action store input actor task_run mixed none = thrown action_required
decide_action store input actor task_run mixed (some action) =
    if mixed
    then thrown action_required
    else decide_row store input actor action task_run (locked input store.card)

unfoldable pub apply_recovery_report : Store → CardRow → ℕ → RecoveryReport → Option ℕ → Decision
apply_recovery_report store input actor report task_run =
    decide_action store input actor task_run (combines report) report.action
