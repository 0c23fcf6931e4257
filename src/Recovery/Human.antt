-- ===== src/Recovery/Human.antt =====
-- card-recovery.ts `finishHumanRecovery`: the human's answer to the gate of a recovery.
use megacorps.Prelude.{
  ℕ, Bool, true, false, Option, none, some, [], ◌∷◌, ◌++◌, ◌&&◌, not, find, map, if◌then◌else◌,
  ◌==◌, is_empty, get_or, Text, text, trim,
}
use megacorps.Workflow.Status.{blocked}
use megacorps.Recovery.Store.{
  dispatch, review, resolved, reworking, RecoveryState, CardRow, ApprovalRow, cancelled_approval,
  answered_approval, is_pending, RecoveryNote, recovery_human_decision, Store, locked,
  recovery_mutation_allowed,
}
use megacorps.Recovery.Request.{stage_eq, is_awaiting_human}
use megacorps.Recovery.Report.{
  instructions_required, message_authority_changed, Applied, Decision, thrown, nothing, applied,
  forget_stage, resume_source, resumed_column,
}
use megacorps.Recovery.Apply.{source_lost}

-- The request's body: whether it cancels, and its instructions.
pub record HumanAnswer : Type 0 where
  pub cancelled : Bool
  pub instructions : Option Text

abbrev pub lacks_text : Option Text → Bool
lacks_text none = true
lacks_text (some t) = is_empty (trim t)

-- A column that is set to `undefined` stays as it is.
abbrev pub given : Option Text → Option Text → Option Text
given none old = old
given (some t) old = some t

abbrev pub gate_with : Store → ℕ → ℕ → Option ApprovalRow
gate_with store gate card =
    find (λ (a : ApprovalRow). a.id == gate && a.card_id == card) store.approvals

unfoldable pub settle_gate : ℕ → HumanAnswer → ApprovalRow → ApprovalRow
settle_gate gate answer a =
    if a.id == gate
    then record a {
      status = if answer.cancelled then cancelled_approval else answered_approval;
      decision_note = given answer.instructions a.decision_note;
    }
    else a

unfoldable pub answered_recovery : RecoveryState → HumanAnswer → RecoveryState
answered_recovery r answer = record r {
  owner_id = none;
  mode = if answer.cancelled then resolved else reworking;
  permission_blocked = false;
  reason = get_or answer.instructions (text "Recovery stopped by the client.");
}

unfoldable pub answered_card : CardRow → RecoveryState → HumanAnswer → CardRow
unfolding answered_recovery
answered_card card r answer = record card {
  recovery = some (answered_recovery r answer);
  repair_dispatch = if stage_eq r.stage dispatch then none else card.repair_dispatch;
  repair_review = if stage_eq r.stage review then none else card.repair_review;
  run_retry_state = forget_stage r.stage card.run_retry_state;
  column_status = some (if answer.cancelled then blocked else resumed_column r);
  assignee_id = r.original_assignee_id;
  reviewer_id = r.original_reviewer_id;
  retry_count = if stage_eq r.stage dispatch then 0 else card.retry_count;
  next_run_at = none;
  completed_at = none;
  review_feedback = given answer.instructions card.review_feedback;
  last_error = some (get_or answer.instructions (text "Recovery stopped by the client."));
}

unfoldable pub client_guidance : HumanAnswer → Text
client_guidance answer = text "\n\nClient recovery guidance:\n" ++ get_or answer.instructions []

unfoldable pub commit_answer : Store → CardRow → RecoveryState → ℕ → HumanAnswer → Applied
unfolding answered_card
commit_answer store card r gate answer =
    let updated = answered_card card r answer in
    let note : RecoveryNote = record {
      card_id = card.id;
      action = recovery_human_decision;
      agent_id = none;
      body = get_or answer.instructions (text "Recovery stopped by the client.");
      assignee_agent_id = none;
      round = r.round;
    } in
    record {
      store = record store {
        card = some updated;
        approvals = map (settle_gate gate answer) store.approvals;
        comments =
            if answer.cancelled
            then store.comments
            else map (resume_source card.id r (client_guidance answer)) store.comments;
        recovery_notes = note ∷ store.recovery_notes;
      };
      card = updated;
      continue_kind = if answer.cancelled then none else some r.stage;
      source_message_id = r.source_message_id;
    }

abbrev pub is_recovery_gate : Option ApprovalRow → Bool
is_recovery_gate none = false
is_recovery_gate (some a) = is_pending a.status && a.for_recovery

unfoldable pub answer_recovery : Store → CardRow → ℕ → HumanAnswer → Option RecoveryState → Decision
answer_recovery store card gate answer none = nothing
answer_recovery store card gate answer (some r) =
    if not (
      is_recovery_gate (gate_with store gate card.id)
      && (is_awaiting_human r.mode && recovery_mutation_allowed store (some gate) card))
    then nothing
    else if not answer.cancelled && source_lost store card r
    then thrown message_authority_changed
    else applied (commit_answer store card r gate answer)

abbrev pub answer_row : Store → ℕ → HumanAnswer → Option CardRow → Decision
answer_row store gate answer none = nothing
answer_row store gate answer (some card) = answer_recovery store card gate answer card.recovery

unfoldable pub finish_human_recovery : Store → CardRow → ℕ → HumanAnswer → Decision
finish_human_recovery store input gate answer =
    if not answer.cancelled && lacks_text answer.instructions
    then thrown instructions_required
    else answer_row store gate answer (locked input store.card)
