-- ===== src/Recovery/Store.antt =====
-- The rows that a recovery transaction reads and writes, one card at a time: it holds that card's
-- row lock. Identifiers are numbers, times are numbers, and timestamps that nothing reads are left out.
use megacorps.Prelude.{
  if◌then◌else◌, ℕ, Bool, true, false, Option, none, some, List, ◌&&◌, ◌||◌, not, any, ◌==◌, same,
  Text,
}
use megacorps.Workflow.Status.{CardStatus, done, cancelled, waiting_on_client, status_eq}

pub data RecoveryStage : Type 0 where
  dispatch review message message_review : RecoveryStage

pub data RecoveryMode : Type 0 where
  awaiting_manager reworking awaiting_human resolved : RecoveryMode

pub record RecoveryState : Type 0 where
  pub mode : RecoveryMode
  pub owner_id : Option ℕ
  pub original_assignee_id : Option ℕ
  pub original_reviewer_id : Option ℕ
  pub stage : RecoveryStage
  pub reason : Text
  pub round : ℕ
  pub handled_event_keys : List ℕ
  pub visited_owner_ids : List ℕ
  pub source_message_id : Option ℕ
  pub source_assignee_id : Option ℕ
  pub source_reviewer_id : Option ℕ
  pub permission_blocked : Bool

pub record RetryEntry : Type 0 where
  pub failures : ℕ
  pub next_run_at : Option ℕ

pub data RepairMode : Type 0 where
  same_session fresh_context escalated helped blocked_repair clear_repair : RepairMode

-- protocol-repair.ts `Repair`: the replies of one stage that broke the reporting protocol.
pub record RepairEntry : Type 0 where
  pub failures : ℕ
  pub mode : RepairMode
  pub actor_id : ℕ
  pub session_id : Option ℕ
  pub run_keys : List ℕ
  pub visited_actor_ids : List ℕ
  pub fallback_id : Option ℕ
  pub original_reviewer_id : Option ℕ
  pub help_attempted : Bool

-- `RunRetryState`, one optional entry for each kind of run.
pub record RunRetryState : Type 0 where
  pub review : Option RetryEntry
  pub message : Option RetryEntry
  pub message_review : Option RetryEntry

pub record CardRow : Type 0 where
  pub id : ℕ
  pub company_id : ℕ
  pub deleted : Bool
  pub column_status : Option CardStatus
  pub assignee_id : Option ℕ
  pub reviewer_id : Option ℕ
  pub project_id : Option ℕ
  pub requires_approval : Bool
  pub execution_lock_id : Option ℕ
  pub execution_locked_by : Option ℕ
  pub active_heartbeat_run_id : Option ℕ
  pub recovery : Option RecoveryState
  -- `protocolRepairState.dispatch` and `.review`.
  pub repair_dispatch : Option RepairEntry
  pub repair_review : Option RepairEntry
  pub run_retry_state : RunRetryState
  pub next_run_at : Option ℕ
  pub completed_at : Option ℕ
  pub last_error : Option Text
  pub body : Option Text
  pub retry_count : ℕ
  pub review_feedback : Option Text
  pub merge_gate_version : ℕ

pub record AgentRow : Type 0 where
  pub id : ℕ
  pub is_active : Bool
  pub boss_id : Option ℕ
  pub department_id : Option ℕ
  pub position_id : Option ℕ
  pub slug : ℕ
  pub role : Option Text
  pub is_busy : Bool

pub record DepartmentRow : Type 0 where
  pub id : ℕ
  pub head_agent_id : Option ℕ

pub data ApprovalType : Type 0 where
  task_review client_checkpoint other_approval : ApprovalType

pub data ApprovalStatus : Type 0 where
  pending_approval cancelled_approval answered_approval other_decision : ApprovalStatus

-- Of the payload, `humanGate === true`, `kind === 'recovery'`, and whether it names a round or a panel.
pub record ApprovalRow : Type 0 where
  pub id : ℕ
  pub card_id : ℕ
  pub kind : ApprovalType
  pub status : ApprovalStatus
  pub human_gate : Bool
  pub for_recovery : Bool
  pub for_round : Bool
  pub decision_note : Option Text
  pub requested_by : Option ℕ

pub data RunStatus : Type 0 where
  queued running success failed cancelled_run : RunStatus

pub record TaskRunRow : Type 0 where
  pub id : ℕ
  pub card_id : ℕ
  pub company_id : ℕ
  pub agent_id : Option ℕ
  pub kind : RecoveryStage
  pub status : RunStatus
  pub heartbeat_run_id : Option ℕ
  pub message_comment_id : Option ℕ
  pub error : Option Text
  pub created_at : Option ℕ

pub data IntentState : Type 0 where
  prepared retryable in_flight accepted uncertain closed : IntentState

pub record MergeIntentRow : Type 0 where
  pub card_id : ℕ
  pub state : IntentState
  pub originating_task_run_id : Option ℕ
  pub gate_version : ℕ
  pub authorized : Bool

pub data DelegationStatus : Type 0 where
  approved_delegation done_delegation cancelled_delegation : DelegationStatus
  submitted_delegation queued_delegation running_delegation : DelegationStatus

pub record CommentRow : Type 0 where
  pub id : ℕ
  pub card_id : ℕ
  pub body : Text
  pub delegation_status : Option DelegationStatus
  pub assignee_agent_id : Option ℕ
  pub reviewer_agent_id : Option ℕ

pub data NoteAction : Type 0 where
  recovery_requested recovery_fix_card recovery_rework recovery_raise_to_human
        recovery_human_decision :
      NoteAction

-- A comment that records a step of the recovery.
pub record RecoveryNote : Type 0 where
  pub card_id : ℕ
  pub action : NoteAction
  pub agent_id : Option ℕ
  pub body : Text
  pub assignee_agent_id : Option ℕ
  pub round : ℕ

-- `card` is the row that has the identifier, if there is one; the others are the company's rows:
-- `agents` are those that are not deleted, `boss_positions` the ids of the positions with
-- `isCompanyBoss`.
pub record Store : Type 0 where
  pub card : Option CardRow
  pub agents : List AgentRow
  pub departments : List DepartmentRow
  pub boss_positions : List ℕ
  pub approvals : List ApprovalRow
  pub task_runs : List TaskRunRow
  pub merge_intents : List MergeIntentRow
  pub comments : List CommentRow
  pub recovery_notes : List RecoveryNote
  -- The identifier that the next inserted approval gets.
  pub next_id : ℕ

-- The locking query, by identifier and company.
abbrev pub locked : CardRow → Option CardRow → Option CardRow
locked input none = none
locked input (some row) =
    if row.id == input.id && row.company_id == input.company_id then some row else none

abbrev pub is_pending : ApprovalStatus → Bool
is_pending pending_approval = true
is_pending _ = false

abbrev pub same_status : Option CardStatus → Option CardStatus → Bool
same_status none none = true
same_status (some a) (some b) = status_eq a b
same_status _ _ = false

abbrev pub same_flag : Bool → Bool → Bool
same_flag true b = b
same_flag false b = not b

-- `['done', 'cancelled', 'waiting_on_client'].includes(card.columnStatus ?? '')`.
abbrev pub is_settled : Option CardStatus → Bool
is_settled (some done) = true
is_settled (some cancelled) = true
is_settled (some waiting_on_client) = true
is_settled _ = false

abbrev pub is_live_run : RunStatus → Bool
is_live_run queued = true
is_live_run running = true
is_live_run _ = false

abbrev pub is_claimed : IntentState → Bool
is_claimed in_flight = true
is_claimed accepted = true
is_claimed uncertain = true
is_claimed _ = false

abbrev pub is_checkpoint : ApprovalType → Bool
is_checkpoint client_checkpoint = true
is_checkpoint _ = false

abbrev pub is_task_review : ApprovalType → Bool
is_task_review task_review = true
is_task_review _ = false

abbrev pub human_gate_open : ℕ → ApprovalRow → Bool
human_gate_open card a =
    a.card_id == card && (is_pending a.status && (is_task_review a.kind && a.human_gate))

abbrev run_is_live : ℕ → ℕ → TaskRunRow → Bool
run_is_live run card r = r.id == run && (r.card_id == card && is_live_run r.status)

abbrev run_still_live : Store → Option ℕ → ℕ → Bool
run_still_live store none card = true
run_still_live store (some run) card = any (run_is_live run card) store.task_runs

-- completion-guard.ts `completionCondition`: the row is still the one that the caller read.
unfoldable pub completion_condition :
    Store → CardRow → Option ℕ → (allow_human_gate : Bool) → CardRow → Bool
completion_condition store snapshot task_run allow row =
    row.id == snapshot.id
    && (not row.deleted
        && (same_status row.column_status snapshot.column_status
            && (same row.assignee_id snapshot.assignee_id
                && (same row.reviewer_id snapshot.reviewer_id
                    && (same row.project_id snapshot.project_id
                        && (same_flag row.requires_approval snapshot.requires_approval
                            && (same row.execution_lock_id snapshot.execution_lock_id
                                && (same row.active_heartbeat_run_id
                                      snapshot.active_heartbeat_run_id
                                    && (run_still_live store task_run snapshot.id
                                        && (allow
                                            || not (
                                                any (human_gate_open snapshot.id)
                                                  store.approvals)))))))))))

abbrev bars_recovery : Option ℕ → ℕ → ApprovalRow → Bool
bars_recovery own_gate card a =
    a.card_id == card
    && (is_pending a.status
        && (not (same own_gate (some a.id)) && (is_checkpoint a.kind || a.human_gate)))

-- `recoveryMutationAllowed`, with the gate that the caller decides itself.
unfoldable pub recovery_mutation_allowed : Store → Option ℕ → CardRow → Bool
recovery_mutation_allowed store own_gate card =
    not (card.deleted || is_settled card.column_status)
    && (not (any (bars_recovery own_gate card.id) store.approvals)
        && not (any (λ m. m.card_id == card.id && is_claimed m.state) store.merge_intents))
