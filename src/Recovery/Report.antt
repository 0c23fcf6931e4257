-- ===== src/Recovery/Report.antt =====
-- card-recovery.ts `applyRecoveryReport`: the manager's decision. The panel that may have to open
-- after it is not modelled.
use megacorps.Prelude.{
  ℕ, Bool, true, false, Option, none, some, [], ◌++◌, ◌&&◌, ◌||◌, not, any, find, if◌then◌else◌,
  ◌==◌, same, is_some, get_or, Text, text, text_eq, to_lower,
}
use megacorps.Workflow.Status.{CardStatus, todo, in_progress, in_review}
use megacorps.Recovery.Store.{
  RecoveryStage, dispatch, review, message, message_review, RecoveryState, RunRetryState,
  RepairEntry, clear_repair, CardRow, AgentRow, DepartmentRow, ApprovalRow, cancelled_approval,
  is_pending, is_task_review, CommentRow, DelegationStatus, approved_delegation, done_delegation,
  cancelled_delegation, submitted_delegation, queued_delegation, NoteAction, recovery_fix_card,
  recovery_rework, recovery_raise_to_human, Store,
}
use megacorps.Recovery.Owner.{holds_boss_position}
use megacorps.Recovery.Request.{stage_eq}

-- `agentRecoverySchema`, as parsed.
pub data ManagerAction : Type 0 where
  fix_card :
      (reason : Text) (instructions patch_body : Option Text) (assignee_slug : Option ℕ)
      → ManagerAction
  rework : (reason instructions : Text) → ManagerAction
  raise_to_human : (reason : Text) (instructions : Option Text) → ManagerAction

abbrev pub reason_of : ManagerAction → Text
reason_of (fix_card reason instructions body slug) = reason
reason_of (rework reason instructions) = reason
reason_of (raise_to_human reason instructions) = reason

abbrev pub instructions_of : ManagerAction → Option Text
instructions_of (fix_card reason instructions body slug) = instructions
instructions_of (rework reason instructions) = some instructions
instructions_of (raise_to_human reason instructions) = instructions

abbrev pub is_raise : ManagerAction → Bool
is_raise (raise_to_human reason instructions) = true
is_raise _ = false

-- What `applyRecoveryReport` reads of a report: the parsed decision, and which other parts it has.
pub record RecoveryReport : Type 0 where
  pub action : Option ManagerAction
  pub completed : Bool
  pub verdict : Bool
  pub work_products : Bool
  pub children : Bool
  pub delegations : Bool
  pub request : Bool
  pub checkpoint : Bool
  pub broadcast : Bool
  pub findings : Bool
  pub verifications : Bool
  pub dispositions : Bool
  pub escalation : Bool

unfoldable pub combines : RecoveryReport → Bool
combines r =
    not r.completed
    || (r.verdict
        || (r.work_products
            || (r.children
                || (r.delegations
                    || (r.request
                        || (r.checkpoint
                            || (r.broadcast
                                || (r.findings
                                    || (r.verifications || (r.dispositions || r.escalation))))))))))

pub data RecoveryError : Type 0 where
  action_required authority_changed permission_decision_required : RecoveryError
  assignee_patch_forbidden assignee_not_authorized message_authority_changed instructions_required :
      RecoveryError

pub record Applied : Type 0 where
  pub store : Store
  pub card : CardRow
  pub continue_kind : Option RecoveryStage
  pub source_message_id : Option ℕ

-- A transaction that throws writes nothing, and neither does one that returns `null`.
pub data Decision : Type 0 where
  thrown : RecoveryError → Decision
  nothing : Decision
  applied : Applied → Decision

abbrev pub store_after : Store → Decision → Store
store_after store (applied a) = a.store
store_after store _ = store

-- `/^(boss|ceo)$/i`.
abbrev pub is_boss_role : Option Text → Bool
is_boss_role none = false
is_boss_role (some role) =
    text_eq (to_lower role) (text "boss") || text_eq (to_lower role) (text "ceo")

unfoldable pub is_boss : Store → ℕ → Bool
is_boss store id =
    any
      (λ (a : AgentRow).
        a.id == id && (holds_boss_position store.boss_positions a || is_boss_role a.role))
      store.agents

-- The actor is the target's boss, heads its department, or is a company boss and the target heads one.
unfoldable pub is_authorized : Store → ℕ → AgentRow → Bool
is_authorized store actor target =
    same target.boss_id (some actor)
    || (any
          (λ (d : DepartmentRow).
            same (some d.id) target.department_id && same d.head_agent_id (some actor))
          store.departments
        || (is_boss store actor
            && any (λ (d : DepartmentRow). same d.head_agent_id (some target.id))
                store.departments))

-- Another active agent reports to the target, or belongs to a department that it heads.
unfoldable pub leads_others : Store → ℕ → Bool
leads_others store target =
    any
      (λ (a : AgentRow).
        a.is_active
        && (not (a.id == target)
            && (same a.boss_id (some target)
                || any
                    (λ (d : DepartmentRow).
                      same d.head_agent_id (some target) && same (some d.id) a.department_id)
                    store.departments)))
      store.agents

unfoldable pub may_execute : Store → ℕ → AgentRow → Bool
may_execute store actor target =
    is_authorized store actor target
    && (not (is_boss store target.id) && not (leads_others store target.id))

pub data Assignee : Type 0 where
  refused : RecoveryError → Assignee
  assign : Option ℕ → Assignee

abbrev pub check_executor : Store → ℕ → Option AgentRow → Assignee
check_executor store actor none = refused assignee_not_authorized
check_executor store actor (some target) =
    if may_execute store actor target
    then assign (some target.id)
    else refused assignee_not_authorized

unfoldable pub by_slug : Store → RecoveryState → ℕ → Option ℕ → Assignee
by_slug store r actor none = assign r.original_assignee_id
by_slug store r actor (some slug) =
    if is_some r.source_message_id
    then refused assignee_patch_forbidden
    else check_executor store actor
        (find (λ (a : AgentRow). a.slug == slug && a.is_active) store.agents)

unfoldable pub assignee_for : Store → RecoveryState → ℕ → ManagerAction → Assignee
assignee_for store r actor (fix_card reason instructions body slug) = by_slug store r actor slug
assignee_for store r actor _ = assign r.original_assignee_id

abbrev pub clarified : Option Text → Text → Option Text → Option Text
clarified body reason none = body
clarified body reason (some patch) =
    some (
      get_or body [] ++ (text "\n\nRecovery clarification (" ++ (reason ++ (text "):\n" ++ patch))))

abbrev pub body_for : CardRow → ManagerAction → Option Text
body_for card (fix_card reason instructions body slug) = clarified card.body reason body
body_for card _ = card.body

abbrev pub is_superseded : ℕ → ApprovalRow → Bool
is_superseded card a =
    a.card_id == card
    && (is_task_review a.kind && (is_pending a.status && not (a.human_gate || a.for_round)))

unfoldable pub supersede : ℕ → ApprovalRow → ApprovalRow
supersede card a =
    if is_superseded card a
    then record a {
      status = cancelled_approval;
      decision_note =
          some (text "Superseded by recovery guidance; no artifact approval was granted.");
    }
    else a

-- `if (r.stage !== 'dispatch') delete retries[r.stage]`.
unfoldable pub forget_stage : RecoveryStage → RunRetryState → RunRetryState
forget_stage dispatch retries = retries
forget_stage review retries = record retries { review = none }
forget_stage message retries = record retries { message = none }
forget_stage message_review retries = record retries { message_review = none }

abbrev pub is_closed : Option DelegationStatus → Bool
is_closed (some approved_delegation) = true
is_closed (some done_delegation) = true
is_closed (some cancelled_delegation) = true
is_closed _ = false

-- The delegated request is still the one that failed.
unfoldable pub source_holds : RecoveryState → Option CommentRow → Bool
source_holds r none = false
source_holds r (some source) =
    same source.assignee_agent_id r.source_assignee_id
    && (same source.reviewer_agent_id r.source_reviewer_id
        && not (is_closed source.delegation_status))

abbrev pub resumed_status : RecoveryStage → DelegationStatus
resumed_status message_review = submitted_delegation
resumed_status _ = queued_delegation

abbrev pub is_source : ℕ → Option ℕ → CommentRow → Bool
is_source card none c = false
is_source card (some id) c = c.id == id && c.card_id == card

unfoldable pub resume_source : ℕ → RecoveryState → Text → CommentRow → CommentRow
resume_source card r guidance c =
    if is_source card r.source_message_id c
    then record c { delegation_status = some (resumed_status r.stage); body = c.body ++ guidance }
    else c

abbrev pub clear_failures : Option RepairEntry → Option RepairEntry
clear_failures none = none
clear_failures (some e) = some (record e { failures = 0; mode = clear_repair; session_id = none })

-- The column that a card returns to.
unfoldable pub resumed_column : RecoveryState → CardStatus
resumed_column r =
    if is_some r.source_message_id
    then in_progress
    else if stage_eq r.stage review
    then in_review
    else todo

abbrev pub action_of : ManagerAction → NoteAction
action_of (fix_card reason instructions body slug) = recovery_fix_card
action_of (rework reason instructions) = recovery_rework
action_of (raise_to_human reason instructions) = recovery_raise_to_human
