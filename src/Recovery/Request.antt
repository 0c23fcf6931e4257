-- ===== src/Recovery/Request.antt =====
-- card-recovery.ts `requestCardRecovery`.
use megacorps.Prelude.{
  suc, ℕ, ◌+◌, Bool, true, false, Option, none, some, List, [], ◌∷◌, ◌++◌, ◌&&◌, ◌||◌, not, any,
  find, if◌then◌else◌, ltb, ◌==◌, same, is_some, get_or, contains, Text,
}
use megacorps.Workflow.Status.{CardStatus, in_review, needs_review}
use megacorps.Recovery.Store.{
  locked, pending_approval, recovery_requested, RecoveryStage, dispatch, review, message,
  message_review, RecoveryMode, awaiting_manager, awaiting_human, RecoveryState, CardRow,
  ApprovalRow, task_review, TaskRunRow, RunStatus, queued, running, failed, CommentRow,
  RecoveryNote, Store, completion_condition, recovery_mutation_allowed,
}
use megacorps.Recovery.Owner.{owner_for}

abbrev pub recovery_round_limit : ℕ
recovery_round_limit = 3

pub record Failure : Type 0 where
  pub reason : Text
  pub event_key : ℕ
  pub actor_id : Option ℕ
  pub stage : RecoveryStage
  pub source_message_id : Option ℕ
  pub task_run_id : Option ℕ
  -- `undefined` is none, `null` is some none.
  pub original_reviewer_id : Option (Option ℕ)
  pub permission_blocked : Bool
  pub require_current_run_authority : Bool

abbrev pub stage_eq : RecoveryStage → RecoveryStage → Bool
stage_eq dispatch dispatch = true
stage_eq review review = true
stage_eq message message = true
stage_eq message_review message_review = true
stage_eq _ _ = false

abbrev open_run : RunStatus → Bool
open_run queued = true
open_run running = true
open_run failed = true
open_run _ = false

abbrev in_review_column : Option CardStatus → Bool
in_review_column (some in_review) = true
in_review_column (some needs_review) = true
in_review_column _ = false

-- `x != null && x !== y`, negated.
abbrev absent_or : Option ℕ → Option ℕ → Bool
absent_or none b = true
absent_or a b = same a b

unfoldable pub run_has_authority : CardRow → Failure → TaskRunRow → Bool
run_has_authority card failure run =
    stage_eq failure.stage review
    && (in_review_column card.column_status
        && (same card.reviewer_id run.agent_id
            && (absent_or card.active_heartbeat_run_id run.heartbeat_run_id
                && ((absent_or card.execution_lock_id (some run.id)
                      || absent_or card.execution_lock_id run.heartbeat_run_id)
                    && absent_or card.execution_locked_by run.agent_id))))

abbrev later : Option ℕ → Option ℕ → Bool
later (some a) (some b) = ltb b a
later _ _ = false

abbrev supersedes : CardRow → Failure → TaskRunRow → TaskRunRow → Bool
supersedes card failure source run =
    run.card_id == card.id
    && (stage_eq run.kind failure.stage
        && (not (run.id == source.id) && later run.created_at source.created_at))

unfoldable pub run_is_current : Store → CardRow → Failure → TaskRunRow → Bool
unfolding run_has_authority
run_is_current store card failure run =
    run.card_id == card.id
    && (run.company_id == card.company_id
        && (same run.agent_id failure.actor_id
            && (stage_eq run.kind failure.stage
                && (open_run run.status
                    && ((not failure.require_current_run_authority
                          || run_has_authority card failure run)
                        && not (any (supersedes card failure run) store.task_runs))))))

unfoldable pub source_run_current : Store → CardRow → Failure → Bool
unfolding run_is_current
source_run_current store card failure = elim failure.task_run_id [
  | none ↦ true
  | some id ↦ elim (find (λ r. r.id == id) store.task_runs) [
    | none ↦ false
    | some run ↦ run_is_current store card failure run
  ]
]

abbrev pub is_awaiting_human : RecoveryMode → Bool
is_awaiting_human awaiting_human = true
is_awaiting_human _ = false

abbrev pub is_awaiting_manager : RecoveryMode → Bool
is_awaiting_manager awaiting_manager = true
is_awaiting_manager _ = false

-- The event was handled, or a human is asked already.
abbrev pub handled_or_human : Option RecoveryState → ℕ → Bool
handled_or_human none event = false
handled_or_human (some old) event =
    contains old.handled_event_keys event || is_awaiting_human old.mode

abbrev pub owned_by_other : Option RecoveryState → Option ℕ → Bool
owned_by_other none actor = false
owned_by_other (some old) actor = is_awaiting_manager old.mode && not (same actor old.owner_id)

unfoldable pub request_allowed : Store → CardRow → CardRow → Failure → Bool
request_allowed store card input failure =
    recovery_mutation_allowed store none card
    && (not (handled_or_human card.recovery failure.event_key)
        && (completion_condition store input none false card
            && (source_run_current store card failure
                && not (owned_by_other card.recovery failure.actor_id))))

abbrev pub round_of : Option RecoveryState → ℕ
round_of none = 0
round_of (some r) = r.round

abbrev pub visited_of : Option RecoveryState → List ℕ
visited_of none = []
visited_of (some r) = r.visited_owner_ids

abbrev pub events_of : Option RecoveryState → List ℕ
events_of none = []
events_of (some r) = r.handled_event_keys

-- The old state, if a manager is being awaited.
abbrev continuing : Option RecoveryState → Option RecoveryState
continuing none = none
continuing (some r) = if is_awaiting_manager r.mode then some r else none

abbrev pub source_of : Store → CardRow → Option ℕ → Option CommentRow
source_of store card none = none
source_of store card (some id) = find (λ c. c.id == id && c.card_id == card.id) store.comments

-- `a ?? b` on nullable identifiers.
abbrev or_else : Option ℕ → Option ℕ → Option ℕ
or_else none b = b
or_else a b = a

abbrev field {ℓ κ} : {A : Type ℓ} {B : Type κ} → Option A → (A → Option B) → Option B
field none f = none
field (some a) f = f a

unfoldable pub next_owner : Store → CardRow → Failure → Option ℕ
next_owner store card failure =
    if ltb (round_of card.recovery) recovery_round_limit
    then owner_for store card failure.actor_id (visited_of card.recovery)
    else none

abbrev pub with_owner : List ℕ → Option ℕ → List ℕ
with_owner visited none = visited
with_owner visited (some id) = visited ++ id ∷ []

abbrev was_blocked : Option RecoveryState → Bool
was_blocked none = false
was_blocked (some r) = r.permission_blocked

unfoldable pub next_recovery : Store → CardRow → Failure → Option ℕ → RecoveryState
next_recovery store card failure owner =
    let old = card.recovery in
    let kept = continuing old in
    let source = source_of store card failure.source_message_id in
    record {
      mode = if is_some owner then awaiting_manager else awaiting_human;
      owner_id = owner;
      original_assignee_id = elim kept [
        | none ↦ card.assignee_id
        | some k ↦ k.original_assignee_id
      ];
      original_reviewer_id = elim kept [
        | none ↦ get_or failure.original_reviewer_id card.reviewer_id
        | some k ↦ k.original_reviewer_id
      ];
      stage = elim kept [ none ↦ failure.stage | some k ↦ k.stage ];
      reason = failure.reason;
      round = round_of old + (if is_some owner then 1 else 0);
      handled_event_keys = events_of old ++ failure.event_key ∷ [];
      visited_owner_ids = with_owner (visited_of old) owner;
      source_message_id = or_else (field kept (λ k. k.source_message_id)) failure.source_message_id;
      source_assignee_id =
          or_else (field kept (λ k. k.source_assignee_id))
            (field source (λ c. c.assignee_agent_id));
      source_reviewer_id =
          or_else (field kept (λ k. k.source_reviewer_id))
            (field source (λ c. c.reviewer_agent_id));
      permission_blocked = was_blocked old || failure.permission_blocked;
    }

unfoldable pub recovered_card : Store → CardRow → Failure → Option ℕ → CardRow
unfolding next_recovery
recovered_card store card failure owner =
    let retries = card.run_retry_state in
    record card {
      recovery = some (next_recovery store card failure owner);
      repair_review = if is_some owner then none else card.repair_review;
      column_status = some (if is_some owner then needs_review else in_review);
      reviewer_id = owner;
      completed_at = none;
      last_error = some failure.reason;
      next_run_at = none;
      run_retry_state = if is_some owner then record retries { review = none } else retries;
      execution_lock_id = none;
      execution_locked_by = none;
      active_heartbeat_run_id = none;
    }

-- `humanGate`: the approval that a human has to decide.
abbrev pub human_gate : ℕ → CardRow → Option ℕ → ApprovalRow
human_gate id card owner = record {
  id = id;
  card_id = card.id;
  kind = task_review;
  status = pending_approval;
  human_gate = true;
  for_recovery = true;
  for_round = false;
  decision_note = none;
  requested_by = owner;
}

abbrev pub gates : ℕ → CardRow → Option ℕ → List ApprovalRow
gates id card none = human_gate id card none ∷ []
gates id card (some owner) = []

abbrev recovery_note : CardRow → RecoveryState → RecoveryNote
recovery_note card r = record {
  card_id = card.id;
  action = recovery_requested;
  agent_id = none;
  body = r.reason;
  assignee_agent_id = r.owner_id;
  round = r.round;
}

-- What the transaction writes, and the row that it returns.
unfoldable pub commit_recovery : Store → CardRow → Failure → Store × Option CardRow
commit_recovery store card failure =
    let owner = next_owner store card failure in
    let updated = recovered_card store card failure owner in
    (
      record store {
        card = some updated;
        approvals = gates store.next_id card owner ++ store.approvals;
        recovery_notes =
            recovery_note card (next_recovery store card failure owner) ∷ store.recovery_notes;
        next_id = suc store.next_id;
      },
      some updated,
    )

abbrev pub recovery_on : Store → CardRow → Failure → Option CardRow → Store × Option CardRow
recovery_on store input failure none = (store, none)
recovery_on store input failure (some card) =
    if request_allowed store card input failure
    then commit_recovery store card failure
    else (store, none)

-- The transaction: the stored row, and what it returns; `none` is `null`, with nothing written.
unfoldable pub request_card_recovery : Store → CardRow → Failure → Store × Option CardRow
request_card_recovery store input failure =
    recovery_on store input failure (locked input store.card)
