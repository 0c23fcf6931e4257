-- ===== src/Protocol/Repair.antt =====
-- protocol-repair.ts: the repair of replies that break the reporting protocol, as the card keeps it. The
-- wording of the feedback is a parameter; the report that is kept with the reason is left out.
use megacorps.Prelude.{
  ℕ, suc, zero, ◌-◌, Bool, true, false, Option, none, some, List, [], ◌∷◌, ◌++◌, ◌&&◌, ◌||◌, not,
  any, find, if◌then◌else◌, ltb, leb, ◌==◌, same, is_some, get_or, contains, length, unique, Text,
}
use megacorps.Workflow.Status.{CardStatus, todo, in_review, needs_review, blocked}
use megacorps.Recovery.Store.{
  RecoveryStage, dispatch, review, RepairMode, same_session, fresh_context, escalated,
  blocked_repair, RepairEntry, CardRow, AgentRow, TaskRunRow, Store, is_settled, is_live_run,
  human_gate_open, completion_condition, recovery_mutation_allowed,
}

pub data ProtocolKind : Type 0 where
  dispatch_reply review_reply : ProtocolKind

abbrev pub repair_of : ProtocolKind → CardRow → Option RepairEntry
repair_of dispatch_reply card = card.repair_dispatch
repair_of review_reply card = card.repair_review

abbrev pub with_repair : ProtocolKind → RepairEntry → CardRow → CardRow
with_repair dispatch_reply entry card = record card { repair_dispatch = some entry }
with_repair review_reply entry card = record card { repair_review = some entry }

abbrev pub stage_of : ProtocolKind → RecoveryStage
stage_of dispatch_reply = dispatch
stage_of review_reply = review

abbrev pub is_escalated : RepairMode → Bool
is_escalated escalated = true
is_escalated _ = false

abbrev pub is_blocked : RepairMode → Bool
is_blocked blocked_repair = true
is_blocked _ = false

abbrev pub helps : Option RepairEntry → ℕ → Bool
helps none actor = false
helps (some e) actor = is_escalated e.mode && same e.fallback_id (some actor)

-- The kind of reply that the agent was asked to help with.
unfoldable pub protocol_help_origin : CardRow → ℕ → Option ProtocolKind
protocol_help_origin card actor =
    find (λ kind. helps (repair_of kind card) actor) (dispatch_reply ∷ review_reply ∷ [])

pub record MalformedReply : Type 0 where
  pub actor : AgentRow
  pub kind : ProtocolKind
  pub run_key : ℕ
  pub task_run_id : Option ℕ
  pub session_id : Option ℕ
  pub reason : Text

-- What the feedback says.
pub data Feedback : Type 0 where
  help_is_invalid correction_is_invalid : Text → Feedback
  correct_reply : RepairMode → Option ℕ → Text → Feedback

pub record ProtocolNote : Type 0 where
  pub failures : ℕ
  pub mode : RepairMode
  pub run_key : ℕ
  pub fallback_id : Option ℕ

-- The result, with the comment that was inserted.
pub record Recorded : Type 0 where
  pub card : CardRow
  pub duplicate : Bool
  pub mode : RepairMode
  pub fallback_id : Option ℕ
  pub feedback : Text
  pub note : Option ProtocolNote

abbrev pub fallback_of : Option RepairEntry → Option ℕ
fallback_of none = none
fallback_of (some e) = e.fallback_id

abbrev pub mode_or_blocked : Option RepairEntry → RepairMode
mode_or_blocked none = blocked_repair
mode_or_blocked (some e) = e.mode

abbrev pub keys_of : Option RepairEntry → List ℕ
keys_of none = []
keys_of (some e) = e.run_keys

abbrev pub visited_by : Option RepairEntry → List ℕ
visited_by none = []
visited_by (some e) = e.visited_actor_ids

abbrev pub failures_so_far : Option RepairEntry → ℕ
failures_so_far none = 0
failures_so_far (some e) = e.failures

abbrev pub first_of : Option ℕ → Option ℕ → Option ℕ
first_of none other = other
first_of (some id) other = some id

abbrev pub reviewer_before : Option RepairEntry → Option ℕ → Option ℕ
reviewer_before none reviewer = reviewer
reviewer_before (some e) reviewer = first_of e.original_reviewer_id reviewer

abbrev pub dropped : ℕ → List ℕ → List ℕ
dropped zero keys = keys
dropped (suc n) [] = []
dropped (suc n) (k ∷ keys) = dropped n keys

-- `[...keys, key].slice(-32)`.
unfoldable pub last_keys : List ℕ → ℕ → List ℕ
last_keys keys key = let all_keys = keys ++ key ∷ [] in dropped (length all_keys - 32) all_keys

abbrev pub has_mode : (RepairMode → Bool) → Option RepairEntry → Bool
has_mode test none = false
has_mode test (some e) = test e.mode

abbrev pub run_is_open : Option TaskRunRow → Bool
run_is_open none = true
run_is_open (some run) = is_live_run run.status

abbrev pub reply_run_open : Store → Option ℕ → Bool
reply_run_open store none = true
reply_run_open store (some id) = run_is_open (find (λ (r : TaskRunRow). r.id == id) store.task_runs)

unfoldable pub reply_counts : Store → CardRow → CardRow → Option RepairEntry → MalformedReply → Bool
reply_counts store input card old reply =
    recovery_mutation_allowed store none card
    && (completion_condition store input none false card
        && (not (contains (keys_of old) reply.run_key || has_mode is_blocked old)
            && (reply_run_open store reply.task_run_id
                && not (
                    is_settled card.column_status
                    || any (human_gate_open card.id) store.approvals))))

abbrev pub blocked_card : CardRow → Text → CardRow
blocked_card card feedback = record card {
  column_status = some blocked;
  last_error = some feedback;
  completed_at = none;
}

abbrev pub mode_after : ℕ → Option ℕ → RepairMode
mode_after failures (some helper) =
    if failures == 1 then same_session else if failures == 2 then fresh_context else escalated
mode_after failures none =
    if failures == 1 then same_session else if failures == 2 then fresh_context else blocked_repair

abbrev pub is_same_session : RepairMode → Bool
is_same_session same_session = true
is_same_session _ = false

abbrev pub is_dispatch : ProtocolKind → Bool
is_dispatch dispatch_reply = true
is_dispatch review_reply = false

abbrev pub status_after : ℕ → Option ℕ → ProtocolKind → Option CardStatus → CardStatus
status_after failures fallback kind current =
    if leb 3 failures
    then (if is_some fallback then needs_review else blocked)
    else if is_dispatch kind
    then todo
    else get_or current in_review

unfoldable pub counted_entry :
    CardRow → Option RepairEntry → MalformedReply → ℕ → Option ℕ → RepairEntry
unfolding last_keys
counted_entry card old reply failures fallback = record {
  failures = failures;
  mode = mode_after failures fallback;
  actor_id = reply.actor.id;
  session_id = if is_same_session (mode_after failures fallback) then reply.session_id else none;
  run_keys = last_keys (keys_of old) reply.run_key;
  visited_actor_ids = unique (visited_by old ++ reply.actor.id ∷ []);
  fallback_id = fallback;
  original_reviewer_id = reviewer_before old card.reviewer_id;
  help_attempted = is_some fallback;
}

-- `Math.min(3, failures + 1)`.
abbrev pub one_failure_more : ℕ → ℕ
one_failure_more n = if ltb n 3 then suc n else 3

abbrev pub counted_card : CardRow → MalformedReply → RepairEntry → Option ℕ → Text → CardRow
counted_card card reply entry fallback feedback = with_repair reply.kind entry (record card {
  column_status = some (status_after entry.failures fallback reply.kind card.column_status);
  reviewer_id = first_of fallback card.reviewer_id;
  completed_at = none;
  last_error = some feedback;
  execution_lock_id = none;
  execution_locked_by = none;
  active_heartbeat_run_id = none;
})

module _ (wording : Feedback → Text) where
  abbrev pub unchanged : CardRow → Option RepairEntry → MalformedReply → Recorded
  unchanged card old reply = record {
    card = card;
    duplicate = true;
    mode = mode_or_blocked old;
    fallback_id = fallback_of old;
    feedback = reply.reason;
    note = none;
  }

  abbrev pub stopped : CardRow → RepairEntry → Text → Recorded
  stopped card old feedback = record {
    card = card;
    duplicate = false;
    mode = blocked_repair;
    fallback_id = old.fallback_id;
    feedback = feedback;
    note = none;
  }

  -- The helper's own reply is malformed.
  unfoldable pub help_failed : CardRow → ProtocolKind → RepairEntry → MalformedReply → Recorded
  unfolding last_keys
  help_failed card kind old reply =
      let feedback = wording (help_is_invalid reply.reason) in
      let entry = record old {
        mode = blocked_repair;
        run_keys = last_keys old.run_keys reply.run_key;
        visited_actor_ids = old.visited_actor_ids ++ reply.actor.id ∷ [];
      } in
      if same old.fallback_id (some reply.actor.id)
      then stopped (with_repair kind entry (blocked_card card feedback)) old feedback
      else unchanged card (some old) reply

  -- The correction after help is malformed.
  unfoldable pub correction_failed :
      CardRow → ProtocolKind → RepairEntry → MalformedReply → Recorded
  unfolding last_keys
  correction_failed card kind old reply =
      let feedback = wording (correction_is_invalid reply.reason) in
      let entry = record old {
        mode = blocked_repair;
        run_keys = last_keys old.run_keys reply.run_key;
      } in
      stopped (with_repair kind entry (blocked_card card feedback)) old feedback
