-- ===== src/Protocol/Record.antt =====
-- protocol-repair.ts `recordProtocolFailure`. The key of the event of a run is a parameter, and the task
-- log is left out. Every update stands under the condition that was just tested in the same
-- transaction, so it finds the row.
use megacorps.Prelude.{
  ℕ, Bool, false, Option, none, some, ◌&&◌, ◌||◌, not, if◌then◌else◌, leb, ◌==◌, is_some, get_or,
  Text,
}
use megacorps.Recovery.Store.{
  RepairMode, same_session, fresh_context, escalated, helped, blocked_repair, clear_repair,
  RepairEntry, RecoveryState, CardRow, AgentRow, Store,
}
use megacorps.Recovery.Request.{Failure, request_card_recovery}
use megacorps.Protocol.Fallback.{protocol_fallback}
use megacorps.Protocol.Repair.{
  ProtocolKind, repair_of, stage_of, is_escalated, is_blocked, protocol_help_origin, MalformedReply,
  Feedback, correct_reply, Recorded, failures_so_far, visited_by, reviewer_before, reply_counts,
  counted_entry, one_failure_more, counted_card, unchanged, help_failed, correction_failed,
}

abbrev pub recovery_owner : Option RecoveryState → Option ℕ
recovery_owner none = none
recovery_owner (some r) = r.owner_id

-- The recovery of a card whose repair is at an end.
unfoldable pub protocol_failure : (ℕ → ℕ) → CardRow → MalformedReply → Failure
protocol_failure event_of input reply = record {
  reason = reply.reason;
  event_key = event_of reply.run_key;
  actor_id = some reply.actor.id;
  stage = stage_of reply.kind;
  source_message_id = none;
  task_run_id = none;
  original_reviewer_id = some (reviewer_before (repair_of reply.kind input) input.reviewer_id);
  permission_blocked = false;
  require_current_run_authority = false;
}

abbrev pub ends_repair : RepairMode → Bool
ends_repair mode = is_blocked mode || is_escalated mode

abbrev pub handed_over : Recorded → Store × Option CardRow → Store × Recorded
handed_over r (store, none) = (store, r)
handed_over r (store, some card) =
    let owner = recovery_owner card.recovery in
    (
      store,
      record r {
        card = card;
        mode = if is_some owner then escalated else blocked_repair;
        fallback_id = owner;
      },
    )

-- The kind of reply that the repair is about: the one the actor was asked to help with, if any.
abbrev pub answered_kind : CardRow → MalformedReply → ProtocolKind
answered_kind card reply = get_or (protocol_help_origin card reply.actor.id) reply.kind

-- The row by its identifier, if it is not deleted.
abbrev pub live_row : ℕ → Option CardRow → Option CardRow
live_row id none = none
live_row id (some row) = if row.id == id && not row.deleted then some row else none

module _ (available : AgentRow → Bool) (wording : Feedback → Text) where
  -- The reply is counted; the third one asks for help.
  unfoldable pub counted_reply : Store → CardRow → Option RepairEntry → MalformedReply → Recorded
  unfolding counted_entry protocol_fallback
  counted_reply store card old reply =
      let failures = one_failure_more (failures_so_far old) in
      let fallback =
        if leb 3 failures
        then protocol_fallback available store card reply.actor (visited_by old)
        else none in
      let entry = counted_entry card old reply failures fallback in
      let feedback = wording (correct_reply entry.mode fallback reply.reason) in
      record {
        card = counted_card card reply entry fallback feedback;
        duplicate = false;
        mode = entry.mode;
        fallback_id = fallback;
        feedback = feedback;
        note = some (record {
          failures = failures;
          mode = entry.mode;
          run_key = reply.run_key;
          fallback_id = fallback;
        });
      }

  abbrev pub recorded_by_mode :
      RepairMode → Store → CardRow → ProtocolKind → RepairEntry → MalformedReply → Recorded
  recorded_by_mode escalated store card kind old reply = help_failed wording card kind old reply
  recorded_by_mode helped store card kind old reply = correction_failed wording card kind old reply
  recorded_by_mode same_session store card kind old reply =
      counted_reply store card (some old) reply
  recorded_by_mode fresh_context store card kind old reply =
      counted_reply store card (some old) reply
  recorded_by_mode blocked_repair store card kind old reply =
      counted_reply store card (some old) reply
  recorded_by_mode clear_repair store card kind old reply =
      counted_reply store card (some old) reply

  abbrev pub recorded_reply :
      Store → CardRow → ProtocolKind → Option RepairEntry → MalformedReply → Recorded
  recorded_reply store card kind none reply = counted_reply store card none reply
  recorded_reply store card kind (some old) reply =
      recorded_by_mode old.mode store card kind old reply

  unfoldable pub record_reply : Store → CardRow → CardRow → MalformedReply → Recorded
  record_reply store input card reply =
      let kind = answered_kind card reply in
      let old = repair_of kind card in
      if reply_counts store input card old reply
      then recorded_reply store card kind old reply
      else unchanged wording card old reply

  module _ (event_of : ℕ → ℕ) where
    abbrev pub after_reply : Store → CardRow → MalformedReply → Recorded → Store × Recorded
    after_reply store input reply r =
        let written = record store { card = some r.card } in
        let recovered =
          handed_over r
            (request_card_recovery written r.card (protocol_failure event_of input reply)) in
        if r.duplicate then (store, r) else if ends_repair r.mode then recovered else (written, r)

    abbrev pub record_on :
        Store → CardRow → MalformedReply → Option CardRow → Store × Option Recorded
    record_on store input reply none = (store, none)
    record_on store input reply (some card) =
        let (after, r) = after_reply store input reply (record_reply store input card reply) in
        (after, some r)

    -- The transaction; `none` is the error `card_not_found`, with nothing written.
    unfoldable pub record_protocol_failure :
        Store → CardRow → MalformedReply → Store × Option Recorded
    record_protocol_failure store input reply =
        record_on store input reply (live_row input.id store.card)
