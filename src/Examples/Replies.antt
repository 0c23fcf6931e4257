-- ===== src/Examples/Replies.antt =====
-- A worker whose third reply is malformed: its manager is asked for help.
use megacorps.Prelude.{
  ◌≡◌, ◌++◌, refl, Bool, true, false, none, some, [], ◌∷◌, Text, text, get_or, arith,
}
use megacorps.Recovery.Store.{
  RepairEntry, fresh_context, AgentRow, CardRow, Store, completion_condition,
  recovery_mutation_allowed,
}
use megacorps.Recovery.Owner.{head_of, listed, clear_chain, cyclic, chain_fuel}
use megacorps.Examples.Handovers.{worker, failing, office}
use megacorps.Recovery.Request.{
  request_card_recovery, request_allowed, source_run_current, commit_recovery,
}
use megacorps.Protocol.Repair.{
  dispatch_reply, MalformedReply, Feedback, Recorded, reply_counts, protocol_help_origin,
}
use megacorps.Protocol.Fallback.{protocol_fallback, fallback_from, may_help}
use megacorps.Protocol.Record.{
  answered_kind, record_reply, counted_reply, protocol_failure, record_protocol_failure,
}
use megacorps.Protocol.Ends.{IsAdvanced, record_protocol_failure-IsAdvanced}
use megacorps.Protocol.Helper.{IsChosen, protocol_fallback-IsChosen}

abbrev twice : RepairEntry
twice = record {
  failures = 2;
  mode = fresh_context;
  actor_id = 1;
  session_id = none;
  run_keys = 11 ∷ 12 ∷ [];
  visited_actor_ids = 1 ∷ [];
  fallback_id = none;
  original_reviewer_id = none;
  help_attempted = false;
}

abbrev failing_twice : CardRow
failing_twice = record failing { repair_dispatch = some twice }

abbrev store : Store
store = record office { card = some failing_twice }

abbrev all_available : AgentRow → Bool
all_available a = true

abbrev reason_only : Feedback → Text
reason_only (Feedback.help_is_invalid reason) = reason
reason_only (Feedback.correction_is_invalid reason) = reason
reason_only (Feedback.correct_reply mode fallback reason) = reason

abbrev third : MalformedReply
third = record {
  actor = worker;
  kind = dispatch_reply;
  run_key = 13;
  task_run_id = none;
  session_id = some 99;
  reason = text "no report";
}

-- The manager owns a round of recovery afterwards.
abbrev third_result : Recorded
third_result =
    get_or
      (record_protocol_failure all_available reason_only (λ key. key) store failing_twice third).1
      (record {
        card = failing_twice;
        duplicate = true;
        mode = fresh_context;
        fallback_id = none;
        feedback = [];
        note = none;
      })

third_is_recorded :
    (record_protocol_failure all_available reason_only (λ key. key) store failing_twice third).1
    ≡ some third_result
unfolding record_protocol_failure
third_is_recorded = refl

third_counts : third_result.duplicate ≡ false
unfolding record_protocol_failure record_reply reply_counts recovery_mutation_allowed
    completion_condition protocol_help_origin counted_reply clear_chain request_card_recovery
    request_allowed protocol_failure source_run_current commit_recovery
third_counts = refl

record_protocol_failure-IsAdvanced_example :
    (after : CardRow) × ((record_protocol_failure all_available reason_only
        (λ key. key)
        store
        failing_twice
        third).0.card
      ≡ some after)
    × IsAdvanced (answered_kind failing_twice third) failing_twice after
unfolding protocol_help_origin
record_protocol_failure-IsAdvanced_example =
    record_protocol_failure-IsAdvanced all_available reason_only (λ key. key) store failing_twice
      failing_twice third third_result refl third_is_recorded third_counts (omega arith)

manager_helps : protocol_fallback all_available store failing_twice worker (1 ∷ []) ≡ some 2
unfolding protocol_fallback fallback_from may_help clear_chain cyclic chain_fuel
manager_helps = refl

protocol_fallback-IsChosen_example :
    IsChosen all_available store failing_twice worker
      (1 ∷ 1 ∷ [])
      (listed (head_of store.departments worker.department_id) ++ listed worker.boss_id)
      2
protocol_fallback-IsChosen_example =
    protocol_fallback-IsChosen all_available store failing_twice worker (1 ∷ []) 2 manager_helps
