-- ===== src/Examples/Decisions.antt =====
-- The same card, while its recovery waits for the manager, for a human, and after a retry.
use megacorps.Prelude.{
  ℕ, suc, true, false, Option, none, some, [], ◌∷◌, ◌≡◌, trim, refl, Text, text, arith,
}
use megacorps.Workflow.Status.{in_review, needs_review}
use megacorps.Recovery.Store.{
  RecoveryStage, message, awaiting_manager, awaiting_human, RecoveryState, CardRow, Store,
  TaskRunRow, running, recovery_mutation_allowed, completion_condition,
}
use megacorps.Recovery.Request.{request_card_recovery, human_gate}
use megacorps.Recovery.Report.{
  ManagerAction, rework, RecoveryReport, combines, Applied, applied, store_after, assignee_for,
}
use megacorps.Recovery.Apply.{
  commit_decision, source_lost, assigned_decision, recovery_decision, apply_recovery_report,
}
use megacorps.Recovery.Human.{HumanAnswer, commit_answer, answer_recovery, finish_human_recovery}
use megacorps.Recovery.Rounds.{WellFormedCard}
use megacorps.Recovery.Decided.{HoldsOnlyDecision, IsDecided, apply_recovery_report-IsDecided}
use megacorps.Recovery.Answered.{IsAnswered, finish_human_recovery-IsAnswered}
use megacorps.Recovery.Cycle.{request, report, Steps, here, next, Steps-WellFormedCard}
use megacorps.Retry.Complete.{RunCompletion, failed_run, complete_retryable_run}
use megacorps.Retry.Limits.{LimitedCard, complete_retryable_run-LimitedCard}
use megacorps.Retry.Once.{complete_retryable_run-again}
use megacorps.Examples.Handovers.{first_round, failing, office, crash}

abbrev manager_round : RecoveryState
manager_round = record first_round { mode = awaiting_manager; owner_id = some 3 }

abbrev with_manager : CardRow
with_manager = record failing {
  recovery = some manager_round;
  reviewer_id = some 3;
  column_status = some needs_review;
}

abbrev manager_office : Store
manager_office = record office { card = some with_manager }

abbrev do_again : ManagerAction
do_again = rework (text "flaky") (text "Pin the version.")

abbrev plain_report : RecoveryReport
plain_report = record {
  action = some do_again;
  completed = true;
  verdict = false;
  work_products = false;
  children = false;
  delegations = false;
  request = false;
  checkpoint = false;
  broadcast = false;
  findings = false;
  verifications = false;
  dispositions = false;
  escalation = false;
}

abbrev reworked : Applied
reworked = commit_decision manager_office with_manager manager_round 3 do_again (some 1)

manager_decides :
    apply_recovery_report manager_office with_manager 3 plain_report none ≡ applied reworked
unfolding apply_recovery_report combines recovery_mutation_allowed completion_condition
    recovery_decision assigned_decision assignee_for source_lost
manager_decides = refl

apply_recovery_report-IsDecided_example :
    (action : ManagerAction) × ((plain_report.action ≡ some action)
      × (HoldsOnlyDecision plain_report
          × ((card : CardRow) × ((r : RecoveryState) × IsDecided manager_office 3 action card r
                  reworked))))
apply_recovery_report-IsDecided_example =
    apply_recovery_report-IsDecided manager_office with_manager 3 plain_report none reworked
      manager_decides

abbrev human_round : RecoveryState
human_round = record first_round { mode = awaiting_human; owner_id = none }

abbrev with_human : CardRow
with_human = record failing { recovery = some human_round; column_status = some in_review }

abbrev human_office : Store
human_office = record office {
  card = some with_human;
  approvals = human_gate 400 with_human none ∷ [];
}

abbrev go_on : HumanAnswer
go_on = record { cancelled = false; instructions = some (text "Use the mirror.") }

abbrev released : Applied
released = commit_answer human_office with_human human_round 400 go_on

human_answers : finish_human_recovery human_office with_human 400 go_on ≡ applied released
unfolding finish_human_recovery recovery_mutation_allowed answer_recovery source_lost trim
human_answers = refl

finish_human_recovery-IsAnswered_example :
    (card : CardRow) × ((r : RecoveryState) × IsAnswered human_office 400 go_on card r released)
finish_human_recovery-IsAnswered_example =
    finish_human_recovery-IsAnswered human_office with_human 400 go_on released human_answers

abbrev after_crash : Store
after_crash = (request_card_recovery office failing crash).0

-- The failure, then the report of the manager who was chosen.
abbrev two_steps :
    Steps office
      (store_after after_crash (apply_recovery_report after_crash failing 2 plain_report none))
two_steps =
    next after_crash _ (next office _ here (request office failing crash))
      (report after_crash failing 2 plain_report none)

office-WellFormedCard : WellFormedCard office.card
office-WellFormedCard = record {
  bounded = omega arith;
  counted = refl;
  distinct = (refl, tt);
  owned = λ h. ground arith;
}

Steps-WellFormedCard_example :
    WellFormedCard
      (store_after after_crash (apply_recovery_report after_crash failing 2 plain_report none)).card
Steps-WellFormedCard_example =
    Steps-WellFormedCard office
      (store_after after_crash (apply_recovery_report after_crash failing 2 plain_report none))
      two_steps office-WellFormedCard

abbrev message_run : TaskRunRow
message_run = record {
  id = 77;
  card_id = 40;
  company_id = 8;
  agent_id = some 1;
  kind = message;
  status = running;
  heartbeat_run_id = none;
  message_comment_id = none;
  error = none;
  created_at = none;
}

abbrev running_office : Store
running_office = record office { task_runs = message_run ∷ [] }

abbrev fault : RunCompletion
fault = record {
  status = failed_run;
  error = some (text "timeout");
  retryable_failure = true;
  preserve_card = false;
}

abbrev no_fence : CardRow → CardRow → ℕ
no_fence old new = suc old.merge_gate_version

abbrev plain_reason : RecoveryStage → ℕ → Option Text → Text
plain_reason kind failures error = text "failed"

complete_retryable_run-LimitedCard_example :
    LimitedCard (complete_retryable_run no_fence plain_reason running_office 77 fault 5000).0.card
complete_retryable_run-LimitedCard_example =
    complete_retryable_run-LimitedCard no_fence plain_reason running_office 77 fault 5000
      (omega arith, (omega arith, omega arith))

complete_retryable_run-again_example :
    (complete_retryable_run no_fence plain_reason
      (complete_retryable_run no_fence plain_reason running_office 77 fault 5000).0
      77
      fault
      9000).0
    ≡ (complete_retryable_run no_fence plain_reason running_office 77 fault 5000).0
complete_retryable_run-again_example =
    complete_retryable_run-again no_fence plain_reason running_office 77 fault 5000 fault 9000

abbrev open_card : CardRow
open_card = record failing { recovery = none }
