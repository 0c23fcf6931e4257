-- ===== src/Retry/Keeps.antt =====
-- What the settling of a run keeps of the card.
use megacorps.Prelude.{
  ℕ, false, Option, none, some, ◌&&◌, ◌||◌, ◌==◌, any, find, Text, Bool-cases, inl, inr,
}
use megacorps.Recovery.Store.{
  RecoveryStage, CardRow, TaskRunRow, Store, human_gate_open, completion_condition, is_live_run,
}
use megacorps.Recovery.Request.{Failure, request_card_recovery}
use megacorps.Retry.Ready.{is_retry_kind}
use megacorps.Retry.Complete.{
  RunCompletion, is_cancelled, is_out, blocks, retried_card, retry_card, merge_in_flight,
  settle_card, settle_row, complete_run, complete_retryable_run,
}

module _ (P : Option CardRow → Type 0)
    (requested : (s : Store) (input : CardRow) (failure : Failure)
      → P s.card
      → P (request_card_recovery s input failure).0.card)
    (retried : (input : RunCompletion) (kind : RecoveryStage) (now : ℕ) (reason : Text)
        (card : CardRow) (version : ℕ)
      → P (some card)
      → P (
          some (record (retried_card input kind now reason card) { merge_gate_version = version })))
    (fence : CardRow → CardRow → ℕ) (reason_text : RecoveryStage → ℕ → Option Text → Text) where
  retry_card-keeps :
      (s : Store) (run : TaskRunRow) (input : RunCompletion) (now : ℕ) (card : CardRow)
      → P (some card)
      → P (retry_card fence reason_text s run input now card).card
  unfolding retry_card
  retry_card-keeps s run input now card w = elim (Bool-cases (blocks input run.kind card)) [
    | inl stopped ↦ rw stopped (requested _ _ _ (retried input run.kind now _ card _ w))
    | inr moving ↦ rw moving (retried input run.kind now _ card _ w)
  ]

  settle_card-keeps :
      (s : Store) (run : TaskRunRow) (input : RunCompletion) (now : ℕ) (card : CardRow)
      → P s.card
      → P (some card)
      → P (settle_card fence reason_text s run input now card).card
  unfolding settle_card
  settle_card-keeps s run input now card u w =
      elim (Bool-cases (is_cancelled input.status || input.preserve_card)) [
        | inl kept ↦ rw kept u
        | inr a ↦ rw a (elim (Bool-cases (merge_in_flight fence reason_text s card)) [
          | inl merging ↦ rw merging u
          | inr b ↦
              rw b
                (elim (Bool-cases
                  (any (human_gate_open card.id) s.approvals || is_out card.column_status)) [
                    | inl waits ↦ rw waits u
                    | inr c ↦
                        rw c (elim (Bool-cases (completion_condition s card none false card)) [
                          | inl same_card ↦ rw same_card (retry_card-keeps s run input now card w)
                          | inr changed ↦ rw changed u
                        ])
                  ])
        ])
      ]

  settle_row-keeps :
      (s : Store) (run : TaskRunRow) (input : RunCompletion) (now : ℕ) (row : Option CardRow)
      → P s.card
      → P row
      → P (settle_row fence reason_text s run input now row).card
  settle_row-keeps s run input now none u w = u
  settle_row-keeps s run input now (some card) u w =
      elim (Bool-cases (card.id == run.card_id && is_live_run run.status)) [
        | inl live ↦ rw live (settle_card-keeps _ run input now card u w)
        | inr over ↦ rw over u
      ]

  complete_run-keeps :
      (s : Store) (input : RunCompletion) (now : ℕ) (run : Option TaskRunRow)
      → P s.card
      → P (complete_run fence reason_text s input now run).0.card
  complete_run-keeps s input now none u = u
  complete_run-keeps s input now (some run) u = elim (Bool-cases (is_retry_kind run.kind)) [
    | inl kind ↦ rw kind (settle_row-keeps s run input now s.card u u)
    | inr other ↦ rw other u
  ]

  pub complete_retryable_run-keeps :
      (s : Store) (run : ℕ) (input : RunCompletion) (now : ℕ)
      → P s.card
      → P (complete_retryable_run fence reason_text s run input now).0.card
  unfolding complete_retryable_run
  complete_retryable_run-keeps s run input now =
      complete_run-keeps s input now (find (λ (r : TaskRunRow). r.id == run) s.task_runs)
