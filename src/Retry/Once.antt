-- ===== src/Retry/Once.antt =====
-- A run is settled once: a second callback for it finds it over.
use megacorps.Prelude.{
  ℕ, ◌≡◌, refl, sym, ap, subst, ◌∙◌, Bool, true, false, Option, none, some, List, [], ◌∷◌, ◌&&◌,
  ◌==◌, find, find-some, map, Text, arith, Bool-cases, inl, inr, ==→≡,
}
use megacorps.Recovery.Store.{RecoveryStage, CardRow, TaskRunRow, Store, is_live_run, locked}
use megacorps.Recovery.Request.{Failure, commit_recovery, recovery_on, request_card_recovery}
use megacorps.Retry.Ready.{is_retry_kind}
use megacorps.Retry.Complete.{
  RunCompletion, CompletionStatus, succeeded, failed_run, cancelled_completion, run_status_of,
  settle_run, blocks, retry_card, settle_card, settle_row, complete_run, complete_retryable_run,
}

run_status_of-over : (status : CompletionStatus) → is_live_run (run_status_of status) ≡ false
run_status_of-over succeeded = refl
run_status_of-over failed_run = refl
run_status_of-over cancelled_completion = refl

module _ (run : ℕ) (input : RunCompletion) where
  abbrev is_run : TaskRunRow → Bool
  is_run r = r.id == run

  settle_run-over :
      (r : TaskRunRow) → is_run r ≡ true → is_live_run (settle_run run input r).status ≡ false
  unfolding settle_run
  settle_run-over r h = ground (arith, run_status_of-over input.status)

  settle_run-id : (r : TaskRunRow) → (settle_run run input r).id ≡ r.id
  unfolding settle_run
  settle_run-id r = ground arith

  -- The first row with the identifier is settled by the update of the rows.
  find-settle_run :
      (rows : List TaskRunRow) (r : TaskRunRow)
      → find is_run rows ≡ some r
      → (after : TaskRunRow) × ((find is_run (map (settle_run run input) rows) ≡ some after)
          × (is_live_run after.status ≡ false))
  find-settle_run [] r h = ground arith
  find-settle_run (x ∷ rest) r h = elim (Bool-cases (is_run x)) [
    | inl here ↦ (settle_run run input x, (ground (arith, settle_run-id x), settle_run-over x here))
    | inr there ↦
        let (after, (found, over)) = find-settle_run rest r (rw there at h) in
        (after, (ground (arith, settle_run-id x), over))
  ]

recovery_on-task_runs :
    (s : Store) (input : CardRow) (failure : Failure) (row : Option CardRow)
    → (recovery_on s input failure row).0.task_runs ≡ s.task_runs
unfolding commit_recovery
recovery_on-task_runs s input failure none = refl
recovery_on-task_runs s input failure (some card) = ground arith

request_card_recovery-task_runs :
    (s : Store) (input : CardRow) (failure : Failure)
    → (request_card_recovery s input failure).0.task_runs ≡ s.task_runs
unfolding request_card_recovery
request_card_recovery-task_runs s input failure =
    recovery_on-task_runs s input failure (locked input s.card)

module _ (fence : CardRow → CardRow → ℕ)
    (reason_text : RecoveryStage → ℕ → Option Text → Text) where
  retry_card-task_runs :
      (s : Store) (run : TaskRunRow) (input : RunCompletion) (now : ℕ) (card : CardRow)
      → (retry_card fence reason_text s run input now card).task_runs ≡ s.task_runs
  unfolding retry_card
  retry_card-task_runs s run input now card = elim (Bool-cases (blocks input run.kind card)) [
    | inl stopped ↦ rw stopped (request_card_recovery-task_runs _ _ _)
    | inr moving ↦ rw moving refl
  ]

  settle_card-task_runs :
      (s : Store) (run : TaskRunRow) (input : RunCompletion) (now : ℕ) (card : CardRow)
      → (settle_card fence reason_text s run input now card).task_runs ≡ s.task_runs
  unfolding settle_card
  settle_card-task_runs s run input now card =
      ground (arith, retry_card-task_runs s run input now card)

  -- Whether a completion of the run does anything.
  abbrev acts : Option CardRow → TaskRunRow → Bool
  acts none run = false
  acts (some card) run =
      is_retry_kind run.kind && (card.id == run.card_id && is_live_run run.status)

  acts-live :
      (row : Option CardRow) (run : TaskRunRow)
      → is_live_run run.status ≡ false
      → acts row run ≡ false
  acts-live none run h = refl
  acts-live (some card) run h = ground arith

  settle_row-idle :
      (s : Store) (input : RunCompletion) (now : ℕ) (row : Option CardRow) (run : TaskRunRow)
      → is_retry_kind run.kind ≡ true
      → acts row run ≡ false
      → settle_row fence reason_text s run input now row ≡ s
  settle_row-idle s input now none run kind h = refl
  settle_row-idle s input now (some card) run kind h = ground arith

  settle_row-task_runs :
      (s : Store) (input : RunCompletion) (now : ℕ) (row : Option CardRow) (run : TaskRunRow)
      → acts row run ≡ true
      → (settle_row fence reason_text s run input now row).task_runs
        ≡ map (settle_run run.id input) s.task_runs
  settle_row-task_runs s input now none run h = ground arith
  settle_row-task_runs s input now (some card) run h = ground (
    arith,
    settle_card-task_runs (record s { task_runs = map (settle_run run.id input) s.task_runs }) run
        input now card,
  )

  complete_run-idle :
      (s : Store) (input : RunCompletion) (now : ℕ) (run : TaskRunRow)
      → acts s.card run ≡ false
      → (complete_run fence reason_text s input now (some run)).0 ≡ s
  complete_run-idle s input now run h = elim (Bool-cases (is_retry_kind run.kind)) [
    | inl kind ↦ rw kind (settle_row-idle s input now s.card run kind h)
    | inr other ↦ rw other refl
  ]

  acts-kind :
      (row : Option CardRow) (run : TaskRunRow)
      → acts row run ≡ true
      → is_retry_kind run.kind ≡ true
  acts-kind none run h = ground arith
  acts-kind (some card) run h = ground arith

  complete_run-task_runs :
      (s : Store) (input : RunCompletion) (now : ℕ) (run : TaskRunRow)
      → acts s.card run ≡ true
      → (complete_run fence reason_text s input now (some run)).0.task_runs
        ≡ map (settle_run run.id input) s.task_runs
  complete_run-task_runs s input now run h =
      rw (acts-kind s.card run h) (settle_row-task_runs s input now s.card run h)

  complete-idle :
      (t : Store) (run : ℕ) (again : RunCompletion) (later : ℕ) (r : TaskRunRow)
      → find (is_run run again) t.task_runs ≡ some r
      → acts t.card r ≡ false
      → (complete_retryable_run fence reason_text t run again later).0 ≡ t
  unfolding complete_retryable_run
  complete-idle t run again later r found idle =
      subst (λ (row : Option TaskRunRow). (complete_run fence reason_text t again later row).0 ≡ t)
        (sym found) (complete_run-idle t again later r idle)

  complete_run-again :
      (s : Store) (run : ℕ) (input : RunCompletion) (now : ℕ) (again : RunCompletion) (later : ℕ)
      (row : Option TaskRunRow)
      → find (λ (r : TaskRunRow). r.id == run) s.task_runs ≡ row
      → (complete_retryable_run fence reason_text
          (complete_run fence reason_text s input now row).0
          run
          again
          later).0
        ≡ (complete_run fence reason_text s input now row).0
  unfolding complete_retryable_run
  complete_run-again s run input now again later none e = rw e refl
  complete_run-again s run input now again later (some r) e = elim (Bool-cases (acts s.card r)) [
    | inl acting ↦
        let (after, (found, over)) = find-settle_run run input s.task_runs r e in
        let t = (complete_run fence reason_text s input now (some r)).0 in
        let rows =
          complete_run-task_runs s input now r acting
          ∙ ap (λ (id : ℕ). map (settle_run id input) s.task_runs)
              (==→≡ r.id run (find-some (is_run run input) s.task_runs e)) in
        complete-idle t run again later after
          (ap (λ (found_in : List TaskRunRow). find (is_run run input) found_in) rows ∙ found)
          (acts-live t.card after over)
    | inr idle ↦
        subst (λ (t : Store). (complete_retryable_run fence reason_text t run again later).0 ≡ t)
          (sym (complete_run-idle s input now r idle)) (complete-idle s run again later r e idle)
  ]

  -- Completing a run a second time, with whatever outcome and at whatever time, changes nothing: a
  -- duplicate callback is harmless.
  pub complete_retryable_run-again :
      (s : Store) (run : ℕ) (input : RunCompletion) (now : ℕ) (again : RunCompletion) (later : ℕ)
      → (complete_retryable_run fence reason_text
          (complete_retryable_run fence reason_text s run input now).0
          run
          again
          later).0
        ≡ (complete_retryable_run fence reason_text s run input now).0
  unfolding complete_retryable_run
  complete_retryable_run-again s run input now again later =
      complete_run-again s run input now again later (find (is_run run input) s.task_runs) refl
