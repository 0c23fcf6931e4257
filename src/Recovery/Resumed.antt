-- ===== src/Recovery/Resumed.antt =====
-- The column of card-recovery.ts that a decision on a recovery returns a card to, as a table.
use megacorps.Prelude.{ℕ, ◌≡◌, refl, Option, none, some, is_some, if◌then◌else◌}
use megacorps.Workflow.Status.{CardStatus, in_progress, in_review, todo}
use megacorps.Recovery.Store.{
  RecoveryStage, dispatch, review, message, message_review, RecoveryState,
}
use megacorps.Recovery.Request.{stage_eq}
use megacorps.Recovery.Report.{resumed_column}

-- The column of the stage that failed: a delegated request is worked on where the card is, a review is
-- reviewed again, and anything else starts again.
abbrev pub stage_column : Option ℕ → RecoveryStage → CardStatus
stage_column (some request) stage = in_progress
stage_column none review = in_review
stage_column none dispatch = todo
stage_column none message = todo
stage_column none message_review = todo

pub resumed_column-stage :
    (r : RecoveryState) → resumed_column r ≡ stage_column r.source_message_id r.stage
unfolding resumed_column
resumed_column-stage r = go r.source_message_id r.stage
  where
    go :
        (source : Option ℕ) (stage : RecoveryStage)
        → (if is_some source
            then in_progress
            else if stage_eq stage review
            then in_review
            else todo)
          ≡ stage_column source stage
    go (some id) stage = refl
    go none review = refl
    go none dispatch = refl
    go none message = refl
    go none message_review = refl
