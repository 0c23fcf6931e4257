-- ===== src/Recovery/Answered.antt =====
-- What a human's answer to the gate of a recovery requires and leaves.
use megacorps.Prelude.{
  ℕ, ◌≡◌, refl, ap, subst, Bool, true, false, Option, none, some, List, [], ◌∷◌, ◌&&◌, not, map,
  ◌==◌, arith, All,
}
use megacorps.Workflow.Status.{blocked}
use megacorps.Recovery.Resumed.{stage_column, resumed_column-stage}
use megacorps.Recovery.Store.{
  resolved, reworking, RecoveryState, CardRow, ApprovalRow, Store, locked, is_settled,
  recovery_mutation_allowed, is_pending,
}
use megacorps.Recovery.Request.{is_awaiting_human}
use megacorps.Recovery.Report.{Applied, Decision, applied}
use megacorps.Recovery.Apply.{source_lost}
use megacorps.Recovery.Human.{
  HumanAnswer, lacks_text, gate_with, settle_gate, answered_recovery, answered_card, commit_answer,
  is_recovery_gate, answer_recovery, answer_row, finish_human_recovery,
}
use megacorps.Recovery.Rounds.{locked-some}
use megacorps.Recovery.Decided.{if-applied, settled-mutation}

-- A human's answer that is carried out.
pub record IsAnswered (store : Store) (gate : ℕ) (answer : HumanAnswer) (card : CardRow)
    (r : RecoveryState) (a : Applied) : Type 0 where
  pub found : store.card ≡ some card
  pub of_card : card.recovery ≡ some r
  pub unsettled : is_settled card.column_status ≡ false
  pub asked : is_awaiting_human r.mode ≡ true
  pub open_gate : is_recovery_gate (gate_with store gate card.id) ≡ true
  pub instructed : (not answer.cancelled && lacks_text answer.instructions) ≡ false
  pub stored : a.store.card ≡ some a.card
  pub state : a.card.recovery ≡ some (answered_recovery r answer)
  pub closed :
      All
        (λ (g : ApprovalRow). (g.id == gate) ≡ true → is_pending g.status ≡ false)
        a.store.approvals
  pub returned :
      (a.card.assignee_id ≡ r.original_assignee_id) × (a.card.reviewer_id ≡ r.original_reviewer_id)
  pub freed :
      ((answered_recovery r answer).owner_id ≡ none)
      × ((answered_recovery r answer).permission_blocked ≡ false)
  pub stopped :
      answer.cancelled ≡ true
      → (a.card.column_status ≡ some blocked) × ((answered_recovery r answer).mode ≡ resolved)
  pub resumed :
      answer.cancelled ≡ false
      → (a.card.column_status ≡ some (stage_column r.source_message_id r.stage))
        × ((answered_recovery r answer).mode ≡ reworking)

settle_gate-closed :
    (gate : ℕ) (answer : HumanAnswer) (gs : List ApprovalRow)
    → All
        (λ (g : ApprovalRow). (g.id == gate) ≡ true → is_pending g.status ≡ false)
        (map (settle_gate gate answer) gs)
unfolding settle_gate
settle_gate-closed gate answer [] = tt
settle_gate-closed gate answer (g ∷ rest) =
    (one (g.id == gate) refl, settle_gate-closed gate answer rest)
  where
    one :
        (b : Bool)
        → (g.id == gate) ≡ b
        → ((settle_gate gate answer g).id == gate) ≡ true
        → is_pending (settle_gate gate answer g).status ≡ false
    one true e k = rw e (ground arith)
    one false e k = ground arith

abbrev applied_or : Applied → Decision → Applied
applied_or d (applied a) = a
applied_or d _ = d

answer_recovery-IsAnswered :
    (store : Store) (card : CardRow) (gate : ℕ) (answer : HumanAnswer) (o : Option RecoveryState)
    (a : Applied)
    → store.card ≡ some card
    → card.recovery ≡ o
    → (not answer.cancelled && lacks_text answer.instructions) ≡ false
    → answer_recovery store card gate answer o ≡ applied a
    → (r : RecoveryState) × IsAnswered store gate answer card r a
unfolding answer_recovery commit_answer answered_card answered_recovery
answer_recovery-IsAnswered store card gate answer none a found of_card instructed h = ground arith
answer_recovery-IsAnswered store card gate answer (some r) a found of_card instructed h =
    let (guard, h1) =
      if-applied
        (not (
          is_recovery_gate (gate_with store gate card.id)
          && (is_awaiting_human r.mode && recovery_mutation_allowed store (some gate) card)))
        _ _ a refl h in
    let (held, h2) = if-applied (not answer.cancelled && source_lost store card r) _ _ a refl h1 in
    (
      r,
      subst (IsAnswered store gate answer card r) (ap (applied_or a) h2) (record {
        found = found;
        of_card = of_card;
        unsettled = settled-mutation store (some gate) card (ground arith);
        asked = ground arith;
        open_gate = ground arith;
        instructed = instructed;
        stored = refl;
        state = refl;
        closed = settle_gate-closed gate answer store.approvals;
        returned = (refl, refl);
        freed = (refl, refl);
        stopped = λ stop. rw stop (refl, refl);
        resumed = λ go_on. rw go_on (ap some (resumed_column-stage r), refl);
      }),
    )

answer_row-IsAnswered :
    (store : Store) (input : CardRow) (gate : ℕ) (answer : HumanAnswer) (row : Option CardRow)
    (a : Applied)
    → locked input store.card ≡ row
    → (not answer.cancelled && lacks_text answer.instructions) ≡ false
    → answer_row store gate answer row ≡ applied a
    → (card : CardRow) × ((r : RecoveryState) × IsAnswered store gate answer card r a)
answer_row-IsAnswered store input gate answer none a e instructed h = ground arith
answer_row-IsAnswered store input gate answer (some card) a e instructed h = (
  card,
  answer_recovery-IsAnswered store card gate answer card.recovery a
      (locked-some input store.card card e) refl instructed h,
)

-- A human's answer that is carried out was given to a pending gate of a recovery that waits for a
-- human, with instructions unless it cancels; the gate is decided, no permission bars the recovery and
-- nobody owns it any more, and the card goes back to its first assignee and reviewer, to the column of
-- the stage that failed, or, when the recovery is cancelled, to `blocked`.
pub finish_human_recovery-IsAnswered :
    (store : Store) (input : CardRow) (gate : ℕ) (answer : HumanAnswer) (a : Applied)
    → finish_human_recovery store input gate answer ≡ applied a
    → (card : CardRow) × ((r : RecoveryState) × IsAnswered store gate answer card r a)
unfolding finish_human_recovery
finish_human_recovery-IsAnswered store input gate answer a h =
    let (instructed, rest) =
      if-applied (not answer.cancelled && lacks_text answer.instructions) _ _ a refl h in
    answer_row-IsAnswered store input gate answer (locked input store.card) a refl instructed rest
