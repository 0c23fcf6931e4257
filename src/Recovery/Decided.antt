-- ===== src/Recovery/Decided.antt =====
-- What a decision on a recovery, a manager's or a human's, requires and leaves.
use megacorps.Prelude.{
  ℕ, ◌≡◌, ◌⊎◌, inl, inr, refl, sym, ap, subst, ◌∙◌, Bool, true, false, Option, none, some, ◌∷◌,
  ◌&&◌, not, find, find-some, map, if◌then◌else◌, ◌==◌, same→≡, is_some, arith, Bool-cases,
}
use mathlib.Core.Bool.{false≢true}
use megacorps.Workflow.Status.{in_review}
use megacorps.Recovery.Store.{
  awaiting_human, reworking, RecoveryState, CardRow, AgentRow, Store, locked, is_settled,
  completion_condition, recovery_mutation_allowed,
}
use megacorps.Recovery.Owner.{active_agent}
use megacorps.Recovery.Request.{is_awaiting_manager, human_gate}
use megacorps.Recovery.Report.{
  ManagerAction, fix_card, rework, raise_to_human, is_raise, RecoveryReport, combines, Applied,
  Decision, applied, may_execute, Assignee, refused, assign, check_executor, by_slug, assignee_for,
  supersede,
}
use megacorps.Recovery.Apply.{
  decided_recovery, decided_card, commit_decision, source_lost, assigned_decision, reports,
  has_authority, recovery_decision, decide_recovery, decide_row, decide_action,
  apply_recovery_report,
}
use megacorps.Recovery.Rounds.{locked-some}
use megacorps.Recovery.Resumed.{stage_column, resumed_column-stage}
use megacorps.Recovery.Executor.{IsExecutor, may_execute-IsExecutor}

abbrev pub is_applied : Decision → Bool
is_applied (applied a) = true
is_applied _ = false

-- A guard that stops was not met.
pub if-applied :
    (c : Bool) (stop rest : Decision) (a : Applied)
    → is_applied stop ≡ false
    → (if c then stop else rest) ≡ applied a
    → (c ≡ false) × (rest ≡ applied a)
if-applied true stop rest a e h = absurd (false≢true (sym e ∙ ap is_applied h))
if-applied false stop rest a e h = (refl, h)

abbrev assigned_or : Option ℕ → Assignee → Option ℕ
assigned_or d (assign a) = a
assigned_or d (refused e) = d

check_executor-assign :
    (store : Store) (actor slug : ℕ) (target : Option AgentRow) (assignee : Option ℕ)
    → find (λ (a : AgentRow). a.slug == slug && a.is_active) store.agents ≡ target
    → check_executor store actor target ≡ assign assignee
    → IsExecutor store actor assignee
check_executor-assign store actor slug none assignee e h = ground arith
check_executor-assign store actor slug (some target) assignee e h =
    elim (Bool-cases (may_execute store actor target)) [
      | inl able ↦ subst (IsExecutor store actor) (ap (assigned_or none) (rw able at h)) (
          may_execute-IsExecutor store actor target
            (ground
              (arith, find-some (λ (a : AgentRow). a.slug == slug && a.is_active) store.agents e))
            able)
      | inr unable ↦ ground arith
    ]

by_slug-assign :
    (store : Store) (r : RecoveryState) (actor : ℕ) (slug : Option ℕ) (assignee : Option ℕ)
    → by_slug store r actor slug ≡ assign assignee
    → (assignee ≡ r.original_assignee_id) ⊎ IsExecutor store actor assignee
unfolding by_slug
by_slug-assign store r actor none assignee h = inl (sym (ap (assigned_or none) h))
by_slug-assign store r actor (some slug) assignee h =
    elim (Bool-cases (is_some r.source_message_id)) [
      | inl delegated ↦ ground arith
      | inr direct ↦ inr (check_executor-assign store actor slug _ assignee refl (rw direct at h))
    ]

assignee_for-assign :
    (store : Store) (r : RecoveryState) (actor : ℕ) (action : ManagerAction) (assignee : Option ℕ)
    → assignee_for store r actor action ≡ assign assignee
    → (assignee ≡ r.original_assignee_id) ⊎ IsExecutor store actor assignee
unfolding assignee_for
assignee_for-assign store r actor (fix_card reason instructions body slug) assignee h =
    by_slug-assign store r actor slug assignee h
assignee_for-assign store r actor (rework reason instructions) assignee h =
    inl (sym (ap (assigned_or none) h))
assignee_for-assign store r actor (raise_to_human reason instructions) assignee h =
    inl (sym (ap (assigned_or none) h))

-- A report of a completed turn that holds no other part than the decision.
pub record HoldsOnlyDecision (report : RecoveryReport) : Type 0 where
  pub is_complete : report.completed ≡ true
  pub no_review :
      (report.verdict ≡ false)
      × (report.findings ≡ false)
      × (report.verifications ≡ false)
      × (report.dispositions ≡ false)
  pub no_work : (report.work_products ≡ false) × (report.children ≡ false)
  pub no_question :
      (report.delegations ≡ false)
      × (report.request ≡ false)
      × (report.checkpoint ≡ false)
      × (report.broadcast ≡ false)
      × (report.escalation ≡ false)

combines-HoldsOnlyDecision :
    (report : RecoveryReport) → combines report ≡ false → HoldsOnlyDecision report
unfolding combines
combines-HoldsOnlyDecision report h = record {
  is_complete = ground arith;
  no_review = (ground arith, ground arith, ground arith, ground arith);
  no_work = (ground arith, ground arith);
  no_question = (ground arith, ground arith, ground arith, ground arith, ground arith);
}

-- A manager's decision that is carried out.
pub record IsDecided (store : Store) (actor : ℕ) (action : ManagerAction) (card : CardRow)
    (r : RecoveryState) (a : Applied) : Type 0 where
  pub found : store.card ≡ some card
  pub of_card : card.recovery ≡ some r
  pub unsettled : is_settled card.column_status ≡ false
  pub awaited : is_awaiting_manager r.mode ≡ true
  pub owner : (r.owner_id ≡ some actor) × (card.reviewer_id ≡ some actor)
  pub active : is_some (active_agent store.agents actor) ≡ true
  pub restricted : r.permission_blocked ≡ true → is_raise action ≡ true
  pub assigned :
      (a.card.assignee_id ≡ r.original_assignee_id) ⊎ IsExecutor store actor a.card.assignee_id
  pub stored : a.store.card ≡ some a.card
  pub state : a.card.recovery ≡ some (decided_recovery r action)
  pub raised :
      is_raise action ≡ true
      → (a.card.column_status ≡ some in_review)
        × (a.card.reviewer_id ≡ none)
        × ((decided_recovery r action).mode ≡ awaiting_human)
  pub resumed :
      is_raise action ≡ false
      → (a.card.column_status ≡ some (stage_column r.source_message_id r.stage))
        × (a.card.reviewer_id ≡ r.original_reviewer_id)
        × ((decided_recovery r action).mode ≡ reworking)
  pub gated :
      is_raise action ≡ true
      → a.store.approvals
        ≡ human_gate store.next_id a.card r.owner_id ∷ map (supersede card.id) store.approvals

abbrev applied_or : Applied → Decision → Applied
applied_or d (applied a) = a
applied_or d _ = d

assigned_decision-applied :
    (store : Store) (card : CardRow) (r : RecoveryState) (actor : ℕ) (action : ManagerAction)
    (assignee : Assignee) (a : Applied)
    → assigned_decision store card r actor action assignee ≡ applied a
    → (who : Option ℕ) × ((assignee ≡ assign who)
        × (commit_decision store card r actor action who ≡ a))
unfolding assigned_decision
assigned_decision-applied store card r actor action (refused e) a h = ground arith
assigned_decision-applied store card r actor action (assign who) a h =
    let (kept, done_so) =
      if-applied (not (is_raise action) && source_lost store card r) _ _ a refl h in
    (who, (refl, ap (applied_or a) done_so))

recovery_decision-IsDecided :
    (store : Store) (card input : CardRow) (r : RecoveryState) (actor : ℕ) (action : ManagerAction)
    (run : Option ℕ) (a : Applied)
    → store.card ≡ some card
    → card.recovery ≡ some r
    → is_settled card.column_status ≡ false
    → recovery_decision store card input r actor action run ≡ applied a
    → IsDecided store actor action card r a
unfolding recovery_decision commit_decision decided_card
recovery_decision-IsDecided store card input r actor action run a found of_card unsettled h =
    let (authority, h1) = if-applied (not (has_authority card r actor)) _ _ a refl h in
    let (restricted, h2) =
      if-applied (r.permission_blocked && not (is_raise action)) _ _ a refl h1 in
    let (current, h3) =
      if-applied (not (completion_condition store input run false card)) _ _ a refl h2 in
    let (present, h4) =
      if-applied (not (is_some (active_agent store.agents actor))) _ _ a refl h3 in
    let (reporting, h5) = if-applied (not (reports store card actor run)) _ _ a refl h4 in
    let (who, (chosen, result)) = assigned_decision-applied store card r actor action _ a h5 in
    subst (IsDecided store actor action card r) result (record {
      found = found;
      of_card = of_card;
      unsettled = unsettled;
      awaited = ground arith;
      owner = (
        same→≡ r.owner_id (some actor) (ground arith),
        same→≡ card.reviewer_id (some actor) (ground arith),
      );
      active = ground arith;
      restricted = λ b. ground arith;
      assigned = assignee_for-assign store r actor action who chosen;
      stored = refl;
      state = refl;
      raised = λ raise. rw (raise, decided_recovery) (refl, refl, refl);
      resumed =
          λ resume. rw (resume, decided_recovery) (ap some (resumed_column-stage r), refl, refl);
      gated = λ raise. rw raise refl;
    })

pub settled-mutation :
    (store : Store) (own : Option ℕ) (card : CardRow)
    → recovery_mutation_allowed store own card ≡ true
    → is_settled card.column_status ≡ false
unfolding recovery_mutation_allowed
settled-mutation store own card h = ground arith

decide_recovery-some :
    (store : Store) (card input : CardRow) (actor : ℕ) (action : ManagerAction) (run : Option ℕ)
    (o : Option RecoveryState) (a : Applied)
    → decide_recovery store card input actor action run o ≡ applied a
    → (r : RecoveryState) × ((o ≡ some r)
        × (recovery_decision store card input r actor action run ≡ applied a))
decide_recovery-some store card input actor action run none a h = ground arith
decide_recovery-some store card input actor action run (some r) a h = (r, (refl, h))

decide_row-IsDecided :
    (store : Store) (input : CardRow) (actor : ℕ) (action : ManagerAction) (run : Option ℕ)
    (row : Option CardRow) (a : Applied)
    → (locked input store.card ≡ row)
    → decide_row store input actor action run row ≡ applied a
    → (card : CardRow) × ((r : RecoveryState) × IsDecided store actor action card r a)
decide_row-IsDecided store input actor action run none a e h = ground arith
decide_row-IsDecided store input actor action run (some card) a e h =
    elim (Bool-cases (recovery_mutation_allowed store none card)) [
      | inl ok ↦
          let (r, (of_card, decided)) =
            decide_recovery-some store card input actor action run card.recovery a (rw ok at h) in
          (
            card,
            (
              r,
              recovery_decision-IsDecided store card input r actor action run a
                  (locked-some input store.card card e) of_card
                  (settled-mutation store none card ok) decided,
            ),
          )
      | inr barred ↦ ground arith
    ]

decide_action-some :
    (store : Store) (input : CardRow) (actor : ℕ) (run : Option ℕ) (mixed : Bool)
    (o : Option ManagerAction) (a : Applied)
    → decide_action store input actor run mixed o ≡ applied a
    → (action : ManagerAction) × ((o ≡ some action)
        × ((mixed ≡ false)
            × (decide_row store input actor action run (locked input store.card) ≡ applied a)))
decide_action-some store input actor run mixed none a h = ground arith
decide_action-some store input actor run mixed (some action) a h =
    let (pure, rest) = if-applied mixed _ _ a refl h in (action, (refl, (pure, rest)))

-- A manager's report that is carried out is one of a completed turn that holds a decision and no other
-- part, and comes from the active agent who owns the awaited recovery and reviews the card, which is
-- not done, cancelled or waiting for the client. A recovery that a permission blocks can only be raised
-- to a human. The card goes back to its first assignee, or to an active agent who is no boss and leads
-- nobody, and to whom the manager may hand work: as its boss, as the head of its department, or, if it
-- heads one itself, as a company boss. A raise puts the card in review without a reviewer and opens a
-- gate for a human; any other decision returns it to its first reviewer and to the column of the stage
-- that failed.
pub apply_recovery_report-IsDecided :
    (store : Store) (input : CardRow) (actor : ℕ) (report : RecoveryReport) (run : Option ℕ)
    (a : Applied)
    → apply_recovery_report store input actor report run ≡ applied a
    → (action : ManagerAction) × ((report.action ≡ some action)
        × (HoldsOnlyDecision report
            × ((card : CardRow) × ((r : RecoveryState) × IsDecided store actor action card r a))))
unfolding apply_recovery_report
apply_recovery_report-IsDecided store input actor report run a h =
    let (action, (parsed, (pure, rest))) =
      decide_action-some store input actor run (combines report) report.action a h in
    (
      action,
      (
        parsed,
        (
          combines-HoldsOnlyDecision report pure,
          decide_row-IsDecided store input actor action run (locked input store.card) a refl rest,
        ),
      ),
    )
