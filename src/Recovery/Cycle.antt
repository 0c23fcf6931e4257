-- ===== src/Recovery/Cycle.antt =====
-- The life of a recovery: failed and finished runs, malformed replies, requests, managers' reports and
-- humans' answers in any order.
use megacorps.Prelude.{ℕ, ◌≡◌, refl, sym, subst, Bool, Option, some, inl, inr, Bool-cases, Text}
use mathlib.Core.Bool.{false≢true}
use megacorps.Recovery.Store.{RecoveryStage, RecoveryState, AgentRow, CardRow, Store}
use megacorps.Recovery.Request.{Failure, request_card_recovery}
use megacorps.Recovery.Report.{
  ManagerAction, is_raise, RecoveryReport, Decision, thrown, nothing, applied, store_after,
}
use megacorps.Recovery.Apply.{decided_recovery, apply_recovery_report}
use megacorps.Recovery.Human.{HumanAnswer, answered_recovery, finish_human_recovery}
use megacorps.Recovery.Rounds.{
  IsWellFormed, WellFormedState, WellFormedCard, request_card_recovery-WellFormedCard,
}
use megacorps.Retry.Complete.{RunCompletion, blocks, retried_card, complete_retryable_run}
use megacorps.Retry.Keeps.{complete_retryable_run-keeps}
use megacorps.Recovery.Decided.{apply_recovery_report-IsDecided}
use megacorps.Recovery.Answered.{finish_human_recovery-IsAnswered}
use megacorps.Protocol.Repair.{MalformedReply, Feedback}
use megacorps.Protocol.Record.{record_protocol_failure}
use megacorps.Protocol.Keeps.{record_protocol_failure-WellFormedCard}

-- One transaction on the card; `elsewhere` is whatever else the server does to the company's rows,
-- which leaves the card's recovery as it is.
pub data Step : Store → Store → Type 0 where
  request :
      (s : Store) (input : CardRow) (failure : Failure)
      → Step s (request_card_recovery s input failure).0
  report :
      (s : Store) (input : CardRow) (actor : ℕ) (r : RecoveryReport) (run : Option ℕ)
      → Step s (store_after s (apply_recovery_report s input actor r run))
  answer :
      (s : Store) (input : CardRow) (gate : ℕ) (a : HumanAnswer)
      → Step s (store_after s (finish_human_recovery s input gate a))
  retry :
      (s : Store) (fence : CardRow → CardRow → ℕ)
      (reason_text : RecoveryStage → ℕ → Option Text → Text) (run : ℕ) (input : RunCompletion)
      (now : ℕ)
      → Step s (complete_retryable_run fence reason_text s run input now).0
  malformed :
      (s : Store) (available : AgentRow → Bool) (wording : Feedback → Text) (event_of : ℕ → ℕ)
      (input : CardRow) (reply : MalformedReply)
      → Step s (record_protocol_failure available wording event_of s input reply).0
  elsewhere :
      (s t : Store) (c d : CardRow)
      → s.card ≡ some c
      → t.card ≡ some d
      → c.recovery ≡ d.recovery
      → Step s t

pub data Steps (start : Store) : Store → Type 0 where
  here : Steps start start
  next : (s t : Store) → Steps start s → Step s t → Steps start t

decided_recovery-IsWellFormed :
    (r : RecoveryState) (action : ManagerAction)
    → IsWellFormed r
    → IsWellFormed (decided_recovery r action)
unfolding decided_recovery
decided_recovery-IsWellFormed r action w = record {
  bounded = w.bounded;
  counted = w.counted;
  distinct = w.distinct;
  owned = λ h. elim (Bool-cases (is_raise action)) [
    | inl raise ↦ absurd (false≢true (rw raise at h))
    | inr resume ↦ absurd (false≢true (rw resume at h))
  ];
}

answered_recovery-IsWellFormed :
    (r : RecoveryState) (a : HumanAnswer) → IsWellFormed r → IsWellFormed (answered_recovery r a)
unfolding answered_recovery
answered_recovery-IsWellFormed r a w = record {
  bounded = w.bounded;
  counted = w.counted;
  distinct = w.distinct;
  owned = λ h. elim (Bool-cases a.cancelled) [
    | inl stopped ↦ absurd (false≢true (rw stopped at h))
    | inr resumed ↦ absurd (false≢true (rw resumed at h))
  ];
}

retried_card-WellFormedState :
    (input : RunCompletion) (kind : RecoveryStage) (now : ℕ) (reason : Text) (card : CardRow)
    → WellFormedState card.recovery
    → WellFormedState (retried_card input kind now reason card).recovery
unfolding retried_card
retried_card-WellFormedState input kind now reason card w =
    elim (Bool-cases (blocks input kind card)) [
      | inl stopped ↦ rw stopped w
      | inr moving ↦ rw moving w
    ]

-- A well-formed state that a row holds.
held :
    (row : Option CardRow) (c : CardRow) (r : RecoveryState)
    → row ≡ some c
    → c.recovery ≡ some r
    → WellFormedCard row
    → IsWellFormed r
held row c r e f w = subst WellFormedState f (subst WellFormedCard e w)

stored :
    (row : Option CardRow) (c : CardRow) (r : RecoveryState)
    → row ≡ some c
    → c.recovery ≡ some r
    → IsWellFormed r
    → WellFormedCard row
stored row c r e f w = subst WellFormedCard (sym e) (subst WellFormedState (sym f) w)

reported :
    (s : Store) (input : CardRow) (actor : ℕ) (rep : RecoveryReport) (run : Option ℕ) (d : Decision)
    → apply_recovery_report s input actor rep run ≡ d
    → WellFormedCard s.card
    → WellFormedCard (store_after s d).card
reported s input actor rep run (thrown e) h w = w
reported s input actor rep run nothing h w = w
reported s input actor rep run (applied a) h w =
    let (action, (_, (_, (card, (r, decided))))) =
      apply_recovery_report-IsDecided s input actor rep run a h in
    stored a.store.card a.card _ decided.stored decided.state
      (decided_recovery-IsWellFormed r action (held s.card card r decided.found decided.of_card w))

answered :
    (s : Store) (input : CardRow) (gate : ℕ) (said : HumanAnswer) (d : Decision)
    → finish_human_recovery s input gate said ≡ d
    → WellFormedCard s.card
    → WellFormedCard (store_after s d).card
answered s input gate said (thrown e) h w = w
answered s input gate said nothing h w = w
answered s input gate said (applied a) h w =
    let (card, (r, done_so)) = finish_human_recovery-IsAnswered s input gate said a h in
    stored a.store.card a.card _ done_so.stored done_so.state
      (answered_recovery-IsWellFormed r said (held s.card card r done_so.found done_so.of_card w))

Step-WellFormedCard : (s t : Store) → Step s t → WellFormedCard s.card → WellFormedCard t.card
Step-WellFormedCard s t (request _ input failure) w =
    request_card_recovery-WellFormedCard s input failure w
Step-WellFormedCard s t (report _ input actor r run) w =
    reported s input actor r run (apply_recovery_report s input actor r run) refl w
Step-WellFormedCard s t (answer _ input gate a) w =
    answered s input gate a (finish_human_recovery s input gate a) refl w
Step-WellFormedCard s t (retry _ fence reason_text run input now) w =
    complete_retryable_run-keeps WellFormedCard request_card_recovery-WellFormedCard
      (λ input kind now reason card version w.
        retried_card-WellFormedState input kind now reason card w)
      fence reason_text s run input now w
Step-WellFormedCard s t (malformed _ available wording event_of input reply) w =
    record_protocol_failure-WellFormedCard available wording event_of s input reply w
Step-WellFormedCard s t (elsewhere _ _ c d e f same_state) w =
    subst WellFormedCard (sym f) (subst WellFormedState same_state (subst WellFormedCard e w))

-- From a card whose recovery is well formed, or that has none, and however settled runs, malformed
-- replies, requests for recovery, managers' reports, humans' answers and steps that leave the recovery
-- alone follow one another, the recovery stays well formed: never more than three rounds, no manager
-- asked twice, and an owner whenever a manager is awaited.
pub Steps-WellFormedCard :
    (start s : Store) → Steps start s → WellFormedCard start.card → WellFormedCard s.card
Steps-WellFormedCard start s here w = w
Steps-WellFormedCard start s (next middle _ steps step) w =
    Step-WellFormedCard middle s step (Steps-WellFormedCard start middle steps w)
