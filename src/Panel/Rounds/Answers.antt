-- ===== src/Panel/Rounds/Answers.antt =====
-- When the author's answer to the findings is accepted.
use megacorps.Prelude.{
  append-nil_iff, ◌≤◌, ◌≡◌, ◌≢◌, ◌↔◌, ◌⊎◌, refl, sym, ap, ◌∙◌, true, false, some, List, [], ◌∷◌,
  arith, is_empty, All, Any, Text, text_eq, Bool-cases, inl, inr, text_eq→≡, text_eq_refl,
  text_eq-false,
}
use mathlib.Core.Bool.{false≢true}
use megacorps.Panel.Findings.{
  FindingRow, FindingDisposition, adopted, rejected, merged, normalize_finding_key,
  is_blocking_severity,
}
use megacorps.Panel.Rounds.{
  DispositionInput, same_key, disposition_for, trimmed_length, has_key, bad_target, answer_errors,
  finding_errors, errors_of, disposition_errors,
}

-- What the rules ask of an answer to one finding of the round.
abbrev pub IsSound : List FindingRow → FindingRow → FindingDisposition → DispositionInput → Type 0
IsSound findings finding adopted answer = Unit
IsSound findings finding rejected answer =
    is_blocking_severity (some finding.severity) ≡ true → 20 ≤ trimmed_length answer.reason
IsSound findings finding merged answer =
    (normalize_finding_key answer.merged_into ≢ normalize_finding_key (some finding.key))
    × (normalize_finding_key answer.merged_into ≢ [])
    × Any
        (λ (f : FindingRow).
          normalize_finding_key (some f.key) ≡ normalize_finding_key answer.merged_into)
        findings

-- The answer that is about the finding's key, the first one if there are several, keeps the rules.
abbrev pub IsAnswered : List FindingRow → FindingRow → List DispositionInput → Type 0
IsAnswered findings finding [] = ⊥
IsAnswered findings finding (answer ∷ rest) =
    ((normalize_finding_key (some answer.finding_key) ≡ normalize_finding_key (some finding.key))
      × IsSound findings finding answer.disposition answer)
    ⊎ ((normalize_finding_key (some answer.finding_key) ≢ normalize_finding_key (some finding.key))
        × IsAnswered findings finding rest)

has_key-Any :
    (findings : List FindingRow) (t : Text)
    → (has_key findings t ≡ true)
      ↔ Any (λ (f : FindingRow). normalize_finding_key (some f.key) ≡ t) findings
has_key-Any [] t = (λ h. ground arith, λ h. absurd h)
has_key-Any (f ∷ fs) t = (
  λ h. elim (Bool-cases (text_eq (normalize_finding_key (some f.key)) t)) [
    | inl e ↦ inl (text_eq→≡ _ t e)
    | inr e ↦ inr ((has_key-Any fs t).0 (rw e at h))
  ],
  λ h. elim h [
    | inl e ↦ rw (e, text_eq_refl) refl
    | inr a ↦ ground (arith, (has_key-Any fs t).1 a)
  ],
)

no_target :
    (findings : List FindingRow) (finding : FindingRow) (answer : DispositionInput)
    → bad_target findings finding answer ≡ false
    → is_empty (normalize_finding_key answer.merged_into) ≡ false
unfolding bad_target
no_target findings finding answer h = ground arith

is_empty-false {ℓ} : {A : Type ℓ} (xs : List A) → xs ≢ [] → is_empty xs ≡ false
is_empty-false [] h = absurd (h refl)
is_empty-false (x ∷ xs) h = refl

sound_target :
    (findings : List FindingRow) (finding : FindingRow) (answer : DispositionInput)
    → IsSound findings finding merged answer
    → bad_target findings finding answer ≡ false
unfolding bad_target
sound_target findings finding answer (other, named, present) =
    ground (
      arith,
      is_empty-false _ named,
      (text_eq-false _ _).1 other,
      (has_key-Any findings _).1 present,
    )

answer_errors-nil :
    (findings : List FindingRow) (finding : FindingRow) (d : FindingDisposition)
    (answer : DispositionInput)
    → (answer_errors findings finding d answer ≡ []) ↔ IsSound findings finding d answer
unfolding answer_errors bad_target
answer_errors-nil findings finding adopted answer = (λ h. tt, λ h. refl)
answer_errors-nil findings finding rejected answer = (λ h. ground arith, λ h. ground arith)
answer_errors-nil findings finding merged answer = (
  λ h.
      let good : bad_target findings finding answer ≡ false = ground arith in
      (
        (text_eq-false _ _).0 (ground arith),
        λ e. absurd (false≢true (sym (no_target findings finding answer good) ∙ ap is_empty e)),
        (has_key-Any findings (normalize_finding_key answer.merged_into)).0 (ground arith),
      ),
  λ h. rw (sound_target findings finding answer h) refl,
)

about_key :
    (answer : DispositionInput) (finding : FindingRow)
    → same_key answer.finding_key finding.key ≡ true
    → normalize_finding_key (some answer.finding_key) ≡ normalize_finding_key (some finding.key)
about_key answer finding h = text_eq→≡ _ _ h

finding_errors-nil :
    (findings : List FindingRow) (finding : FindingRow) (answers : List DispositionInput)
    → (finding_errors findings finding (disposition_for answers finding.key) ≡ [])
      ↔ IsAnswered findings finding answers
unfolding finding_errors disposition_for
finding_errors-nil findings finding [] = (λ h. cc, λ h. absurd h)
finding_errors-nil findings finding (answer ∷ rest) =
    let (sound, accepted) = answer_errors-nil findings finding answer.disposition answer in
    let (answered, settles) = finding_errors-nil findings finding rest in
    elim (Bool-cases (same_key answer.finding_key finding.key)) [
      | inl e ↦ rw e (
        λ h. inl (about_key answer finding e, sound h),
        λ h. elim h [
          | inl (_, k) ↦ accepted k
          | inr (other, _) ↦ absurd (other (about_key answer finding e))
        ],
      )
      | inr e ↦ rw e (
        λ h. inr ((text_eq-false _ _).0 e, answered h),
        λ h. elim h [
          | inl (k, _) ↦ absurd ((text_eq-false _ _).0 e k)
          | inr (_, later) ↦ settles later
        ],
      )
    ]

errors_of-nil :
    (findings : List FindingRow) (dispositions : List DispositionInput) (rest : List FindingRow)
    → (errors_of findings dispositions rest ≡ [])
      ↔ All (λ f. IsAnswered findings f dispositions) rest
unfolding errors_of
errors_of-nil findings dispositions [] = (λ h. tt, λ h. refl)
errors_of-nil findings dispositions (f ∷ fs) =
    let (split, join) =
      append-nil_iff (finding_errors findings f (disposition_for dispositions f.key))
        (errors_of findings dispositions fs) in
    let (answered, accepted) = finding_errors-nil findings f dispositions in
    let (all_answered, all_accepted) = errors_of-nil findings dispositions fs in
    (
      λ h. (answered (split h).0, all_answered (split h).1),
      λ h. join (accepted h.0, all_accepted h.1),
    )

-- The author's answer is accepted exactly when every finding of the round has an answer with its key,
-- up to the normalization of keys, and the first such answer does not reject a P0 or P1 with a reason
-- of fewer than 20 characters, and names, if it merges, a nonempty key of another finding of the round.
pub disposition_errors-nil :
    (findings : List FindingRow) (dispositions : List DispositionInput)
    → (disposition_errors findings dispositions ≡ [])
      ↔ All (λ f. IsAnswered findings f dispositions) findings
unfolding disposition_errors
disposition_errors-nil findings dispositions = errors_of-nil findings dispositions findings
