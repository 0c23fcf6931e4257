-- ===== src/Panel/Rounds.antt =====
-- review-panel.ts: how rounds are decided, what a valid answer of the author is, who takes over.
pub mod Decisions
pub mod Answers
use megacorps.Prelude.{
  ℕ, ◌≡◌, Bool, true, false, Option, none, some, List, [], ◌∷◌, ◌++◌, ◌&&◌, ◌||◌, not, is_empty,
  any, all, find, keep, if◌then◌else◌, ltb, leb, ◌==◌, same, contains, length, Text, text, text_eq,
  trim, get_or, truthy, is_some,
}
use megacorps.Panel.Findings.{
  FindingRow, ReviewVerdict, approved, RoundDecision, approve, rework, FindingDisposition, adopted,
  rejected, merged, VerificationStatus, verified, still_open, TakeoverTrigger, escalation,
  rounds_exhausted, reassign_flagged, p0, normalize_severity, is_blocking_severity,
  normalize_finding_key, finding_is_open, is_text, reject_reason_min_chars, FindingSeverity,
}
use megacorps.Panel.Compose.{not_false}

abbrev pub is_approved : ReviewVerdict → Bool
is_approved approved = true
is_approved _ = false

abbrev pub blocks : FindingRow → Bool
blocks finding = is_blocking_severity (some finding.severity) && finding_is_open finding

unfoldable pub round_decision : List FindingRow → List ReviewVerdict → RoundDecision
round_decision findings verdicts =
    if is_empty verdicts
    then rework
    else if not (all is_approved verdicts)
    then rework
    else if any blocks findings
    then rework
    else approve

pub record DispositionInput : Type 0 where
  pub finding_key : Text
  pub disposition : FindingDisposition
  pub reason : Option Text
  pub merged_into : Option Text
  pub code_evidence : Option Text
  pub test_evidence : Option Text

pub record VerificationInput : Type 0 where
  pub finding_key : Text
  pub status : VerificationStatus
  pub note : Option Text

abbrev pub same_key : Text → Text → Bool
same_key a b = text_eq (normalize_finding_key (some a)) (normalize_finding_key (some b))

unfoldable pub disposition_for : List DispositionInput → Text → Option DispositionInput
disposition_for dispositions key = find (λ d. same_key d.finding_key key) dispositions

-- The error codes, with the finding that each is about.
pub data DispositionError : Type 0 where
  missing : FindingRow → DispositionError
  reason_required : FindingRow → DispositionError
  merge_target_invalid : FindingRow → DispositionError

abbrev trimmed_length : Option Text → ℕ
trimmed_length none = 0
trimmed_length (some t) = length (trim t)

-- `keys.has(target)` on the normalized keys of the round.
abbrev pub has_key : List FindingRow → Text → Bool
has_key findings target = any (λ f. text_eq (normalize_finding_key (some f.key)) target) findings

unfoldable pub bad_target : List FindingRow → FindingRow → DispositionInput → Bool
bad_target findings finding answer =
    let target = normalize_finding_key answer.merged_into in
    is_empty target
    || (text_eq target (normalize_finding_key (some finding.key)) || not (has_key findings target))

abbrev reason_errors : FindingRow → DispositionInput → List DispositionError
reason_errors finding answer =
    if is_blocking_severity (some finding.severity)
      && ltb (trimmed_length answer.reason) reject_reason_min_chars
    then reason_required finding ∷ []
    else []

unfoldable pub answer_errors :
    List FindingRow → FindingRow → FindingDisposition → DispositionInput → List DispositionError
unfolding bad_target
answer_errors findings finding adopted answer = []
answer_errors findings finding rejected answer = reason_errors finding answer
answer_errors findings finding merged answer =
    if bad_target findings finding answer then merge_target_invalid finding ∷ [] else []

unfoldable pub finding_errors :
    List FindingRow → FindingRow → Option DispositionInput → List DispositionError
unfolding answer_errors
finding_errors findings finding none = missing finding ∷ []
finding_errors findings finding (some answer) =
    answer_errors findings finding answer.disposition answer

-- The loop over the findings; `findings` stays the whole list, for the keys of the round.
unfoldable pub errors_of :
    List FindingRow → List DispositionInput → List FindingRow → List DispositionError
errors_of findings dispositions [] = []
errors_of findings dispositions (finding ∷ rest) =
    finding_errors findings finding (disposition_for dispositions finding.key)
    ++ errors_of findings dispositions rest

unfoldable pub disposition_errors : List FindingRow → List DispositionInput → List DispositionError
disposition_errors findings dispositions = errors_of findings dispositions findings

abbrev is_adopted : FindingDisposition → Bool
is_adopted adopted = true
is_adopted _ = false

abbrev blank : Option Text → Bool
blank none = true
blank (some t) = is_empty (trim t)

unfoldable pub lacks_evidence : List DispositionInput → FindingRow → Bool
lacks_evidence dispositions finding = elim (disposition_for dispositions finding.key) [
  | none ↦ false
  | some answer ↦
      is_adopted answer.disposition && (blank answer.code_evidence && blank answer.test_evidence)
]

-- The findings that are warned about.
unfoldable pub disposition_warnings : List FindingRow → List DispositionInput → List FindingRow
disposition_warnings findings dispositions = keep (lacks_evidence dispositions) findings

abbrev pub is_still_open : VerificationInput → Bool
is_still_open v = elim v.status [ still_open ↦ true | verified ↦ false ]

abbrev pub is_verified : VerificationInput → Bool
is_verified v = elim v.status [ still_open ↦ false | verified ↦ true ]

unfoldable pub key_open : List VerificationInput → FindingRow → Bool
key_open verifications finding =
    let entries = keep (λ v. same_key v.finding_key finding.key) verifications in
    let contested = any is_still_open entries in
    if is_text finding.disposition (text "adopted")
    then contested || not (any is_verified entries)
    else contested

unfoldable pub open_keys : List VerificationInput → List FindingRow → List Text
open_keys verifications [] = []
open_keys verifications (f ∷ fs) =
    let rest = open_keys verifications fs in if key_open verifications f then f.key ∷ rest else rest

unfoldable pub verification_decision :
    List FindingRow → List VerificationInput → RoundDecision × List Text
verification_decision findings verifications =
    let keys = open_keys verifications findings in (if is_empty keys then approve else rework, keys)

-- A finding as the takeover rule reads it.
pub record FlaggedFinding : Type 0 where
  pub severity : Text
  pub reassign : Bool
  pub reassigned_by : List ℕ

abbrev pub is_p0 : FindingSeverity → Bool
is_p0 p0 = true
is_p0 _ = false

unfoldable pub flagged_by_all : List ℕ → FlaggedFinding → Bool
flagged_by_all reviewers finding =
    is_p0 (normalize_severity (some finding.severity))
    && (if is_empty reviewers
        then finding.reassign
        else all (λ id. contains finding.reassigned_by id) reviewers)

unfoldable pub takeover_trigger :
    (escalated : Bool) (revision_count max_revisions : ℕ)
    → List FlaggedFinding
    → (reviewer_ids : List ℕ) → Option TakeoverTrigger
takeover_trigger escalated revision_count max_revisions findings reviewer_ids =
    if escalated
    then some escalation
    else if ltb 0 max_revisions && leb max_revisions revision_count
    then some rounds_exhausted
    else if any (flagged_by_all reviewer_ids) findings
    then some reassign_flagged
    else none

pub record FixOwnerAgent : Type 0 where
  pub id : ℕ
  pub boss_id : Option ℕ
  pub is_active : Option Bool
  pub is_company_boss : Bool

abbrev pub with_id : List FixOwnerAgent → Option ℕ → Option FixOwnerAgent
with_id agents none = none
with_id agents (some id) = find (λ a. a.id == id) agents

abbrev pub boss_id_of : Option FixOwnerAgent → Option ℕ
boss_id_of none = none
boss_id_of (some a) = a.boss_id

abbrev usable_boss : ℕ → Option FixOwnerAgent → Option ℕ
usable_boss author none = none
usable_boss author (some boss) =
    if boss.id == author || (not (not_false boss.is_active) || boss.is_company_boss)
    then none
    else some boss.id

unfoldable pub next_fix_owner : Option ℕ → List FixOwnerAgent → Option ℕ → Option ℕ
next_fix_owner none agents head = none
next_fix_owner (some author) agents head =
    if same head (some author)
    then none
    else usable_boss author (with_id agents (boss_id_of (with_id agents (some author))))
