-- ===== src/Panel/Findings.antt =====
-- review-panel.ts: findings, severities and keys.
use megacorps.Prelude.{
  ℕ, Bool, true, false, Option, none, some, [], ◌||◌, not, if◌then◌else◌, get_or, Text, text,
  text_eq, trim, to_upper, truthy,
}

pub data FindingSeverity : Type 0 where
  p0 p1 p2 : FindingSeverity

pub data ReviewVerdict : Type 0 where
  approved revision_requested escalate : ReviewVerdict

pub data RoundDecision : Type 0 where
  approve rework : RoundDecision

pub data FindingDisposition : Type 0 where
  adopted rejected merged : FindingDisposition

pub data VerificationStatus : Type 0 where
  verified still_open : VerificationStatus

pub data TakeoverTrigger : Type 0 where
  escalation rounds_exhausted reassign_flagged : TakeoverTrigger

-- A row of the database: severity, disposition and verification are text columns.
pub record FindingRow : Type 0 where
  pub key : Text
  pub reviewer_id : Option ℕ
  pub severity : Text
  pub file : Option Text
  pub line : Option ℕ
  pub title : Text
  pub evidence : Text
  pub required_fix : Text
  pub reassign : Bool
  pub disposition : Option Text
  pub disposition_reason : Option Text
  pub merged_into : Option Text
  pub code_evidence : Option Text
  pub test_evidence : Option Text
  pub verification : Option Text
  pub verification_note : Option Text

abbrev pub panel_size : ℕ
panel_size = 2

abbrev pub reject_reason_min_chars : ℕ
reject_reason_min_chars = 20

abbrev pub severity_rank : FindingSeverity → ℕ
severity_rank p0 = 0
severity_rank p1 = 1
severity_rank p2 = 2

unfoldable pub normalize_severity : Option Text → FindingSeverity
normalize_severity value =
    let upper = to_upper (trim (get_or value [])) in
    if text_eq upper (text "P0") then p0 else if text_eq upper (text "P1") then p1 else p2

abbrev pub is_blocking : FindingSeverity → Bool
is_blocking p2 = false
is_blocking _ = true

unfoldable pub is_blocking_severity : Option Text → Bool
is_blocking_severity value = is_blocking (normalize_severity value)

unfoldable pub normalize_finding_key : Option Text → Text
normalize_finding_key value = to_upper (trim (get_or value []))

-- `value === 'literal'` on a nullable column.
abbrev pub is_text : Option Text → Text → Bool
is_text none t = false
is_text (some s) t = text_eq s t

unfoldable pub finding_is_open : FindingRow → Bool
finding_is_open finding =
    not (truthy finding.disposition) || is_text finding.verification (text "still_open")
