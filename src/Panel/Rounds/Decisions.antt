-- ===== src/Panel/Rounds/Decisions.antt =====
-- When a round or a verification is approved, and who takes a card over.
use megacorps.Prelude.{
  ℕ, ◌<◌, ==_refl, ==→≡, ◌==◌, contains, All-map_prop, ◌≡◌, ◌≢◌, ◌↔◌, refl, sym, ap, ◌∙◌, Bool,
  true, false, Option, none, some, List, [], ◌∷◌, arith, any, all, keep, All, Any, any-All, same,
  text, Bool-cases, inl, inr, ◌⊎◌,
}
use mathlib.Core.Bool.{false≢true}
use megacorps.Panel.Findings.{
  FindingSeverity, p0, normalize_severity, FindingRow, ReviewVerdict, approve, verified, is_text,
}
use megacorps.Panel.Compose.{not_false}
use megacorps.Panel.Rounds.{
  is_approved, blocks, round_decision, VerificationInput, same_key, is_still_open, is_verified,
  key_open, open_keys, verification_decision, FlaggedFinding, is_p0, flagged_by_all,
  takeover_trigger, FixOwnerAgent, with_id, boss_id_of, usable_boss, next_fix_owner,
}

-- A round is approved exactly when someone answered, every verdict is an approval, and no P0 or P1
-- finding is still open.
round_decision-approve :
    (findings : List FindingRow) (verdicts : List ReviewVerdict)
    → (round_decision findings verdicts ≡ approve)
      ↔ ((verdicts ≢ []) × (all is_approved verdicts ≡ true) × (any blocks findings ≡ false))
unfolding round_decision
round_decision-approve findings [] = (λ h. cc, λ h. absurd (h.0 refl))
round_decision-approve findings (v ∷ vs) =
    (λ h. (λ e. cc, ground arith, ground arith), λ h. ground arith)

-- The verifiers' entries settle a finding: none contests it, and an adopted one has an entry that
-- verifies it.
abbrev pub IsSettled : List VerificationInput → FindingRow → Type 0
IsSettled verifications f =
    All (λ v. same_key v.finding_key f.key ≡ true → v.status ≡ verified) verifications
    × (is_text f.disposition (text "adopted") ≡ true
        → Any (λ v. (same_key v.finding_key f.key ≡ true) × (v.status ≡ verified)) verifications)

contests_iff : (v : VerificationInput) → (is_still_open v ≡ false) ↔ (v.status ≡ verified)
contests_iff v = (λ h. ground arith, λ h. ground arith)

verifies_iff : (v : VerificationInput) → (is_verified v ≡ true) ↔ (v.status ≡ verified)
verifies_iff v = (λ h. ground arith, λ h. ground arith)

keep-still_open :
    (p : VerificationInput → Bool) (vs : List VerificationInput)
    → (any is_still_open (keep p vs) ≡ false) ↔ All (λ v. p v ≡ true → v.status ≡ verified) vs
keep-still_open p [] = (λ h. tt, λ h. refl)
keep-still_open p (v ∷ vs) = elim (Bool-cases (p v)) [
  | inl e ↦
      let (uncontested, agreed) = keep-still_open p vs in
      rw e (
        λ h. (λ _. (contests_iff v).0 (ground arith), uncontested (ground arith)),
        λ h. ground (arith, (contests_iff v).1 (h.0 refl), agreed h.1),
      )
  | inr e ↦ rw e (λ h. (λ f. cc, (keep-still_open p vs).0 h), λ h. (keep-still_open p vs).1 h.1)
]

keep-verified :
    (p : VerificationInput → Bool) (vs : List VerificationInput)
    → (any is_verified (keep p vs) ≡ true) ↔ Any (λ v. (p v ≡ true) × (v.status ≡ verified)) vs
keep-verified p [] = (λ h. cc, λ h. absurd h)
keep-verified p (v ∷ vs) = elim (Bool-cases (p v)) [
  | inl e ↦
      let (confirmed, confirms) = keep-verified p vs in
      rw e (
        λ h. elim (Bool-cases (is_verified v)) [
          | inl yes_verified ↦ inl (refl, (verifies_iff v).0 yes_verified)
          | inr open_still ↦ inr (confirmed (rw open_still at h))
        ],
        λ h. elim h [
          | inl (_, status) ↦ ground (arith, (verifies_iff v).1 status)
          | inr a ↦ ground (arith, confirms a)
        ],
      )
  | inr e ↦ rw e (
    λ h. inr ((keep-verified p vs).0 h),
    λ h. elim h [ inl (f, g) ↦ cc | inr a ↦ (keep-verified p vs).1 a ],
  )
]

key_open-IsSettled :
    (verifications : List VerificationInput) (f : FindingRow)
    → (key_open verifications f ≡ false) ↔ IsSettled verifications f
unfolding key_open
key_open-IsSettled verifications f =
    let p = λ (v : VerificationInput). same_key v.finding_key f.key in
    let (uncontested, agreed) = keep-still_open p verifications in
    let (confirmed, confirms) = keep-verified p verifications in
    elim (Bool-cases (is_text f.disposition (text "adopted"))) [
      | inl e ↦ rw e (
        λ h. (uncontested (ground arith), λ _. confirmed (ground arith)),
        λ h. ground (arith, agreed h.0, confirms (h.1 refl)),
      )
      | inr e ↦ rw e (λ h. (uncontested h, λ f. cc), λ h. agreed h.0)
    ]

open_keys-nil :
    (verifications : List VerificationInput) (fs : List FindingRow)
    → (open_keys verifications fs ≡ []) ↔ All (IsSettled verifications) fs
unfolding open_keys
open_keys-nil verifications [] = (λ h. tt, λ h. refl)
open_keys-nil verifications (f ∷ fs) =
    let (settled, closed) = key_open-IsSettled verifications f in
    let (all_settled, all_closed) = open_keys-nil verifications fs in
    elim (Bool-cases (key_open verifications f)) [
      | inl e ↦ rw e (λ h. cc, λ h. absurd (false≢true (sym (closed h.0) ∙ e)))
      | inr e ↦ rw e (λ h. (settled e, all_settled h), λ h. all_closed h.1)
    ]

-- The verify round approves exactly when every finding is settled: no entry for it says "still
-- open", and if it was adopted some entry verifies it. Then no key goes back to the author.
pub verification_decision-approve :
    (findings : List FindingRow) (verifications : List VerificationInput)
    → (verification_decision findings verifications ≡ (approve, []))
      ↔ All (IsSettled verifications) findings
unfolding verification_decision
verification_decision-approve findings verifications =
    let (settled, closed) = open_keys-nil verifications findings in
    (λ h. settled (ap (λ r. r.1) h), λ h. rw (closed h) refl)

usable_boss-some :
    (author : ℕ) (o : Option FixOwnerAgent) (id : ℕ)
    → usable_boss author o ≡ some id
    → (boss : FixOwnerAgent) × (boss.id ≡ id)
      × (o ≡ some boss)
      × (not_false boss.is_active ≡ true)
      × (boss.is_company_boss ≡ false)
      × (id ≢ author)
usable_boss-some author none id h = cc
usable_boss-some author (some boss) id h =
    (boss, ground arith, refl, ground arith, ground arith, λ e. ground arith)

-- Who takes the card over is the author's boss: an agent of the company who is not inactive, is no
-- company boss, and is not the author; and the author does not head the department.
pub next_fix_owner-some :
    (author : ℕ) (agents : List FixOwnerAgent) (head : Option ℕ) (id : ℕ)
    → next_fix_owner (some author) agents head ≡ some id
    → (boss : FixOwnerAgent) × (boss.id ≡ id)
      × (with_id agents (boss_id_of (with_id agents (some author))) ≡ some boss)
      × (not_false boss.is_active ≡ true)
      × (boss.is_company_boss ≡ false)
      × (id ≢ author)
      × (head ≢ some author)
unfolding next_fix_owner
next_fix_owner-some author agents head id h = elim (Bool-cases (same head (some author))) [
  | inl heads ↦ ground arith
  | inr other ↦
      let (boss, named, found, active, staff, differs) =
        usable_boss-some author (with_id agents (boss_id_of (with_id agents (some author)))) id
          (rw other at h) in
      (boss, named, found, active, staff, differs, λ e. ground (arith, ==_refl author))
]

-- The reviewers who must have flagged the finding: every one of the round, and when none is named the
-- finding's own flag counts.
abbrev IsFlaggedBy : List ℕ → FlaggedFinding → Type 0
IsFlaggedBy [] f = f.reassign ≡ true
IsFlaggedBy (id ∷ ids) f = All (λ reviewer. Any (λ by. by ≡ reviewer) f.reassigned_by) (id ∷ ids)

abbrev pub IsFlagged : List ℕ → FlaggedFinding → Type 0
IsFlagged reviewers f = (normalize_severity (some f.severity) ≡ p0) × IsFlaggedBy reviewers f

contains-Any : (ids : List ℕ) (id : ℕ) → (contains ids id ≡ true) ↔ Any (λ x. x ≡ id) ids
contains-Any [] id = (λ h. ground arith, λ h. absurd h)
contains-Any (x ∷ ids) id = elim (Bool-cases (x == id)) [
  | inl e ↦ rw e (λ h. inl (==→≡ x id e), λ h. refl)
  | inr e ↦ rw e (
    λ h. inr ((contains-Any ids id).0 h),
    λ h. elim h [ inl k ↦ ground (arith, ==_refl id) | inr k ↦ (contains-Any ids id).1 k ],
  )
]

all-flagged :
    (by ids : List ℕ)
    → (all (λ id. contains by id) ids ≡ true) ↔ All (λ id. Any (λ x. x ≡ id) by) ids
all-flagged by [] = (λ h. tt, λ h. refl)
all-flagged by (id ∷ ids) =
    let (met, flagged) = contains-Any by id in
    let (all_met, all_flagged) = all-flagged by ids in
    (
      λ h. (met (ground arith), all_met (ground arith)),
      λ h. ground (arith, flagged h.0, all_flagged h.1),
    )

is_p0-eq : (s : FindingSeverity) → (is_p0 s ≡ true) ↔ (s ≡ p0)
is_p0-eq s = (λ h. ground arith, λ h. ground arith)

flagged_by_all-IsFlagged :
    (reviewers : List ℕ) (f : FlaggedFinding)
    → (flagged_by_all reviewers f ≡ true) ↔ IsFlagged reviewers f
unfolding flagged_by_all
flagged_by_all-IsFlagged [] f =
    let (worst, is_worst) = is_p0-eq (normalize_severity (some f.severity)) in
    (λ h. (worst (ground arith), ground arith), λ h. ground (arith, is_worst h.0, h.1))
flagged_by_all-IsFlagged (id ∷ ids) f =
    let (worst, is_worst) = is_p0-eq (normalize_severity (some f.severity)) in
    let (met, flagged) = all-flagged f.reassigned_by (id ∷ ids) in
    (
      λ h. (worst (ground arith), met (ground arith)),
      λ h. ground (arith, is_worst h.0, flagged h.1),
    )

flagged_by_all-unflagged :
    (reviewers : List ℕ) (f : FlaggedFinding)
    → (flagged_by_all reviewers f ≡ false) ↔ (¬ IsFlagged reviewers f)
flagged_by_all-unflagged reviewers f =
    let (flagged, counts) = flagged_by_all-IsFlagged reviewers f in
    (
      λ h k. absurd (false≢true (sym h ∙ counts k)),
      λ h. elim (Bool-cases (flagged_by_all reviewers f)) [
        | inl e ↦ absurd (h (flagged e))
        | inr e ↦ e
      ],
    )

-- A takeover has a cause: an escalation, or a spent revision budget, or a P0 that every reviewer
-- of the round flagged for reassignment (that is itself flagged, if no reviewers are named); and
-- with none of the three there is no takeover.
pub takeover_trigger-none :
    (escalated : Bool) (revisions max : ℕ) (findings : List FlaggedFinding) (reviewers : List ℕ)
    → (takeover_trigger escalated revisions max findings reviewers ≡ none) ↔ (
        (escalated ≡ false)
        × ((max ≡ 0) ⊎ (revisions < max))
        × All (λ f. ¬ IsFlagged reviewers f) findings)
unfolding takeover_trigger
takeover_trigger-none escalated revisions max findings reviewers =
    let (unflagged, quiet) = any-All (flagged_by_all reviewers) findings in
    (
      λ h. (
        ground arith,
        ground arith,
        All-map_prop (λ f. flagged_by_all reviewers f ≡ false) (λ f. ¬ IsFlagged reviewers f)
            findings (λ f. (flagged_by_all-unflagged reviewers f).0) (unflagged (ground arith)),
      ),
      λ h. ground (
        arith,
        h.0,
        h.1,
        quiet (
            All-map_prop (λ f. ¬ IsFlagged reviewers f) (λ f. flagged_by_all reviewers f ≡ false)
              findings (λ f. (flagged_by_all-unflagged reviewers f).1) h.2),
      ),
    )
