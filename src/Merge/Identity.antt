-- ===== src/Merge/Identity.antt =====
-- merge-gate.ts `planMergeGate`, with `reviewIdentityMatches` of review-identity.ts. The stored key is
-- taken as `storedCandidateKey` reads it, `none` where it is not readable.
use megacorps.Prelude.{
  ℕ, Bool, false, Option, none, some, List, ◌&&◌, if◌then◌else◌, ◌==◌, same, Text, text_eq,
}
use megacorps.Merge.Urls.{normalize_branch_ref}
use megacorps.Merge.Candidate.{
  MergeProject, CandidateKind, pull_request, branch_head, MergeCandidate, same_text,
  merge_repository_matches,
}
use megacorps.Merge.Plan.{
  head_drift, WaitPlan, MergeGatePlan, wait, not_required, blocked, Provider, Evidence, aliases_of,
  resolve_merge_evidence,
}

pub data CandidateKey : Type 0 where
  by_number : Option ℕ → CandidateKey
  by_branch : Option Text → CandidateKey

pub record ReviewIdentity : Type 0 where
  pub id : ℕ
  pub project_id : ℕ
  pub repo_url : Text
  pub default_branch : Text
  pub head_sha : Text
  pub external_id : Text
  pub candidate_key : Option CandidateKey

abbrev pub key_of : CandidateKind → MergeCandidate → CandidateKey
key_of pull_request c = by_number c.pull_request_number
key_of branch_head c = by_branch (normalize_branch_ref c.branch)

abbrev pub same_key : Option CandidateKey → CandidateKey → Bool
same_key none key = false
same_key (some (by_number a)) (by_number b) = same a b
same_key (some (by_branch a)) (by_branch b) = same_text a b
same_key (some (by_number a)) (by_branch b) = false
same_key (some (by_branch a)) (by_number b) = false

-- What the approval names: the identity that was given, the run's, or the card's.
pub data Approval : Type 0 where
  given : Option ReviewIdentity → Approval
  of_run : Option ReviewIdentity → Approval
  of_card : Approval

abbrev pub approved_identity : Approval → Option ReviewIdentity → Option ReviewIdentity
approved_identity (given identity) fresh = identity
approved_identity (of_run identity) fresh = identity
approved_identity of_card fresh = fresh

abbrev pub same_identity : Option ReviewIdentity → ReviewIdentity → Bool
same_identity none identity = false
same_identity (some fresh) identity = fresh.id == identity.id

module _ (origin : Text → Option Text) where
  unfoldable pub review_identity_matches : List Text → ReviewIdentity → WaitPlan → Bool
  review_identity_matches aliases identity plan =
      identity.project_id == plan.project.id
      && (merge_repository_matches origin aliases identity.repo_url plan.project.repo_url
          && (text_eq identity.default_branch plan.default_branch
              && (text_eq identity.head_sha plan.head_sha
                  && (text_eq identity.external_id plan.external_id
                      && same_key identity.candidate_key
                          (key_of plan.candidate.kind plan.candidate)))))

  abbrev pub with_identity :
      List Text → Option ReviewIdentity → WaitPlan → Option ReviewIdentity → MergeGatePlan
  with_identity aliases fresh plan none = blocked head_drift
  with_identity aliases fresh plan (some identity) =
      if same_identity fresh identity && review_identity_matches aliases identity plan
      then wait plan
      else blocked head_drift

  abbrev pub identified :
      List Text → Option ReviewIdentity → Approval → MergeGatePlan → MergeGatePlan
  identified aliases fresh approval (wait plan) =
      with_identity aliases fresh plan (approved_identity approval fresh)
  identified aliases fresh approval not_required = not_required
  identified aliases fresh approval (blocked reason) = blocked reason

  -- `fresh` is the identity that the card holds now.
  unfoldable pub plan_merge_gate :
      Option Provider
      → Option MergeProject
      → Evidence
      → Option ReviewIdentity
      → Approval
      → MergeGatePlan
  plan_merge_gate provider project evidence fresh approval =
      identified (aliases_of origin provider) fresh approval
        (resolve_merge_evidence origin provider project evidence)
