-- ===== src/Merge/Plan.antt =====
-- merge-gate.ts `resolveMergeEvidence` and `planMergeGate`, with `reviewIdentityMatches` of
-- review-identity.ts. What other modules and the provider answer is in `Evidence` and `Provider`; a
-- request to the provider that throws is `unavailable`, and equal requests have equal answers.
use megacorps.Prelude.{
  ℕ, Bool, true, false, Option, none, some, List, [], ◌∷◌, ◌&&◌, ◌||◌, not, any, all, keep, is_some,
  get_or, if◌then◌else◌, ltb, leb, length, Text, text, trim, to_lower, truthy,
}
use megacorps.Runners.Availability.{unique_from}
use megacorps.Merge.Urls.{
  RepoSlug, repo_slug_from_project, parse_pull_request_number, normalize_branch_ref, is_hex,
  is_full_sha, same_commit, or_else,
}
use megacorps.Merge.Verdict.{MergeWaitFacts, merge_wait_provider, is_text, is_yes, decimal_text}
use megacorps.Merge.Candidate.{
  MergeWorkProduct, MergeProject, CandidateKind, pull_request, branch_head, MergeCandidate,
  same_text, merge_repository_matches, select_merge_candidate,
}

pub data MergeSkipReason : Type 0 where
  no_repo no_candidate no_head provider_unavailable wrong_base head_drift closed_unmerged :
      MergeSkipReason

pub record WaitPlan : Type 0 where
  pub project : MergeProject
  pub candidate : MergeCandidate
  pub head_sha : Text
  pub default_branch : Text
  pub external_id : Text
  pub external_url : Option Text

pub data MergeGatePlan : Type 0 where
  wait : WaitPlan → MergeGatePlan
  not_required : MergeGatePlan
  blocked : MergeSkipReason → MergeGatePlan

-- The answer to a request.
pub data Answer {ℓ} (A : Type ℓ) : Type ℓ where
  unavailable : Answer A
  answered : A → Answer A

pub record PullRequest : Type 0 where
  pub state : Option Text
  pub merged : Option Bool
  pub base_ref : Option Text
  pub head_sha : Option Text
  pub html_url : Option Text

-- The configured provider: its addresses, and its answers.
pub record Provider : Type 0 where
  pub aliases : List Text
  pub pull : RepoSlug → ℕ → Answer (Option PullRequest)
  pub commit : RepoSlug → Text → Answer (Option Text)

-- What is read of the card: its work products, newest first, the artifacts of its report, and whether
-- it has to be done by delegation, with what was accepted of that.
pub record Evidence : Type 0 where
  pub delegation_required : Bool
  pub inherited_ready : Bool
  pub has_delegated_products : Bool
  pub products : List MergeWorkProduct
  pub artifact_refs : List Text

abbrev pub is_sha_part : Text → Bool
is_sha_part t = leb 7 (length t) && (ltb (length t) 40 && all is_hex (to_lower t))

-- The commit that was reported, in full where the provider knows it.
unfoldable pub reported_commit : Provider → RepoSlug → Text → Answer (Option Text)
reported_commit provider slug sha =
    if is_full_sha (to_lower sha)
    then answered (some sha)
    else if is_sha_part sha
    then provider.commit slug sha
    else answered none

abbrev pub is_open_or_closed : Option Text → Bool
is_open_or_closed state = is_text state (text "open") || is_text state (text "closed")

-- The head at the provider, with the URL of its pull request.
pub data Head : Type 0 where
  refused : MergeSkipReason → Head
  head : Option Text → (url : Option Text) → Head

abbrev pub lowered : Option Text → Option Text
lowered none = none
lowered (some t) = some (to_lower (trim t))

unfoldable pub pull_head : Text → Option Text → PullRequest → Head
pull_head default_branch url pull =
    if not (is_open_or_closed pull.state && is_some pull.merged)
    then refused provider_unavailable
    else if not (is_text (normalize_branch_ref pull.base_ref) default_branch)
    then refused wrong_base
    else if is_text pull.state (text "closed") && not (is_yes pull.merged)
    then refused closed_unmerged
    else head (lowered pull.head_sha) (or_else url pull.html_url)

abbrev pub pull_answer : Text → Option Text → Answer (Option PullRequest) → Head
pull_answer default_branch url unavailable = refused provider_unavailable
pull_answer default_branch url (answered none) = refused no_head
pull_answer default_branch url (answered (some pull)) = pull_head default_branch url pull

abbrev pub commit_answer : Option Text → Answer (Option Text) → Head
commit_answer url unavailable = refused provider_unavailable
commit_answer url (answered sha) = head sha url

abbrev pub head_at : Provider → RepoSlug → Text → MergeCandidate → Option ℕ → Head
head_at provider slug default_branch candidate (some number) =
    pull_answer default_branch candidate.pull_request_url (provider.pull slug number)
head_at provider slug default_branch candidate none =
    commit_answer candidate.pull_request_url
      (provider.commit slug (get_or candidate.branch (get_or candidate.head_sha [])))

-- `externalId`.
abbrev pub external_id_of : CandidateKind → Option ℕ → Option Text → Text → Text
external_id_of pull_request (some number) branch sha = decimal_text number
external_id_of pull_request none branch sha = get_or branch sha
external_id_of branch_head number branch sha = get_or branch sha

abbrev pub wait_plan : MergeProject → MergeCandidate → Text → Text → Option Text → MergeGatePlan
wait_plan project candidate default_branch sha url = wait (record {
  project = project;
  candidate = candidate;
  head_sha = sha;
  default_branch = default_branch;
  external_id = external_id_of candidate.kind candidate.pull_request_number candidate.branch sha;
  external_url = url;
})

abbrev pub compared : Answer (Option Text) → Text → MergeGatePlan → MergeGatePlan
compared unavailable sha plan = blocked provider_unavailable
compared (answered reported) sha plan =
    if same_commit reported (some sha) then plan else blocked head_drift

-- What was reported must be the head that the provider has.
unfoldable pub checked_head :
    Provider → RepoSlug → MergeProject → MergeCandidate → Text → Text → Option Text → MergeGatePlan
checked_head provider slug project candidate default_branch sha url =
    if not (is_full_sha sha)
    then blocked no_head
    else if truthy candidate.head_sha
    then compared (reported_commit provider slug (get_or candidate.head_sha [])) sha
        (wait_plan project candidate default_branch sha url)
    else wait_plan project candidate default_branch sha url

abbrev pub with_head :
    Provider → RepoSlug → MergeProject → MergeCandidate → Text → Head → MergeGatePlan
with_head provider slug project candidate default_branch (refused reason) = blocked reason
with_head provider slug project candidate default_branch (head none url) = blocked no_head
with_head provider slug project candidate default_branch (head (some sha) url) =
    checked_head provider slug project candidate default_branch sha url

unfoldable pub branch_of_project : MergeProject → Text
branch_of_project project = get_or (normalize_branch_ref project.default_branch) (text "main")

abbrev pub with_slug : Provider → MergeProject → MergeCandidate → Option RepoSlug → MergeGatePlan
with_slug provider project candidate none = blocked provider_unavailable
with_slug provider project candidate (some slug) =
    let branch = branch_of_project project in
    with_head provider slug project candidate branch
      (head_at provider slug branch candidate candidate.pull_request_number)

abbrev pub is_pull_request_kind : CandidateKind → Bool
is_pull_request_kind pull_request = true
is_pull_request_kind branch_head = false

-- A work product that only names a pull request.
abbrev pub reported_product : Text → MergeWorkProduct
reported_product url = record {
  id = none;
  kind = some (text "pull_request");
  branch = none;
  commit_sha = none;
  pull_request_url = none;
  repo_url = none;
  url = some url;
  created_at = none;
}

abbrev pub only_url : List Text → List MergeWorkProduct
only_url [] = []
only_url (url ∷ []) = reported_product url ∷ []
only_url (url ∷ other ∷ more) = []

module _ (origin : Text → Option Text) where
  abbrev pub serves : MergeProject → List Text → Bool
  serves project aliases =
      any (λ alias. same_text (origin alias) (origin (get_or project.repo_url []))) aliases

  -- The candidate is verified at the provider.
  abbrev pub verified : Option Provider → MergeProject → MergeCandidate → MergeGatePlan
  verified none project candidate = blocked provider_unavailable
  verified (some provider) project candidate =
      if not (serves project provider.aliases)
      then blocked provider_unavailable
      else with_slug provider project candidate (repo_slug_from_project project.repo_url)

  abbrev pub with_candidate : Option Provider → MergeProject → Option MergeCandidate → MergeGatePlan
  with_candidate provider project none = blocked no_candidate
  with_candidate provider project (some candidate) =
      if is_yes project.auto_merge_after_approval && not (is_pull_request_kind candidate.kind)
      then blocked no_candidate
      else verified provider project candidate

  abbrev pub aliases_of : Option Provider → List Text
  aliases_of none = []
  aliases_of (some provider) = provider.aliases

  -- The candidate of the work products, or of the only pull request that the report names.
  unfoldable pub candidate_of : Option Provider → MergeProject → Evidence → Option MergeCandidate
  candidate_of provider project evidence =
      let aliases = aliases_of provider in
      let on_project = λ (url : Text).
        is_some (parse_pull_request_number (some url))
        && merge_repository_matches origin aliases url project.repo_url in
      or_else (select_merge_candidate origin aliases evidence.products (some project)) (
        select_merge_candidate origin aliases
          (only_url (unique_from [] (keep on_project evidence.artifact_refs))) (some project))

  unfoldable pub required_plan : Option Provider → MergeProject → Evidence → MergeGatePlan
  required_plan provider project evidence =
      if evidence.delegation_required && evidence.inherited_ready
      then not_required
      else if evidence.delegation_required && not evidence.has_delegated_products
      then blocked no_candidate
      else if not (truthy project.repo_url)
      then blocked no_repo
      else with_candidate provider project (candidate_of provider project evidence)

  abbrev pub requires_merge : MergeProject → Bool
  requires_merge project = is_yes project.completion_requires_merge

  unfoldable pub resolve_merge_evidence :
      Option Provider → Option MergeProject → Evidence → MergeGatePlan
  resolve_merge_evidence provider none evidence = not_required
  resolve_merge_evidence provider (some project) evidence =
      if requires_merge project then required_plan provider project evidence else not_required

-- The row of the wait that `parkForMerge` creates.
unfoldable pub parked_wait : WaitPlan → MergeWaitFacts
parked_wait plan = record {
  provider = some merge_wait_provider;
  status = some (text "waiting");
  external_id = some plan.external_id;
  authorized_head_sha = some plan.head_sha;
}

pub data CompletionStatus : Type 0 where
  done blocked_card in_review waiting_on_external : CompletionStatus

unfoldable pub merge_completion_status : MergeGatePlan → CompletionStatus
merge_completion_status not_required = done
merge_completion_status (blocked head_drift) = in_review
merge_completion_status (blocked _) = blocked_card
merge_completion_status (wait plan) = waiting_on_external
