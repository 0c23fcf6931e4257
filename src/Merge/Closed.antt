-- ===== src/Merge/Closed.antt =====
-- How an approved card ends: the plan of `resolveMergeEvidence` and `planMergeGate`, with the verdict of
-- `mergeVerdict` on the row that the plan parks.
use megacorps.Prelude.{
  text_eq→≡, sym, ℕ, ◌≡◌, refl, ap, subst, ◌∙◌, true, Option, none, some, List, [], ◌∷◌,
  if◌then◌else◌, Text, truthy, arith,
}
use megacorps.Merge.Urls.{
  RepoSlug, repo_slug_from_project, normalize_branch_ref, is_full_sha, same_commit,
}
use megacorps.Merge.Verdict.{
  EventKind, MergeEventFacts, merge_verdict, is_text, is_yes, is_closed, event_action,
  default_branch_of, decimal_text,
}
use megacorps.Merge.Verdict
use megacorps.Merge.Exact.{HasLanded, merge_verdict-success, landed-number}
use megacorps.Merge.Candidate.{MergeProject, MergeCandidate, pull_request}
use megacorps.Merge.Plan.{
  branch_of_project, MergeSkipReason, WaitPlan, MergeGatePlan, wait, not_required, blocked,
  head_drift, Provider, Evidence, Head, refused, head, checked_head, with_head, head_at, with_slug,
  branch_of_project, with_candidate, candidate_of, aliases_of, required_plan,
  resolve_merge_evidence, external_id_of, parked_wait, done, merge_completion_status,
}
use megacorps.Merge.Identity.{
  same_identity, ReviewIdentity, Approval, approved_identity, with_identity, identified,
  plan_merge_gate,
}
use megacorps.Merge.Verified.{resolve_merge_evidence-IsConfirmed}
use megacorps.Merge.Events.{PullRequestPayload, number_in, pull_request_event}
use megacorps.Merge.Approved.{plan_merge_gate-IsApproved}

full-truthy : (sha : Text) → is_full_sha sha ≡ true → truthy (some sha) ≡ true
unfolding is_full_sha
full-truthy [] h = ground arith
full-truthy (c ∷ t) h = refl

-- An event that closes the wait of a plan.
merge_verdict-event :
    (origin : Text → Option Text) (provider : Option Provider) (project : MergeProject)
    (evidence : Evidence) (w : WaitPlan) (n : ℕ) (event : MergeEventFacts)
    → resolve_merge_evidence origin provider (some project) evidence ≡ wait w
    → w.candidate.kind ≡ pull_request
    → w.candidate.pull_request_number ≡ some n
    → event.kind ≡ EventKind.pull_request
    → merge_verdict (parked_wait w) event ≡ Verdict.success
    → (event.pull_request_number ≡ some n)
      × (is_yes event.merged ≡ true)
      × (is_text (normalize_branch_ref event.base_ref) (default_branch_of event.default_branch)
          ≡ true)
      × (same_commit (some w.head_sha) event.head_sha ≡ true)
unfolding parked_wait
merge_verdict-event origin provider project evidence w n event planned kind number of_pull success =
    let (p, slug, _, _, _, _, confirmed) =
      resolve_merge_evidence-IsConfirmed origin provider project evidence w planned in
    let (_, _, landed) =
      (merge_verdict-success (parked_wait w) event (full-truthy w.head_sha confirmed.full)).0
        success in
    let there : HasLanded EventKind.pull_request (parked_wait w) event =
      subst (λ k. HasLanded k (parked_wait w) event) of_pull landed in
    let (_, merged, base, same_head, _) = there in
    let external : some w.external_id ≡ some (decimal_text n) = ap some (
      confirmed.named
      ∙ ap (λ k. external_id_of k w.candidate.pull_request_number w.candidate.branch w.head_sha)
          kind
      ∙ ap (λ o. external_id_of pull_request o w.candidate.branch w.head_sha) number) in
    (
      landed-number EventKind.pull_request (parked_wait w) event n refl there external,
      merged,
      base,
      same_head,
    )

-- A card of a project that an approval parks on a pull request is closed by an event of a pull request
-- only if that is the very pull request, merged into the project's default branch, as the project names
-- it when the event comes in too, with a head that is exactly the one of the identity that the approval
-- used and that the card held then.
pub merge_verdict-parked :
    (origin : Text → Option Text) (provider : Option Provider) (project : MergeProject)
    (evidence : Evidence) (fresh : Option ReviewIdentity) (approval : Approval) (w : WaitPlan)
    (n : ℕ) (payload : PullRequestPayload)
    → plan_merge_gate origin provider (some project) evidence fresh approval ≡ wait w
    → w.candidate.kind ≡ pull_request
    → w.candidate.pull_request_number ≡ some n
    → merge_verdict (parked_wait w) (pull_request_event project payload) ≡ Verdict.success
    → (number_in payload ≡ some n)
      × (is_yes payload.merged ≡ true)
      × (is_text
            (normalize_branch_ref payload.base_ref)
            (default_branch_of (branch_of_project project))
          ≡ true)
      × (identity : ReviewIdentity) × (approved_identity approval fresh ≡ some identity)
      × (same_identity fresh identity ≡ true)
      × (same_commit (some identity.head_sha) payload.head_sha ≡ true)
unfolding pull_request_event
merge_verdict-parked origin provider project evidence fresh approval w n payload planned kind number
      success =
    let (resolved, used) =
      plan_merge_gate-IsApproved origin provider (some project) evidence fresh approval w planned in
    let (named, merged, base, same_head) =
      merge_verdict-event origin provider project evidence w n (pull_request_event project payload)
        resolved kind number refl success in
    (
      named,
      merged,
      base,
      used.identity,
      used.used,
      used.current,
      subst (λ sha. same_commit (some sha) payload.head_sha ≡ true)
          (sym (text_eq→≡ used.identity.head_sha w.head_sha used.same_head)) same_head,
    )

blocked-status : (r : MergeSkipReason) → ¬ merge_completion_status (blocked r) ≡ done
unfolding merge_completion_status
blocked-status MergeSkipReason.no_repo h = ground arith
blocked-status MergeSkipReason.no_candidate h = ground arith
blocked-status MergeSkipReason.no_head h = ground arith
blocked-status MergeSkipReason.provider_unavailable h = ground arith
blocked-status MergeSkipReason.wrong_base h = ground arith
blocked-status head_drift h = ground arith
blocked-status MergeSkipReason.closed_unmerged h = ground arith

module _ (origin : Text → Option Text) where
  with_head-required :
      (p : Provider) (slug : RepoSlug) (project : MergeProject) (c : MergeCandidate) (branch : Text)
      (found : Head)
      → ¬ with_head p slug project c branch found ≡ not_required
  unfolding checked_head
  with_head-required p slug project c branch (refused r) h = ground arith
  with_head-required p slug project c branch (head none url) h = ground arith
  with_head-required p slug project c branch (head (some sha) url) h = ground arith

  with_slug-required :
      (p : Provider) (project : MergeProject) (c : MergeCandidate) (slug : Option RepoSlug)
      → ¬ with_slug p project c slug ≡ not_required
  with_slug-required p project c none h = ground arith
  with_slug-required p project c (some slug) h =
      with_head-required p slug project c (branch_of_project project)
        (head_at p slug (branch_of_project project) c c.pull_request_number) h

  with_candidate-required :
      (provider : Option Provider) (project : MergeProject) (found : Option MergeCandidate)
      → ¬ with_candidate origin provider project found ≡ not_required
  with_candidate-required provider project none h = ground arith
  with_candidate-required none project (some c) h = ground arith
  with_candidate-required (some p) project (some c) h =
      ground (arith, with_slug-required p project c (repo_slug_from_project project.repo_url))

  required_plan-inherited :
      (provider : Option Provider) (project : MergeProject) (evidence : Evidence)
      → required_plan origin provider project evidence ≡ not_required
      → (evidence.delegation_required ≡ true) × (evidence.inherited_ready ≡ true)
  unfolding required_plan
  required_plan-inherited provider project evidence h =
      let open_one =
        with_candidate-required provider project (candidate_of origin provider project evidence) in
      (ground arith, ground arith)

  with_identity-status :
      (aliases : List Text) (fresh : Option ReviewIdentity) (w : WaitPlan)
      (identity : Option ReviewIdentity)
      → ¬ merge_completion_status (with_identity origin aliases fresh w identity) ≡ done
  unfolding merge_completion_status
  with_identity-status aliases fresh w none h = ground arith
  with_identity-status aliases fresh w (some identity) h = ground arith

  identified-not_required :
      (aliases : List Text) (fresh : Option ReviewIdentity) (approval : Approval)
      (plan : MergeGatePlan)
      → merge_completion_status (identified origin aliases fresh approval plan) ≡ done
      → plan ≡ not_required
  unfolding merge_completion_status
  identified-not_required aliases fresh approval (wait w) h =
      absurd (with_identity-status aliases fresh w (approved_identity approval fresh) h)
  identified-not_required aliases fresh approval not_required h = refl
  identified-not_required aliases fresh approval (blocked r) h = absurd (blocked-status r h)

  -- An approval completes a card of a project that requires a merge at once only if the work had to be
  -- delegated and the accepted evidence of the descendants stands in for a merge.
  pub plan_merge_gate-done :
      (provider : Option Provider) (project : MergeProject) (evidence : Evidence)
      (fresh : Option ReviewIdentity) (approval : Approval)
      → is_yes project.completion_requires_merge ≡ true
      → merge_completion_status
          (plan_merge_gate origin provider (some project) evidence fresh approval)
        ≡ done
      → (evidence.delegation_required ≡ true) × (evidence.inherited_ready ≡ true)
  unfolding plan_merge_gate resolve_merge_evidence
  plan_merge_gate-done provider project evidence fresh approval required h =
      let resolved : (if is_yes project.completion_requires_merge
            then required_plan origin provider project evidence
            else not_required)
          ≡ not_required =
        identified-not_required (aliases_of origin provider) fresh approval _ h in
      required_plan-inherited provider project evidence (rw required at resolved)
