-- ===== src/Merge/Verified.antt =====
-- The plans of `resolveMergeEvidence` that wait, and what the provider answered for them.
use megacorps.Prelude.{
  ℕ, ◌≡◌, refl, sym, ap, subst, ◌∙◌, Bool, true, false, Option, none, some, ◌&&◌, not, get_or,
  if◌then◌else◌, Text, text, truthy, arith, Bool-cases, inl, inr,
}
use mathlib.Core.Bool.{false≢true}
use megacorps.Merge.Urls.{
  RepoSlug, repo_slug_from_project, normalize_branch_ref, is_full_sha, same_commit,
}
use megacorps.Merge.Verdict.{is_text, is_yes}
use megacorps.Merge.Candidate.{MergeProject, MergeCandidate}
use megacorps.Merge.Plan.{
  commit_answer, MergeSkipReason, WaitPlan, MergeGatePlan, wait, not_required, blocked,
  no_candidate, no_head, provider_unavailable, head_drift, Answer, unavailable, answered,
  PullRequest, Provider, Evidence, reported_commit, Head, refused, head, lowered, pull_head,
  pull_answer, head_at, external_id_of, wait_plan, compared, checked_head, with_head,
  branch_of_project, with_slug, is_pull_request_kind, serves, verified, with_candidate,
  candidate_of, required_plan, resolve_merge_evidence,
}

abbrev plan_or : WaitPlan → MergeGatePlan → WaitPlan
plan_or w (wait v) = v
plan_or w not_required = w
plan_or w (blocked r) = w

pub wait-injective : (v w : WaitPlan) → wait v ≡ wait w → v ≡ w
wait-injective v w e = ap (plan_or v) e

pub blocked-wait : (r : MergeSkipReason) (w : WaitPlan) → ¬ blocked r ≡ wait w
blocked-wait r w h = ground arith

pub not_required-wait : (w : WaitPlan) → ¬ not_required ≡ wait w
not_required-wait w h = ground arith

-- A guard that a plan to wait has passed.
passed :
    (b : Bool) (r : MergeSkipReason) (plan : MergeGatePlan) (w : WaitPlan)
    → (if not b then blocked r else plan) ≡ wait w
    → (b ≡ true) × (plan ≡ wait w)
passed true r plan w h = (refl, h)
passed false r plan w h = ground arith

avoided :
    (b : Bool) (other plan : MergeGatePlan) (w : WaitPlan)
    → ((v : WaitPlan) → ¬ other ≡ wait v)
    → (if b then other else plan) ≡ wait w
    → (b ≡ false) × (plan ≡ wait w)
avoided true other plan w apart h = absurd (apart w h)
avoided false other plan w apart h = (refl, h)

-- The head that the plan waits for, at the provider's repository.
pub record IsConfirmed (p : Provider) (slug : RepoSlug) (project : MergeProject) (w : WaitPlan)
    : Type 0 where
  pub on_project : w.project ≡ project
  pub base : w.default_branch ≡ branch_of_project project
  pub named :
      w.external_id
      ≡ external_id_of w.candidate.kind w.candidate.pull_request_number w.candidate.branch
          w.head_sha
  pub full : is_full_sha w.head_sha ≡ true
  pub reported :
      truthy w.candidate.head_sha ≡ true
      → (sha : Option Text) × (reported_commit p slug (get_or w.candidate.head_sha (text ""))
          ≡ answered sha)
        × (same_commit sha (some w.head_sha) ≡ true)
  pub pulled :
      (n : ℕ)
      → w.candidate.pull_request_number ≡ some n
      → (pull : PullRequest) × (p.pull slug n ≡ answered (some pull))
        × (is_text (normalize_branch_ref pull.base_ref) w.default_branch ≡ true)
        × (lowered pull.head_sha ≡ some w.head_sha)
        × (is_text pull.state (text "closed") ≡ true → is_yes pull.merged ≡ true)
  pub resolved :
      w.candidate.pull_request_number ≡ none
      → p.commit slug (get_or w.candidate.branch (get_or w.candidate.head_sha (text "")))
        ≡ answered (some w.head_sha)

compared-wait :
    (a : Answer (Option Text)) (sha : Text) (plan : MergeGatePlan) (w : WaitPlan)
    → compared a sha plan ≡ wait w
    → (plan ≡ wait w) × (s : Option Text) × (a ≡ answered s) × (same_commit s (some sha) ≡ true)
compared-wait unavailable sha plan w h = ground arith
compared-wait (answered s) sha plan w h = elim (Bool-cases (same_commit s (some sha))) [
  | inl agrees ↦ (rw agrees at h, s, refl, agrees)
  | inr differs ↦ absurd (blocked-wait head_drift w (rw differs at h))
]

module _ (p : Provider) (slug : RepoSlug) (project : MergeProject) (c : MergeCandidate) where
  -- The plan is the wait for the commit, which was compared with what was reported.
  checked_head-wait :
      (branch sha : Text) (url : Option Text) (w : WaitPlan)
      → checked_head p slug project c branch sha url ≡ wait w
      → (is_full_sha sha ≡ true)
        × (wait_plan project c branch sha url ≡ wait w)
        × (truthy c.head_sha ≡ true
            → (s : Option Text) × (reported_commit p slug (get_or c.head_sha (text ""))
                ≡ answered s)
              × (same_commit s (some sha) ≡ true))
  unfolding checked_head
  checked_head-wait branch sha url w h =
      let (full, rest) = passed (is_full_sha sha) no_head _ w h in
      elim (Bool-cases (truthy c.head_sha)) [
        | inl said ↦
            let (same_plan, s, found, agrees) =
              compared-wait (reported_commit p slug (get_or c.head_sha (text ""))) sha
                (wait_plan project c branch sha url) w (rw said at rest) in
            (full, same_plan, λ k. (s, found, agrees))
        | inr silent ↦ (full, rw silent at rest, λ k. absurd (false≢true (sym silent ∙ k)))
      ]

  pull_head-head :
      (branch : Text) (url : Option Text) (pull : PullRequest) (sha : Text) (u : Option Text)
      → pull_head branch url pull ≡ head (some sha) u
      → (is_text (normalize_branch_ref pull.base_ref) branch ≡ true)
        × (lowered pull.head_sha ≡ some sha)
        × (is_text pull.state (text "closed") ≡ true → is_yes pull.merged ≡ true)
  unfolding pull_head
  pull_head-head branch url pull sha u h = (ground arith, ground arith, λ k. ground arith)

  pull_answer-head :
      (branch : Text) (url : Option Text) (a : Answer (Option PullRequest)) (sha : Text)
      (u : Option Text)
      → pull_answer branch url a ≡ head (some sha) u
      → (pull : PullRequest) × (a ≡ answered (some pull))
        × (pull_head branch url pull ≡ head (some sha) u)
  pull_answer-head branch url unavailable sha u h = ground arith
  pull_answer-head branch url (answered none) sha u h = ground arith
  pull_answer-head branch url (answered (some pull)) sha u h = (pull, refl, h)

  with_head-wait :
      (branch : Text) (found : Head) (w : WaitPlan)
      → with_head p slug project c branch found ≡ wait w
      → (sha : Text) × (url : Option Text) × (found ≡ head (some sha) url)
        × (checked_head p slug project c branch sha url ≡ wait w)
  with_head-wait branch (refused r) w h = absurd (blocked-wait r w h)
  with_head-wait branch (head none url) w h = absurd (blocked-wait no_head w h)
  with_head-wait branch (head (some sha) url) w h = (sha, url, refl, h)

  confirmed_pull :
      (branch : Text) (sha : Text) (url : Option Text) (n : ℕ)
      → head_at p slug branch c c.pull_request_number ≡ head (some sha) url
      → c.pull_request_number ≡ some n
      → (pull : PullRequest) × (p.pull slug n ≡ answered (some pull))
        × (is_text (normalize_branch_ref pull.base_ref) branch ≡ true)
        × (lowered pull.head_sha ≡ some sha)
        × (is_text pull.state (text "closed") ≡ true → is_yes pull.merged ≡ true)
  confirmed_pull branch sha url n h e =
      let at_number : pull_answer branch c.pull_request_url (p.pull slug n) ≡ head (some sha) url =
        ap (head_at p slug branch c) (sym e) ∙ h in
      let (pull, found, here) =
        pull_answer-head branch c.pull_request_url (p.pull slug n) sha url at_number in
      let (based, at_head, merged) = pull_head-head branch c.pull_request_url pull sha url here in
      (pull, found, based, at_head, merged)

  commit_answer-head :
      (url : Option Text) (a : Answer (Option Text)) (sha : Text) (u : Option Text)
      → commit_answer url a ≡ head (some sha) u
      → a ≡ answered (some sha)
  commit_answer-head url unavailable sha u h = ground arith
  commit_answer-head url (answered none) sha u h = ground arith
  commit_answer-head url (answered (some s)) sha u h = ground arith

  -- A candidate without a pull request is looked up by its branch or commit.
  confirmed_commit :
      (branch : Text) (sha : Text) (url : Option Text)
      → head_at p slug branch c c.pull_request_number ≡ head (some sha) url
      → c.pull_request_number ≡ none
      → p.commit slug (get_or c.branch (get_or c.head_sha (text ""))) ≡ answered (some sha)
  confirmed_commit branch sha url h e =
      commit_answer-head c.pull_request_url _ sha url (ap (head_at p slug branch c) (sym e) ∙ h)

  with_slug-IsConfirmed :
      (w : WaitPlan)
      → with_slug p project c (some slug) ≡ wait w
      → IsConfirmed p slug project w × (w.candidate ≡ c)
  with_slug-IsConfirmed w h =
      let branch = branch_of_project project in
      let (sha, url, found, rest) =
        with_head-wait branch (head_at p slug branch c c.pull_request_number) w h in
      let (full, same_plan, agrees) = checked_head-wait branch sha url w rest in
      subst (λ v. IsConfirmed p slug project v × (v.candidate ≡ c)) (wait-injective _ w same_plan)
        (
          record {
            on_project = refl;
            base = refl;
            named = refl;
            full = full;
            reported = agrees;
            pulled = λ n e. confirmed_pull branch sha url n found e;
            resolved = λ e. confirmed_commit branch sha url found e;
          },
          refl,
        )

module _ (origin : Text → Option Text) (project : MergeProject) where
  verified-IsConfirmed :
      (provider : Option Provider) (c : MergeCandidate) (w : WaitPlan)
      → verified origin provider project c ≡ wait w
      → (p : Provider) × (slug : RepoSlug) × (provider ≡ some p)
        × (repo_slug_from_project project.repo_url ≡ some slug)
        × IsConfirmed p slug project w
        × (w.candidate ≡ c)
  verified-IsConfirmed none c w h = absurd (blocked-wait provider_unavailable w h)
  verified-IsConfirmed (some p) c w h =
      let (served, rest) =
        passed (serves origin project p.aliases) provider_unavailable
          (with_slug p project c (repo_slug_from_project project.repo_url)) w h in
      go (repo_slug_from_project project.repo_url) refl rest
    where
      go :
          (found : Option RepoSlug)
          → repo_slug_from_project project.repo_url ≡ found
          → with_slug p project c found ≡ wait w
          → (q : Provider) × (slug : RepoSlug) × (some p ≡ some q)
            × (repo_slug_from_project project.repo_url ≡ some slug)
            × IsConfirmed q slug project w
            × (w.candidate ≡ c)
      go none e k = absurd (blocked-wait provider_unavailable w k)
      go (some slug) e k =
          let (confirmed, same_candidate) = with_slug-IsConfirmed p slug project c w k in
          (p, slug, refl, e, confirmed, same_candidate)

  with_candidate-verified :
      (provider : Option Provider) (found : Option MergeCandidate) (w : WaitPlan)
      → with_candidate origin provider project found ≡ wait w
      → (c : MergeCandidate) × (found ≡ some c) × (verified origin provider project c ≡ wait w)
  with_candidate-verified provider none w h = absurd (blocked-wait no_candidate w h)
  with_candidate-verified provider (some c) w h =
      let (_, rest) =
        avoided (is_yes project.auto_merge_after_approval && not (is_pull_request_kind c.kind))
          (blocked no_candidate) (verified origin provider project c) w (blocked-wait no_candidate)
          h in
      (c, refl, rest)

  required_plan-candidate :
      (provider : Option Provider) (evidence : Evidence) (w : WaitPlan)
      → required_plan origin provider project evidence ≡ wait w
      → with_candidate origin provider project (candidate_of origin provider project evidence)
        ≡ wait w
  unfolding required_plan
  required_plan-candidate provider evidence w h = ground arith

-- When a card has to wait for a merge, the project asked for it, and the head that the card waits for
-- is a full commit that the provider of the project's repository answered: for a pull request its
-- current head, based on the default branch, and not closed without a merge; for any other candidate
-- what the provider resolves its branch, or else its reported commit, to. Where a commit was reported,
-- it is that head, as the provider completes it if it was short.
pub resolve_merge_evidence-IsConfirmed :
    (origin : Text → Option Text) (provider : Option Provider) (project : MergeProject)
    (evidence : Evidence) (w : WaitPlan)
    → resolve_merge_evidence origin provider (some project) evidence ≡ wait w
    → (p : Provider) × (slug : RepoSlug) × (provider ≡ some p)
      × (repo_slug_from_project project.repo_url ≡ some slug)
      × (is_yes project.completion_requires_merge ≡ true)
      × (candidate_of origin provider project evidence ≡ some w.candidate)
      × IsConfirmed p slug project w
unfolding resolve_merge_evidence
resolve_merge_evidence-IsConfirmed origin provider project evidence w h =
    elim (Bool-cases (is_yes project.completion_requires_merge)) [
      | inl required ↦
          let (c, found, rest) =
            with_candidate-verified origin project provider
              (candidate_of origin provider project evidence) w
              (required_plan-candidate origin project provider evidence w (rw required at h)) in
          let (p, slug, configured, named, confirmed, same_candidate) =
            verified-IsConfirmed origin project provider c w rest in
          (p, slug, configured, named, required, found ∙ ap some (sym same_candidate), confirmed)
      | inr free ↦ absurd (not_required-wait w (rw free at h))
    ]
