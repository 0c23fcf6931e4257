-- ===== src/Examples/Merges.antt =====
-- A project that completes by a merge: a card is parked on its pull request, which is then merged.
use megacorps.Prelude.{
  ◌≡◌, ◌↔◌, refl, true, false, Option, none, some, [], ◌∷◌, if◌then◌else◌, Text, text, starts_with,
  ◌==◌, split_on, take_until, after_prefix, drop_until, trim, to_lower,
}
use megacorps.Merge.Urls.{
  RepoSlug, repo_slug_from_project, normalize_branch_ref, same_commit, repo_full_name_from_url,
  commit_text, dashes, decimal_from, drop_outer_end, gitea_slug, is_full_sha, number_at,
  parse_pull_request_number, pull_number, scp_path, strip_git_suffix, without_credentials,
  without_scheme,
}
use megacorps.Merge.Verdict.{
  merge_wait_provider, EventKind, MergeEventFacts, MergeVerdict, default_branch_of, is_text, is_yes,
  merge_verdict, decimal_digits, decimal_text, pull_request_verdict, other_pull_request,
  event_action, merged_verdict,
}
use megacorps.Merge.Exact.{HasLanded, merge_verdict-success}
use megacorps.Merge.Candidate.{
  MergeWorkProduct, MergeProject, pull_request, MergeCandidate, select_merge_candidate,
  relevant_products, product_on_project_repo, with_pull_request_url, merge_repository_matches,
  default_branch_text, has_branch_head, is_pull_request, number_of, product_time,
}
use megacorps.Merge.Selected.{IsSelected, select_merge_candidate-IsSelected}
use megacorps.Merge.Plan.{
  WaitPlan, wait, answered, PullRequest, Provider, Evidence, candidate_of, resolve_merge_evidence,
  parked_wait, merge_completion_status, done, required_plan, branch_of_project, checked_head,
  pull_head, reported_commit,
}
use megacorps.Merge.Identity.{
  approved_identity, same_identity, by_number, ReviewIdentity, of_card, plan_merge_gate,
  review_identity_matches,
}
use megacorps.Merge.Verified.{IsConfirmed, resolve_merge_evidence-IsConfirmed}
use megacorps.Merge.Events.{PullRequestPayload, number_in, pull_request_event}
use megacorps.Merge.Closed.{merge_verdict-parked, plan_merge_gate-done}
use megacorps.Merge.Approved.{IsApproved, plan_merge_gate-IsApproved}
use megacorps.Panel.Merge.{sort_from, insert_sorted}
use megacorps.Runners.Availability.{unique_from}

abbrev server : Text
server = text "http://h"

abbrev origin : Text → Option Text
origin url = if starts_with url server then some server else none

abbrev approved_sha : Text
approved_sha = text "0123456789abcdef0123456789abcdef01234567"

abbrev project : MergeProject
project = record {
  id = 1;
  repo_url = some (text "http://h/a/b.git");
  default_branch = some (text "main");
  completion_requires_merge = some true;
  auto_merge_after_approval = some true;
}

abbrev product : MergeWorkProduct
product = record {
  id = some 7;
  kind = some (text "pull_request");
  branch = some (text "feature");
  commit_sha = none;
  pull_request_url = some (text "http://h/a/b/pulls/12");
  repo_url = none;
  url = none;
  created_at = some 1000;
}

-- Pull request 12 is still open.
abbrev pull_twelve : PullRequest
pull_twelve = record {
  state = some (text "open");
  merged = some false;
  base_ref = some (text "main");
  head_sha = some approved_sha;
  html_url = some (text "http://h/a/b/pulls/12");
}

abbrev provider : Provider
provider = record {
  aliases = server ∷ [];
  pull = λ slug n. answered (if n == 12 then some pull_twelve else none);
  commit = λ slug name. answered none;
}

abbrev evidence : Evidence
evidence = record {
  delegation_required = false;
  inherited_ready = false;
  has_delegated_products = false;
  products = product ∷ [];
  artifact_refs = [];
}

abbrev candidate : MergeCandidate
candidate = record {
  kind = pull_request;
  pull_request_url = some (text "http://h/a/b/pulls/12");
  pull_request_number = some 12;
  branch = some (text "feature");
  head_sha = none;
  work_product_id = some 7;
}

abbrev plan : WaitPlan
plan = record {
  project = project;
  candidate = candidate;
  head_sha = approved_sha;
  default_branch = text "main";
  external_id = text "12";
  external_url = some (text "http://h/a/b/pulls/12");
}

abbrev merged_event : MergeEventFacts
merged_event = record {
  kind = EventKind.pull_request;
  default_branch = text "main";
  action = some (text "closed");
  merged = some true;
  head_sha = some approved_sha;
  base_ref = some (text "refs/heads/main");
  pull_request_number = some 12;
  ref = none;
  contains_authorized_head = none;
}

-- What the reviewer approved.
abbrev identity : ReviewIdentity
identity = record {
  id = 5;
  project_id = 1;
  repo_url = text "http://h/a/b.git";
  default_branch = text "main";
  head_sha = approved_sha;
  external_id = text "12";
  candidate_key = some (by_number (some 12));
}

is_planned : resolve_merge_evidence origin (some provider) (some project) evidence ≡ wait plan
unfolding resolve_merge_evidence required_plan candidate_of select_merge_candidate relevant_products
    sort_from product_on_project_repo with_pull_request_url merge_repository_matches
    repo_full_name_from_url split_on take_until after_prefix drop_until trim to_lower starts_with
    unique_from default_branch_text has_branch_head is_pull_request number_of product_time
    branch_of_project checked_head pull_head reported_commit commit_text dashes decimal_from
    drop_outer_end gitea_slug is_full_sha normalize_branch_ref number_at parse_pull_request_number
    pull_number repo_slug_from_project same_commit scp_path strip_git_suffix without_credentials
    without_scheme decimal_digits decimal_text insert_sorted
is_planned = refl

is_selected :
    select_merge_candidate origin (server ∷ []) (product ∷ []) (some project) ≡ some candidate
unfolding required_plan candidate_of select_merge_candidate relevant_products sort_from
    product_on_project_repo with_pull_request_url merge_repository_matches repo_full_name_from_url
    split_on take_until after_prefix drop_until trim to_lower starts_with unique_from
    default_branch_text has_branch_head is_pull_request number_of product_time branch_of_project
    checked_head pull_head reported_commit commit_text dashes decimal_from drop_outer_end gitea_slug
    is_full_sha normalize_branch_ref number_at parse_pull_request_number pull_number
    repo_slug_from_project same_commit scp_path strip_git_suffix without_credentials without_scheme
    decimal_digits decimal_text insert_sorted
is_selected = refl

is_approved :
    plan_merge_gate origin (some provider) (some project) evidence (some identity) of_card
    ≡ wait plan
unfolding plan_merge_gate review_identity_matches resolve_merge_evidence required_plan candidate_of
    select_merge_candidate relevant_products sort_from product_on_project_repo with_pull_request_url
    merge_repository_matches repo_full_name_from_url split_on take_until after_prefix drop_until
    trim to_lower starts_with unique_from default_branch_text has_branch_head is_pull_request
    number_of product_time branch_of_project checked_head pull_head reported_commit commit_text
    dashes decimal_from drop_outer_end gitea_slug is_full_sha normalize_branch_ref number_at
    parse_pull_request_number pull_number repo_slug_from_project same_commit scp_path
    strip_git_suffix without_credentials without_scheme decimal_digits decimal_text insert_sorted
is_approved = refl

select_merge_candidate-IsSelected_example :
    IsSelected origin (server ∷ []) project (product ∷ []) pull_request candidate
select_merge_candidate-IsSelected_example =
    select_merge_candidate-IsSelected origin (server ∷ []) project (product ∷ []) candidate
      is_selected

resolve_merge_evidence-IsConfirmed_example :
    (p : Provider) × (slug : RepoSlug) × (some provider ≡ some p)
    × (repo_slug_from_project project.repo_url ≡ some slug)
    × (is_yes project.completion_requires_merge ≡ true)
    × (candidate_of origin (some provider) project evidence ≡ some candidate)
    × IsConfirmed p slug project plan
resolve_merge_evidence-IsConfirmed_example =
    resolve_merge_evidence-IsConfirmed origin (some provider) project evidence plan is_planned

merges_twelve : merge_verdict (parked_wait plan) merged_event ≡ MergeVerdict.success
unfolding merge_verdict parked_wait pull_request_verdict other_pull_request decimal_text
    event_action to_lower trim merged_verdict normalize_branch_ref after_prefix default_branch_of
    same_commit is_full_sha commit_text
merges_twelve = refl

-- The webhook of the merge.
abbrev merged_payload : PullRequestPayload
merged_payload = record {
  action = some (text "closed");
  merged = some true;
  head_sha = some approved_sha;
  base_ref = some (text "refs/heads/main");
  pull_number = some 12;
  payload_number = none;
}

closes_twelve :
    merge_verdict (parked_wait plan) (pull_request_event project merged_payload)
    ≡ MergeVerdict.success
unfolding pull_request_event branch_of_project merge_verdict parked_wait pull_request_verdict
    other_pull_request decimal_text event_action to_lower trim merged_verdict normalize_branch_ref
    after_prefix default_branch_of same_commit is_full_sha commit_text
closes_twelve = refl

merge_verdict-parked_example :
    (number_in merged_payload ≡ some 12)
    × (is_yes merged_payload.merged ≡ true)
    × (is_text
          (normalize_branch_ref merged_payload.base_ref)
          (default_branch_of (branch_of_project project))
        ≡ true)
    × (used : ReviewIdentity) × (approved_identity of_card (some identity) ≡ some used)
    × (same_identity (some identity) used ≡ true)
    × (same_commit (some used.head_sha) merged_payload.head_sha ≡ true)
merge_verdict-parked_example =
    merge_verdict-parked origin (some provider) project evidence (some identity) of_card plan 12
      merged_payload is_approved refl refl closes_twelve

merge_verdict-success_example :
    (merge_verdict (parked_wait plan) merged_event ≡ MergeVerdict.success) ↔ (
      (is_text (some merge_wait_provider) merge_wait_provider ≡ true)
      × (is_text (some (text "waiting")) (text "waiting") ≡ true)
      × HasLanded EventKind.pull_request (parked_wait plan) merged_event)
unfolding parked_wait
merge_verdict-success_example = merge_verdict-success (parked_wait plan) merged_event refl

-- A card whose work was delegated and accepted.
abbrev inherited : Evidence
inherited = record evidence { delegation_required = true; inherited_ready = true }

inherited_is_done :
    merge_completion_status
      (plan_merge_gate origin (some provider) (some project) inherited none of_card)
    ≡ done
unfolding plan_merge_gate merge_completion_status resolve_merge_evidence required_plan
inherited_is_done = refl

plan_merge_gate-done_example :
    (inherited.delegation_required ≡ true) × (inherited.inherited_ready ≡ true)
plan_merge_gate-done_example =
    plan_merge_gate-done origin (some provider) project inherited none of_card refl
      inherited_is_done

plan_merge_gate-IsApproved_example :
    (resolve_merge_evidence origin (some provider) (some project) evidence ≡ wait plan)
    × IsApproved origin (some identity) of_card plan
plan_merge_gate-IsApproved_example =
    plan_merge_gate-IsApproved origin (some provider) (some project) evidence (some identity)
      of_card plan is_approved
