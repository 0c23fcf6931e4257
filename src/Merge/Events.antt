-- ===== src/Merge/Events.antt =====
-- merge-gate.ts `handlePullRequestEvent`: the facts that a webhook's payload gives to `mergeVerdict`.
use megacorps.Prelude.{ℕ, Bool, Option, none, some, Text}
use megacorps.Merge.Urls.{or_else}
use megacorps.Merge.Verdict.{EventKind, MergeEventFacts, is_yes}
use megacorps.Merge.Candidate.{MergeProject}
use megacorps.Merge.Plan.{branch_of_project}

-- Of `payload.pull_request`, and the payload's own number.
pub record PullRequestPayload : Type 0 where
  pub action : Option Text
  pub merged : Option Bool
  pub head_sha : Option Text
  pub base_ref : Option Text
  pub pull_number : Option ℕ
  pub payload_number : Option ℕ

abbrev pub number_in : PullRequestPayload → Option ℕ
number_in payload = or_else payload.pull_number payload.payload_number

unfoldable pub pull_request_event : MergeProject → PullRequestPayload → MergeEventFacts
pull_request_event project payload = record {
  kind = EventKind.pull_request;
  default_branch = branch_of_project project;
  action = payload.action;
  merged = some (is_yes payload.merged);
  head_sha = payload.head_sha;
  base_ref = payload.base_ref;
  pull_request_number = number_in payload;
  ref = none;
  contains_authorized_head = none;
}
