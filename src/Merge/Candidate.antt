-- ===== src/Merge/Candidate.antt =====
-- merge-gate.ts `selectMergeCandidate`. The origin of a URL, as the platform's `URL` reads it, and the
-- provider's configured addresses are parameters; a time is in milliseconds.
use megacorps.Prelude.{
  ℕ, Bool, true, false, Option, none, some, List, [], ◌∷◌, ◌&&◌, ◌||◌, not, any, all, find, keep,
  map, is_some, get_or, if◌then◌else◌, ltb, Text, text, text_eq, trim, to_lower, truthy,
}
use megacorps.Panel.Merge.{sort_from}
use megacorps.Merge.Urls.{
  parse_pull_request_number, repo_full_name_from_url, non_empty, normalize_branch_ref, or_else,
}
use megacorps.Merge.Verdict.{is_text}

pub record MergeWorkProduct : Type 0 where
  pub id : Option ℕ
  pub kind : Option Text
  pub branch : Option Text
  pub commit_sha : Option Text
  pub pull_request_url : Option Text
  pub repo_url : Option Text
  pub url : Option Text
  pub created_at : Option ℕ

pub record MergeProject : Type 0 where
  pub id : ℕ
  pub repo_url : Option Text
  pub default_branch : Option Text
  pub completion_requires_merge : Option Bool
  pub auto_merge_after_approval : Option Bool

pub data CandidateKind : Type 0 where
  pull_request branch_head : CandidateKind

pub record MergeCandidate : Type 0 where
  pub kind : CandidateKind
  pub pull_request_url : Option Text
  pub pull_request_number : Option ℕ
  pub branch : Option Text
  pub head_sha : Option Text
  pub work_product_id : Option ℕ

-- `a === b` on texts that may be null.
abbrev pub same_text : Option Text → Option Text → Bool
same_text none none = true
same_text (some a) (some b) = text_eq a b
same_text _ _ = false

abbrev pub if_truthy : Option Text → Option Text
if_truthy none = none
if_truthy (some t) = non_empty t

-- `.filter(Boolean)`.
abbrev pub present : List (Option Text) → List Text
present [] = []
present (none ∷ rest) = present rest
present (some [] ∷ rest) = present rest
present (some (c ∷ t) ∷ rest) = (c ∷ t) ∷ present rest

unfoldable pub is_pull_request : MergeWorkProduct → Bool
is_pull_request product = is_text product.kind (text "pull_request")

-- The product with the URL of its pull request filled in.
unfoldable pub with_pull_request_url : MergeWorkProduct → MergeWorkProduct
with_pull_request_url product = record product {
  pull_request_url =
      or_else (if_truthy product.pull_request_url)
        (if is_pull_request product then product.url else none);
}

unfoldable pub product_time : MergeWorkProduct → ℕ
product_time product = get_or product.created_at 0

-- Newest first.
abbrev pub newer : MergeWorkProduct → MergeWorkProduct → Bool
newer a b = ltb (product_time b) (product_time a)

unfoldable pub number_of : MergeWorkProduct → Option ℕ
number_of product = parse_pull_request_number product.pull_request_url

-- `commitSha?.trim()`, null where it is empty.
abbrev pub trimmed : Option Text → Option Text
trimmed none = none
trimmed (some t) = non_empty (trim t)

abbrev pub commit_of : Option MergeWorkProduct → Option Text
commit_of none = none
commit_of (some product) = trimmed product.commit_sha

abbrev pub pull_request_candidate : List MergeWorkProduct → MergeWorkProduct → MergeCandidate
pull_request_candidate relevant product = record {
  kind = pull_request;
  pull_request_url = product.pull_request_url;
  pull_request_number = number_of product;
  branch = normalize_branch_ref product.branch;
  head_sha = or_else (trimmed product.commit_sha) (
      commit_of (
        find
          (λ (p : MergeWorkProduct).
            same_text p.pull_request_url product.pull_request_url && truthy p.commit_sha)
          relevant));
  work_product_id = product.id;
}

abbrev pub is_default : Text → Option Text → Bool
is_default default_branch none = false
is_default default_branch (some b) = text_eq (to_lower b) default_branch

-- A product that points at something other than the default branch.
unfoldable pub has_branch_head : Text → MergeWorkProduct → Bool
has_branch_head default_branch product =
    let branch = normalize_branch_ref product.branch in
    not (is_default default_branch branch) && (is_some branch || truthy product.commit_sha)

abbrev pub branch_candidate : Option MergeWorkProduct → Option MergeCandidate
branch_candidate none = none
branch_candidate (some product) =
    if is_some (normalize_branch_ref product.branch) || truthy product.commit_sha
    then some (record {
      kind = branch_head;
      pull_request_url = none;
      pull_request_number = none;
      branch = normalize_branch_ref product.branch;
      head_sha = trimmed product.commit_sha;
      work_product_id = product.id;
    })
    else none

abbrev pub candidate_from :
    Text → List MergeWorkProduct → Option MergeWorkProduct → Option MergeCandidate
candidate_from default_branch relevant (some product) =
    some (pull_request_candidate relevant product)
candidate_from default_branch relevant none =
    branch_candidate (find (has_branch_head default_branch) relevant)

unfoldable pub default_branch_text : MergeProject → Text
default_branch_text project = to_lower (trim (get_or project.default_branch (text "main")))

abbrev pub includes_origin : List (Option Text) → Option Text → Bool
includes_origin aliases o = any (same_text o) aliases

module _ (origin : Text → Option Text) (aliases : List Text) where
  abbrev pub origins_match : Option Text → Option Text → Bool
  origins_match actual expected =
      truthy actual
      && (truthy expected
          && (same_text actual expected
              || (includes_origin (map origin aliases) actual
                  && includes_origin (map origin aliases) expected)))

  unfoldable pub merge_repository_matches : Text → Option Text → Bool
  merge_repository_matches url project_url =
      truthy project_url
      && (same_text (repo_full_name_from_url (some url)) (repo_full_name_from_url project_url)
          && origins_match (origin url) (origin (get_or project_url [])))

  unfoldable pub product_on_project_repo : MergeProject → MergeWorkProduct → Bool
  product_on_project_repo project product =
      all (λ url. merge_repository_matches url project.repo_url)
        (present (
          product.repo_url
          ∷ product.pull_request_url
          ∷ (if is_pull_request product then product.url else none)
          ∷ []))

  unfoldable pub relevant_products : MergeProject → List MergeWorkProduct → List MergeWorkProduct
  relevant_products project products =
      sort_from newer []
        (keep (product_on_project_repo project) (map with_pull_request_url products))

  unfoldable pub select_merge_candidate :
      List MergeWorkProduct → Option MergeProject → Option MergeCandidate
  select_merge_candidate products none = none
  select_merge_candidate products (some project) =
      let relevant = relevant_products project products in
      candidate_from (default_branch_text project) relevant
        (find (λ product. is_some (number_of product)) relevant)
