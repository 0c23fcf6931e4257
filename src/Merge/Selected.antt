-- ===== src/Merge/Selected.antt =====
-- Which work product the gate wants merged.
use megacorps.Prelude.{
  ◌↔◌, ◌∙◌, sym, ◌≤◌, ◌≡◌, refl, subst, Bool, true, false, Option, none, some, List, [], find,
  find-some, find-none, keep, map, is_some, truthy, Text, All, All-map_prop, Any, arith, Bool-cases,
  inl, inr, ◌||◌,
}
use mathlib.Core.Option.{some-injective, none-ne-some}
use megacorps.Panel.Merge.Sort.{All-sort_from, All-of_sort_from, Ordered, Ordered-sort_from}
use megacorps.Merge.Urls.{or_else, normalize_branch_ref}
use mathlib.Core.Bool.{false≢true}
use megacorps.Merge.Sources.{IsOnRepo, IsOnRepo-iff, PointsElsewhere, has_branch_head_iff}
use megacorps.Merge.Candidate.{
  trimmed, MergeWorkProduct, MergeProject, CandidateKind, pull_request, branch_head, MergeCandidate,
  with_pull_request_url, product_time, newer, number_of, has_branch_head, branch_candidate,
  candidate_from, default_branch_text, product_on_project_repo, relevant_products,
  select_merge_candidate,
}
use megacorps.Merge.Found.{keep-source, keep-All, find-All, find-first}

abbrev pub IsNewer : MergeWorkProduct → MergeWorkProduct → Type 0
IsNewer a b = product_time b ≤ product_time a

module _ (origin : Text → Option Text) (aliases : List Text) (project : MergeProject)
    (products : List MergeWorkProduct) where
  abbrev on_repo : MergeWorkProduct → Bool
  on_repo = product_on_project_repo origin aliases project

  -- The product is the newest on the project's repository that passes the test.
  abbrev pub IsNewestWith : (MergeWorkProduct → Bool) → MergeWorkProduct → Type 0
  IsNewestWith test x =
      Any (λ p. with_pull_request_url p ≡ x) products
      × (on_repo x ≡ true)
      × (test x ≡ true)
      × All
          (λ q.
            on_repo (with_pull_request_url q) ≡ true
            → test (with_pull_request_url q) ≡ true
            → IsNewer x (with_pull_request_url q))
          products

  relevant-source :
      All
        (λ x. (on_repo x ≡ true) × Any (λ p. with_pull_request_url p ≡ x) products)
        (relevant_products origin aliases project products)
  unfolding relevant_products
  relevant-source =
      All-sort_from newer
        (λ x. (on_repo x ≡ true) × Any (λ p. with_pull_request_url p ≡ x) products) []
        (keep on_repo (map with_pull_request_url products)) tt
        (keep-source with_pull_request_url on_repo products)

  relevant-All :
      (Q : MergeWorkProduct → Type 0)
      → All Q (relevant_products origin aliases project products)
      → All (λ q. on_repo (with_pull_request_url q) ≡ true → Q (with_pull_request_url q)) products
  unfolding relevant_products
  relevant-All Q h =
      keep-All with_pull_request_url on_repo Q products
        (All-of_sort_from newer Q [] (keep on_repo (map with_pull_request_url products)) h).1

  relevant-Ordered : Ordered IsNewer (relevant_products origin aliases project products)
  unfolding relevant_products
  relevant-Ordered =
      Ordered-sort_from IsNewer (λ x y z h k. omega (arith, h, k)) newer (λ x y e. ground arith)
        (λ x y e. ground arith) [] (keep on_repo (map with_pull_request_url products)) tt

  find-IsNewestWith :
      (test : MergeWorkProduct → Bool) (x : MergeWorkProduct)
      → find test (relevant_products origin aliases project products) ≡ some x
      → IsNewestWith test x
  find-IsNewestWith test x e =
      let relevant = relevant_products origin aliases project products in
      let (on, source) =
        find-All test (λ y. (on_repo y ≡ true) × Any (λ p. with_pull_request_url p ≡ y) products)
          relevant x relevant-source e in
      (
        source,
        on,
        find-some test relevant e,
        relevant-All (λ y. test y ≡ true → IsNewer x y)
            (find-first test IsNewer relevant x (λ y. omega arith) relevant-Ordered e),
      )

  abbrev has_number : MergeWorkProduct → Bool
  has_number x = is_some (number_of x)

  -- The same with what the tests stand for: the product comes from the list, with the URL of its pull
  -- request filled in, is of the project's repository and `Has`, and is the newest of those.
  abbrev pub IsNewest : (MergeWorkProduct → Type 0) → MergeWorkProduct → Type 0
  IsNewest Has x =
      Any (λ p. with_pull_request_url p ≡ x) products
      × IsOnRepo origin aliases project x
      × Has x
      × All
          (λ q.
            IsOnRepo origin aliases project (with_pull_request_url q)
            → Has (with_pull_request_url q)
            → IsNewer x (with_pull_request_url q))
          products

  newest :
      (test : MergeWorkProduct → Bool) (Has : MergeWorkProduct → Type 0) (x : MergeWorkProduct)
      → ((y : MergeWorkProduct) → (test y ≡ true) ↔ Has y)
      → IsNewestWith test x
      → IsNewest Has x
  newest test Has x means (source, on, met, first) = (
    source,
    (IsOnRepo-iff origin aliases project x).0 on,
    (means x).0 met,
    All-map_prop
        (λ q.
          on_repo (with_pull_request_url q) ≡ true
          → test (with_pull_request_url q) ≡ true
          → IsNewer x (with_pull_request_url q))
        (λ q.
          IsOnRepo origin aliases project (with_pull_request_url q)
          → Has (with_pull_request_url q)
          → IsNewer x (with_pull_request_url q))
        products
        (λ q h k l.
          h ((IsOnRepo-iff origin aliases project (with_pull_request_url q)).1 k)
            ((means (with_pull_request_url q)).1 l))
        first,
  )

  abbrev pub HasNumber : MergeWorkProduct → Type 0
  HasNumber x = is_some (number_of x) ≡ true

  has_number_iff : (y : MergeWorkProduct) → (has_number y ≡ true) ↔ HasNumber y
  has_number_iff y = (λ h. h, λ h. h)

  -- What the candidate is, by its kind.
  abbrev pub IsSelected : CandidateKind → MergeCandidate → Type 0
  IsSelected pull_request c =
      (x : MergeWorkProduct) × IsNewest HasNumber x
      × (c.pull_request_number ≡ number_of x)
      × (c.pull_request_url ≡ x.pull_request_url)
      × (c.branch ≡ normalize_branch_ref x.branch)
      × ((sha : Text) → trimmed x.commit_sha ≡ some sha → c.head_sha ≡ some sha)
      × (c.work_product_id ≡ x.id)
  IsSelected branch_head c =
      (x : MergeWorkProduct) × IsNewest (PointsElsewhere (default_branch_text project)) x
      × (c.pull_request_number ≡ none)
      × (c.branch ≡ normalize_branch_ref x.branch)
      × (c.head_sha ≡ trimmed x.commit_sha)
      × (c.work_product_id ≡ x.id)
      × All
          (λ q.
            IsOnRepo origin aliases project (with_pull_request_url q)
            → ¬ HasNumber (with_pull_request_url q))
          products

  or_else-some : (a b : Option Text) (sha : Text) → a ≡ some sha → or_else a b ≡ some sha
  or_else-some none b sha e = absurd (none-ne-some sha e)
  or_else-some (some t) b sha e = e

  numberless :
      All (λ y. has_number y ≡ false) (relevant_products origin aliases project products)
      → All
          (λ q.
            IsOnRepo origin aliases project (with_pull_request_url q)
            → ¬ HasNumber (with_pull_request_url q))
          products
  numberless h =
      All-map_prop
        (λ q.
          on_repo (with_pull_request_url q) ≡ true → has_number (with_pull_request_url q) ≡ false)
        (λ q.
          IsOnRepo origin aliases project (with_pull_request_url q)
          → ¬ HasNumber (with_pull_request_url q))
        products
        (λ q k on l. absurd (
          false≢true
            (sym (k ((IsOnRepo-iff origin aliases project (with_pull_request_url q)).1 on)) ∙ l)))
        (relevant-All (λ y. has_number y ≡ false) h)

  branch_candidate-IsSelected :
      (found : Option MergeWorkProduct) (c : MergeCandidate)
      → find has_number (relevant_products origin aliases project products) ≡ none
      → find
          (has_branch_head (default_branch_text project))
          (relevant_products origin aliases project products)
        ≡ found
      → branch_candidate found ≡ some c
      → IsSelected c.kind c
  branch_candidate-IsSelected none c e f h = absurd (none-ne-some c h)
  branch_candidate-IsSelected (some x) c e f h =
      elim (Bool-cases (is_some (normalize_branch_ref x.branch) || truthy x.commit_sha)) [
        | inl points ↦
            subst (λ d. IsSelected d.kind d) (some-injective _ c (rw points at h))
              (
                x,
                newest (has_branch_head (default_branch_text project))
                    (PointsElsewhere (default_branch_text project)) x
                    (has_branch_head_iff (default_branch_text project))
                    (find-IsNewestWith (has_branch_head (default_branch_text project)) x f),
                refl,
                refl,
                refl,
                refl,
                numberless
                    (find-none has_number (relevant_products origin aliases project products) e),
              )
        | inr nothing ↦ absurd (none-ne-some c (rw nothing at h))
      ]

  candidate_from-IsSelected :
      (found : Option MergeWorkProduct) (c : MergeCandidate)
      → find has_number (relevant_products origin aliases project products) ≡ found
      → candidate_from
          (default_branch_text project)
          (relevant_products origin aliases project products)
          found
        ≡ some c
      → IsSelected c.kind c
  candidate_from-IsSelected (some x) c e h =
      subst (λ d. IsSelected d.kind d) (some-injective _ c h)
        (
          x,
          newest has_number HasNumber x has_number_iff (find-IsNewestWith has_number x e),
          refl,
          refl,
          refl,
          λ sha k. or_else-some (trimmed x.commit_sha) _ sha k,
          refl,
        )
  candidate_from-IsSelected none c e h =
      branch_candidate-IsSelected
        (find (has_branch_head (default_branch_text project))
          (relevant_products origin aliases project products))
        c e refl h

  -- The candidate that is selected is the newest pull request among the work products all of whose URLs
  -- are of the project's repository, with its number, URL, branch and commit, and only where there is
  -- none the newest branch or commit, with that branch and commit, whose branch is not the default one.
  -- A URL is of that repository if the names are the same and so are the origins, or both origins are
  -- the provider's.
  pub select_merge_candidate-IsSelected :
      (c : MergeCandidate)
      → select_merge_candidate origin aliases products (some project) ≡ some c
      → IsSelected c.kind c
  unfolding select_merge_candidate
  select_merge_candidate-IsSelected c h =
      candidate_from-IsSelected
        (find has_number (relevant_products origin aliases project products)) c refl h
