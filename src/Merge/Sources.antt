-- ===== src/Merge/Sources.antt =====
-- merge-gate.ts: which work products lie on the project's repository, and which point at a head.
use megacorps.Prelude.{
  ◌≡◌, ◌≢◌, ◌⊎◌, ◌↔◌, inl, inr, refl, sym, ap, subst, ◌∙◌, Bool, true, false, Option, none, some,
  List, [], ◌∷◌, ◌&&◌, ◌||◌, all, map, is_some, truthy, to_lower, get_or, Text, text, text_eq,
  text_eq→≡, text_eq_refl, Any, arith, Bool-cases, if◌then◌else◌,
}
use mathlib.Core.Bool.{false≢true}
use mathlib.Core.Option.{some-injective}
use megacorps.Merge.Urls.{normalize_branch_ref, repo_full_name_from_url}
use megacorps.Merge.Candidate.{
  MergeWorkProduct, MergeProject, same_text, present, is_pull_request, is_default, has_branch_head,
  includes_origin, merge_repository_matches, product_on_project_repo,
}

same_text→≡ : (a b : Option Text) → same_text a b ≡ true → a ≡ b
same_text→≡ none none h = refl
same_text→≡ none (some b) h = ground arith
same_text→≡ (some a) none h = ground arith
same_text→≡ (some a) (some b) h = ap some (text_eq→≡ a b h)

same_text_refl : (a : Option Text) → same_text a a ≡ true
same_text_refl none = refl
same_text_refl (some a) = text_eq_refl a

same_text_iff : (a b : Option Text) → (same_text a b ≡ true) ↔ (a ≡ b)
same_text_iff a b = (same_text→≡ a b, λ e. ap (λ o. same_text o b) e ∙ same_text_refl b)

-- The product points at a branch or a commit, and its branch, if it names one, is not the default one.
abbrev pub PointsElsewhere : Text → MergeWorkProduct → Type 0
PointsElsewhere default_branch x =
    ((b : Text) → normalize_branch_ref x.branch ≡ some b → to_lower b ≢ default_branch)
    × ((is_some (normalize_branch_ref x.branch) ≡ true) ⊎ (truthy x.commit_sha ≡ true))

is_default_iff :
    (default_branch : Text) (branch : Option Text)
    → (is_default default_branch branch ≡ false)
      ↔ ((b : Text) → branch ≡ some b → to_lower b ≢ default_branch)
is_default_iff default_branch none = (λ h b e. ground arith, λ h. refl)
is_default_iff default_branch (some c) = (
  λ h b e d. absurd (
      false≢true (
        sym h
        ∙ ap (λ t. text_eq t default_branch) (ap to_lower (some-injective c b e) ∙ d)
        ∙ text_eq_refl default_branch)),
  λ h. elim (Bool-cases (text_eq (to_lower c) default_branch)) [
    | inl e ↦ absurd (h c refl (text_eq→≡ (to_lower c) default_branch e))
    | inr e ↦ e
  ],
)

or_iff : (a b : Bool) → ((a || b) ≡ true) ↔ ((a ≡ true) ⊎ (b ≡ true))
or_iff true b = (λ h. inl refl, λ h. refl)
or_iff false b = (λ h. inr h, λ h. elim h [ inl e ↦ ground arith | inr e ↦ e ])

pub has_branch_head_iff :
    (default_branch : Text) (x : MergeWorkProduct)
    → (has_branch_head default_branch x ≡ true) ↔ PointsElsewhere default_branch x
unfolding has_branch_head
has_branch_head_iff default_branch x =
    let (apart, other) = is_default_iff default_branch (normalize_branch_ref x.branch) in
    let (either, points) = or_iff (is_some (normalize_branch_ref x.branch)) (truthy x.commit_sha) in
    (λ h. (apart (ground arith), either (ground arith)), λ h. ground (arith, other h.0, points h.1))

module _ (origin : Text → Option Text) (aliases : List Text) where
  -- One of the provider's addresses has the origin.
  abbrev pub IsAlias : Option Text → Type 0
  IsAlias o = Any (λ a. o ≡ origin a) aliases

  -- The URL names the project's repository, at its origin or, both being the provider's, at another.
  abbrev pub IsOfRepo : Text → Option Text → Type 0
  IsOfRepo url project_url =
      (truthy project_url ≡ true)
      × (repo_full_name_from_url (some url) ≡ repo_full_name_from_url project_url)
      × (truthy (origin url) ≡ true)
      × (truthy (origin (get_or project_url (text ""))) ≡ true)
      × ((origin url ≡ origin (get_or project_url (text "")))
          ⊎ (IsAlias (origin url) × IsAlias (origin (get_or project_url (text "")))))

  alias_iff :
      (urls : List Text) (o : Option Text)
      → (includes_origin (map origin urls) o ≡ true) ↔ Any (λ a. o ≡ origin a) urls
  alias_iff [] o = (λ h. ground arith, λ h. absurd h)
  alias_iff (u ∷ urls) o =
      let (equal, same) = same_text_iff o (origin u) in
      let (found, present_one) = alias_iff urls o in
      let (either, joined) =
        or_iff (same_text o (origin u)) (includes_origin (map origin urls) o) in
      (
        λ h. elim (either h) [ inl e ↦ inl (equal e) | inr a ↦ inr (found a) ],
        λ h. joined (elim h [ inl e ↦ inl (same e) | inr a ↦ inr (present_one a) ]),
      )

  matches_iff :
      (url : Text) (project_url : Option Text)
      → (merge_repository_matches origin aliases url project_url ≡ true) ↔ IsOfRepo url project_url
  unfolding merge_repository_matches
  matches_iff url project_url =
      let expected = origin (get_or project_url (text "")) in
      let (equal_name, same_name) =
        same_text_iff (repo_full_name_from_url (some url)) (repo_full_name_from_url project_url) in
      let (equal, same) = same_text_iff (origin url) expected in
      let (found, present_one) = alias_iff aliases (origin url) in
      let (found_other, present_other) = alias_iff aliases expected in
      let (either, joined) = or_iff (same_text (origin url) expected) (
        includes_origin (map origin aliases) (origin url)
        && includes_origin (map origin aliases) expected) in
      (
        λ h. (
          ground arith,
          equal_name (ground arith),
          ground arith,
          ground arith,
          elim (either (ground arith)) [
            | inl e ↦ inl (equal e)
            | inr both ↦ inr (found (ground arith), found_other (ground arith))
          ],
        ),
        λ (known, name, actual, there, at).
            let origins = joined (elim at [
              | inl e ↦ inl (same e)
              | inr (a, b) ↦ inr (rw (present_one a) (present_other b))
            ]) in
            rw (known, same_name name, actual, there) origins,
      )

  -- A URL that a product has, null or empty being none, is of the project's repository.
  abbrev pub UrlFits : MergeProject → Option Text → Type 0
  UrlFits project url = (t : Text) → url ≡ some t → t ≢ [] → IsOfRepo t project.repo_url

  -- Every URL of the product is of the project's repository.
  abbrev pub IsOnRepo : MergeProject → MergeWorkProduct → Type 0
  IsOnRepo project x =
      UrlFits project x.repo_url
      × UrlFits project x.pull_request_url
      × (is_pull_request x ≡ true → UrlFits project x.url)

  present_iff :
      (project : MergeProject) (o : Option Text) (rest : List (Option Text))
      → (all
            (λ url. merge_repository_matches origin aliases url project.repo_url)
            (present (o ∷ rest))
          ≡ true)
        ↔ (UrlFits project o
            × (all
                  (λ url. merge_repository_matches origin aliases url project.repo_url)
                  (present rest)
                ≡ true))
  present_iff project none rest = (λ h. (λ t e n. ground arith, h), λ h. h.1)
  present_iff project (some []) rest =
      (λ h. (λ t e n. absurd (n (sym (some-injective [] t e))), h), λ h. h.1)
  present_iff project (some (c ∷ u)) rest =
      let (fits, fitting) = matches_iff (c ∷ u) project.repo_url in
      (
        λ h. (
          λ t e n.
              subst (λ s. IsOfRepo s project.repo_url) (some-injective (c ∷ u) t e)
                (fits (ground arith)),
          ground arith,
        ),
        λ h. rw (fitting (h.0 (c ∷ u) refl (λ e. ground arith))) h.1,
      )

  pub IsOnRepo-iff :
      (project : MergeProject) (x : MergeWorkProduct)
      → (product_on_project_repo origin aliases project x ≡ true) ↔ IsOnRepo project x
  unfolding product_on_project_repo
  IsOnRepo-iff project x =
      let last = if is_pull_request x then x.url else none in
      let (split, join) = present_iff project x.repo_url (x.pull_request_url ∷ last ∷ []) in
      let (split_next, join_next) = present_iff project x.pull_request_url (last ∷ []) in
      let (split_last, join_last) = present_iff project last [] in
      (
        λ h.
            let (repo, next) = split h in
            let (pull, more) = split_next next in
            let (own, _) = split_last more in
            (
              repo,
              pull,
              λ e. subst (λ o. UrlFits project o) (chosen_url x.url (is_pull_request x) e) own,
            ),
        λ (repo, pull, own).
            join
              (repo, join_next (pull, join_last (chosen_fits x.url (is_pull_request x) own, refl))),
      )
    where
      chosen_url : (u : Option Text) (b : Bool) → b ≡ true → (if b then u else none) ≡ u
      chosen_url u true e = refl
      chosen_url u false e = ground arith

      chosen_fits :
          (u : Option Text) (b : Bool)
          → (b ≡ true → UrlFits project u)
          → UrlFits project (if b then u else none)
      chosen_fits u true f = f refl
      chosen_fits u false f = λ t e n. ground arith
