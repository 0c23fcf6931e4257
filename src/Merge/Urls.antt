-- ===== src/Merge/Urls.antt =====
-- merge-gate.ts: what the gate reads in texts, that is pull request numbers, repositories, branches and
-- commits, and `giteaSlug` of gitea.ts. A regular expression is a function that reads from left to right.
use megacorps.Prelude.{
  ℕ, ◌+◌, ◌*◌, ◌-◌, Bool, true, false, Option, none, some, List, [], ◌∷◌, ◌++◌, ◌&&◌, ◌||◌, not,
  any, all, keep, is_empty, get_or, if◌then◌else◌, ltb, leb, ◌==◌, length, Text, text, text_eq,
  trim, to_lower, after_prefix, take_until, drop_until, split_on, is_digit, is_letter,
}

abbrev pub or_else {ℓ} : {A : Type ℓ} → Option A → Option A → Option A
or_else (some a) o = some a
or_else none o = o

-- `/`, `?` and `#`.
abbrev pub ends_segment : ℕ → Bool
ends_segment c = c == b'/' || (c == b'?' || c == b'#')

abbrev pub is_segment_end : Text → Bool
is_segment_end [] = true
is_segment_end (c ∷ t) = ends_segment c

-- `(\d+)(?:[/?#]|$)` at this place.
unfoldable pub number_at : Text → Option Text
number_at t =
    let digits = take_until (λ c. not (is_digit c)) t in
    if is_empty digits || not (is_segment_end (drop_until (λ c. not (is_digit c)) t))
    then none
    else some digits

abbrev pub number_after : Option Text → Option Text
number_after none = none
number_after (some t) = number_at t

-- `/\/pulls?\/(\d+)(?:[/?#]|$)/`: the first place where it matches.
unfoldable pub pull_number : Text → Option Text
unfolding number_at
pull_number [] = none
pull_number (c ∷ t) =
    or_else (number_after (after_prefix (text "/pulls/") (c ∷ t)))
      (or_else (number_after (after_prefix (text "/pull/") (c ∷ t))) (pull_number t))

unfoldable pub decimal_from : ℕ → Text → ℕ
decimal_from value [] = value
decimal_from value (c ∷ t) = decimal_from (value * 10 + (c - b'0')) t

-- `Number.isSafeInteger(value) && value > 0`.
abbrev pub safe_positive : ℕ → Option ℕ
safe_positive value = if ltb 0 value && ltb value 9007199254740992 then some value else none

abbrev pub decimal_of : Option Text → Option ℕ
decimal_of none = none
decimal_of (some digits) = safe_positive (decimal_from 0 digits)

unfoldable pub parse_pull_request_number : Option Text → Option ℕ
unfolding pull_number decimal_from
parse_pull_request_number url = decimal_of (pull_number (trim (get_or url [])))

-- `value.replace(/\.git$/i, '')`.
unfoldable pub strip_git_suffix : Text → Text
strip_git_suffix [] = []
strip_git_suffix (c ∷ t) =
    let rest = strip_git_suffix t in
    if text_eq (to_lower (c ∷ t)) (text ".git") then [] else c ∷ rest

abbrev pub ends_scheme : ℕ → Bool
ends_scheme c = not (is_letter c || (is_digit c || (c == b'+' || (c == b'.' || c == b'-'))))

-- `replace(/^[a-z][a-z0-9+.-]*:\/\//i, '')`.
unfoldable pub without_scheme : Text → Text
without_scheme [] = []
without_scheme (c ∷ t) =
    if is_letter c
    then get_or (after_prefix (text "://") (drop_until ends_scheme t)) (c ∷ t)
    else c ∷ t

-- `replace(/^[^/@]*@/, '')`.
unfoldable pub without_credentials : Text → Text
without_credentials t =
    get_or (after_prefix (text "@") (drop_until (λ c. c == b'/' || c == b'@') t)) t

abbrev pub is_slash : ℕ → Bool
is_slash c = c == b'/'

abbrev pub is_line_end : ℕ → Bool
is_line_end c = c == 10 || (c == 13 || (c == 0x2028 || c == 0x2029))

-- Behind the first `/`.
abbrev pub behind_slash : Text → Text
behind_slash t = get_or (after_prefix (text "/") (drop_until is_slash t)) []

-- `scp[2]` and `scp[3]` of `/^([^/:]+):([^/]+)(\/.*)$/`, joined, unless `scp[2]` is a port.
abbrev pub scp_path_of : Text → Option Text
scp_path_of t =
    let second = take_until is_slash t in
    let third = drop_until is_slash t in
    if is_empty second || (is_empty third || (any is_line_end third || all is_digit second))
    then none
    else some (second ++ third)

abbrev pub scp_path_after : Option Text → Option Text
scp_path_after none = none
scp_path_after (some t) = scp_path_of t

unfoldable pub scp_path : Text → Option Text
scp_path t =
    let ends_host = λ (c : ℕ). c == b'/' || c == b':' in
    if is_empty (take_until ends_host t)
    then none
    else scp_path_after (after_prefix (text ":") (drop_until ends_host t))

-- `${org}/${repo}` of the first two segments.
abbrev pub full_name_of : List Text → Option Text
full_name_of [] = none
full_name_of (org ∷ []) = none
full_name_of (org ∷ repo ∷ more) = some (to_lower org ++ b'/' ∷ to_lower repo)

unfoldable pub repo_full_name_from_url : Option Text → Option Text
unfolding without_scheme without_credentials scp_path strip_git_suffix
repo_full_name_from_url url =
    let rest = without_credentials (without_scheme (trim (get_or url []))) in
    let path = get_or (scp_path rest) (behind_slash rest) in
    full_name_of (
      keep (λ s. not (is_empty s))
        (split_on b'/' (strip_git_suffix (take_until (λ c. c == b'?' || c == b'#') path))))

-- A string that is null or empty is no name.
abbrev pub same_stripped : Text → Text → Bool
same_stripped a b =
    text_eq (to_lower (strip_git_suffix (trim a))) (to_lower (strip_git_suffix (trim b)))

unfoldable pub same_repo_full_name : Option Text → Option Text → Bool
unfolding strip_git_suffix
same_repo_full_name a b =
    let left = get_or a [] in
    let right = get_or b [] in not (is_empty left || is_empty right) && same_stripped left right

-- `giteaSlug`: each run of other characters becomes one dash, and dashes and dots at the ends go.
abbrev pub is_slug_unit : ℕ → Bool
is_slug_unit c =
    (leb b'a' c && leb c b'z') || (is_digit c || (c == b'.' || (c == b'_' || c == b'-')))

unfoldable pub dashes : (in_run : Bool) → Text → Text
dashes in_run [] = []
dashes in_run (c ∷ t) =
    let plain = c ∷ dashes false t in
    let more = dashes true t in
    if is_slug_unit c then plain else if in_run then more else b'-' ∷ more

abbrev pub is_inner : ℕ → Bool
is_inner c = not (c == b'-' || c == b'.')

unfoldable pub drop_outer_end : Text → Text
drop_outer_end [] = []
drop_outer_end (c ∷ t) =
    let rest = drop_outer_end t in if is_empty rest && not (is_inner c) then [] else c ∷ rest

abbrev pub or_x : Text → Text
or_x [] = text "x"
or_x (c ∷ t) = c ∷ t

unfoldable pub gitea_slug : Text → Text
unfolding dashes drop_outer_end
gitea_slug value = or_x (drop_outer_end (drop_until is_inner (dashes false (to_lower value))))

pub record RepoSlug : Type 0 where
  pub org : Text
  pub repo : Text

abbrev pub slug_of : List Text → Option RepoSlug
slug_of (org ∷ repo ∷ more) =
    if is_empty org || is_empty repo
    then none
    else some (record { org = gitea_slug org; repo = gitea_slug repo })
slug_of (org ∷ []) = none
slug_of [] = none

abbrev pub slug_of_name : Option Text → Option RepoSlug
slug_of_name none = none
slug_of_name (some name) = slug_of (split_on b'/' name)

-- For a project's repository, if there is one.
unfoldable pub repo_slug_from_project : Option Text → Option RepoSlug
unfolding repo_full_name_from_url gitea_slug
repo_slug_from_project repo_url = slug_of_name (repo_full_name_from_url repo_url)

-- `|| null`.
abbrev pub non_empty : Text → Option Text
non_empty [] = none
non_empty (c ∷ t) = some (c ∷ t)

unfoldable pub normalize_branch_ref : Option Text → Option Text
normalize_branch_ref ref =
    let trimmed = trim (get_or ref []) in
    non_empty (get_or (after_prefix (text "refs/heads/") trimmed) trimmed)

abbrev pub is_hex : ℕ → Bool
is_hex c = is_digit c || (leb b'a' c && leb c b'f')

-- `/^[0-9a-f]{40}$/`.
unfoldable pub is_full_sha : Text → Bool
is_full_sha t = length t == 40 && all is_hex t

-- `(sha ?? '').trim().toLowerCase()`.
unfoldable pub commit_text : Option Text → Text
commit_text sha = to_lower (trim (get_or sha []))

unfoldable pub same_commit : Option Text → Option Text → Bool
same_commit a b = is_full_sha (commit_text a) && text_eq (commit_text a) (commit_text b)
