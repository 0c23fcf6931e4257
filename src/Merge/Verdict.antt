-- ===== src/Merge/Verdict.antt =====
-- merge-gate.ts `mergeVerdict`: what an event of the provider means for a wait.
use megacorps.Prelude.{
  ℕ, zero, suc, ◌+◌, ◌/◌, ◌%◌, Bool, false, Option, none, some, [], ◌∷◌, ◌&&◌, ◌||◌, not, get_or,
  if◌then◌else◌, ltb, Text, text, text_eq, trim, to_lower, truthy,
}
use megacorps.Merge.Urls.{normalize_branch_ref, same_commit}

abbrev pub merge_wait_provider : Text
merge_wait_provider = text "gitea"

pub record MergeWaitFacts : Type 0 where
  pub provider : Option Text
  pub status : Option Text
  pub external_id : Option Text
  pub authorized_head_sha : Option Text

pub data EventKind : Type 0 where
  pull_request push : EventKind

pub record MergeEventFacts : Type 0 where
  pub kind : EventKind
  pub default_branch : Text
  pub action : Option Text
  pub merged : Option Bool
  pub head_sha : Option Text
  pub base_ref : Option Text
  pub pull_request_number : Option ℕ
  pub ref : Option Text
  pub contains_authorized_head : Option Bool

pub data MergeVerdict : Type 0 where
  success drift failure ignore : MergeVerdict

-- `String(n)`: the fuel is more than the number of digits.
unfoldable pub decimal_digits : ℕ → ℕ → Text → Text
decimal_digits zero n digits = digits
decimal_digits (suc fuel) n digits =
    let more = (b'0' + n % 10) ∷ digits in
    let rest = decimal_digits fuel (n / 10) more in if ltb n 10 then more else rest

unfoldable pub decimal_text : ℕ → Text
unfolding decimal_digits
decimal_text n = decimal_digits (suc n) n []

abbrev pub is_text : Option Text → Text → Bool
is_text none t = false
is_text (some s) t = text_eq s t

abbrev pub is_yes : Option Bool → Bool
is_yes none = false
is_yes (some b) = b

unfoldable pub default_branch_of : Text → Text
default_branch_of branch = get_or (normalize_branch_ref (some branch)) (text "main")

abbrev pub same_branch : Option Text → Text → Bool
same_branch none branch = false
same_branch (some b) branch = text_eq (to_lower b) (to_lower branch)

unfoldable pub push_verdict : MergeWaitFacts → MergeEventFacts → Text → MergeVerdict
push_verdict wait event default_branch =
    if not (same_branch (normalize_branch_ref event.ref) default_branch)
    then ignore
    else if not (truthy wait.authorized_head_sha)
    then ignore
    else if is_yes event.contains_authorized_head
    then success
    else ignore

-- The wait names another pull request.
abbrev pub names_number : Option Text → Option ℕ → Bool
names_number external_id none = false
names_number external_id (some n) = is_text external_id (decimal_text n)

unfoldable pub other_pull_request : MergeWaitFacts → MergeEventFacts → Bool
other_pull_request wait event =
    truthy wait.external_id && not (names_number wait.external_id event.pull_request_number)

unfoldable pub event_action : MergeEventFacts → Text
event_action event = to_lower (trim (get_or event.action []))

abbrev pub is_closed : Text → Bool
is_closed action = text_eq action (text "closed") || text_eq action (text "merged")

abbrev pub is_synchronized : Text → Bool
is_synchronized action = text_eq action (text "synchronized") || text_eq action (text "synchronize")

unfoldable pub merged_verdict : MergeWaitFacts → MergeEventFacts → Text → MergeVerdict
merged_verdict wait event default_branch =
    if not (is_text (normalize_branch_ref event.base_ref) default_branch)
    then ignore
    else if not (truthy wait.authorized_head_sha)
    then success
    else if same_commit wait.authorized_head_sha event.head_sha
    then success
    else drift

unfoldable pub synchronized_verdict : MergeWaitFacts → MergeEventFacts → MergeVerdict
synchronized_verdict wait event =
    if not (truthy wait.authorized_head_sha && truthy event.head_sha)
    then ignore
    else if same_commit wait.authorized_head_sha event.head_sha
    then ignore
    else drift

unfoldable pub pull_request_verdict : MergeWaitFacts → MergeEventFacts → Text → MergeVerdict
pull_request_verdict wait event default_branch =
    let action = event_action event in
    if other_pull_request wait event
    then ignore
    else if is_closed action && is_yes event.merged
    then merged_verdict wait event default_branch
    else if is_closed action
    then failure
    else if is_synchronized action
    then synchronized_verdict wait event
    else ignore

abbrev pub event_verdict : EventKind → MergeWaitFacts → MergeEventFacts → Text → MergeVerdict
event_verdict push wait event default_branch = push_verdict wait event default_branch
event_verdict pull_request wait event default_branch =
    pull_request_verdict wait event default_branch

unfoldable pub merge_verdict : MergeWaitFacts → MergeEventFacts → MergeVerdict
merge_verdict wait event =
    if not (is_text wait.provider merge_wait_provider && is_text wait.status (text "waiting"))
    then ignore
    else event_verdict event.kind wait event (default_branch_of event.default_branch)
