-- ===== src/Merge/Exact.antt =====
-- When `mergeVerdict` of merge-gate.ts is a success.
use megacorps.Prelude.{
  ℕ, zero, suc, ◌+◌, ◌/◌, ◌%◌, ◌<◌, ◌≡◌, ◌↔◌, refl, sym, ap, subst, ◌∙◌, Bool, true, false, Option,
  none, some, [], ◌∷◌, not, if◌then◌else◌, ltb, Text, text, text_eq→≡, truthy, arith, Bool-cases,
  inl, inr, and-true,
}
use megacorps.Merge.Urls.{decimal_from, normalize_branch_ref, same_commit}
use megacorps.Merge.Verdict.{
  merge_wait_provider, MergeWaitFacts, EventKind, pull_request, push, MergeEventFacts, MergeVerdict,
  success, ignore, decimal_digits, decimal_text, is_text, is_yes, default_branch_of, same_branch,
  push_verdict, names_number, other_pull_request, event_action, is_closed, merged_verdict,
  synchronized_verdict, pull_request_verdict, event_verdict, merge_verdict,
}

-- What the event shows: the authorized head is on the default branch.
abbrev pub HasLanded : EventKind → MergeWaitFacts → MergeEventFacts → Type 0
HasLanded push wait event =
    (same_branch (normalize_branch_ref event.ref) (default_branch_of event.default_branch) ≡ true)
    × (is_yes event.contains_authorized_head ≡ true)
HasLanded pull_request wait event =
    (is_closed (event_action event) ≡ true)
    × (is_yes event.merged ≡ true)
    × (is_text (normalize_branch_ref event.base_ref) (default_branch_of event.default_branch)
        ≡ true)
    × (same_commit wait.authorized_head_sha event.head_sha ≡ true)
    × (truthy wait.external_id ≡ true
        → names_number wait.external_id event.pull_request_number ≡ true)

event_verdict-success :
    (kind : EventKind) (wait : MergeWaitFacts) (event : MergeEventFacts)
    → truthy wait.authorized_head_sha ≡ true
    → (event_verdict kind wait event (default_branch_of event.default_branch) ≡ success)
      ↔ HasLanded kind wait event
unfolding push_verdict pull_request_verdict merged_verdict synchronized_verdict other_pull_request
event_verdict-success push wait event h = (λ e. ground arith, λ e. ground arith)
event_verdict-success pull_request wait event h = (λ e. ground arith, λ e. ground arith)

decimal_from-digits :
    (fuel n : ℕ) (digits : Text)
    → n < fuel
    → decimal_from 0 (decimal_digits fuel n digits) ≡ decimal_from n digits
unfolding decimal_from decimal_digits
decimal_from-digits zero n digits h = absurd (omega arith)
decimal_from-digits (suc fuel) n digits h = elim (Bool-cases (ltb n 10)) [
  | inl small ↦ rw small (ap (λ (v : ℕ). decimal_from v digits) (ground arith))
  | inr large ↦ rw large (
      decimal_from-digits fuel (n / 10) ((48 + n % 10) ∷ digits) (ground arith)
      ∙ ap (λ (v : ℕ). decimal_from v digits) (ground arith))
]

-- The decimal digits of a number read back as the number.
pub decimal_from-decimal_text : (n : ℕ) → decimal_from 0 (decimal_text n) ≡ n
unfolding decimal_text decimal_from
decimal_from-decimal_text n = decimal_from-digits (suc n) n [] (omega arith)

decimal_text-injective : (a b : ℕ) → decimal_text a ≡ decimal_text b → a ≡ b
decimal_text-injective a b e =
    sym (decimal_from-decimal_text a) ∙ ap (decimal_from 0) e ∙ decimal_from-decimal_text b

names_number-eq :
    (n : ℕ) (found : Option ℕ) → names_number (some (decimal_text n)) found ≡ true → found ≡ some n
names_number-eq n none h = ground arith
names_number-eq n (some k) h =
    ap some (sym (decimal_text-injective n k (text_eq→≡ (decimal_text n) (decimal_text k) h)))

gated-success :
    (b : Bool) (v : MergeVerdict)
    → (if not b then ignore else v) ≡ success
    → (b ≡ true) × (v ≡ success)
gated-success true v h = (refl, h)
gated-success false v h = ground arith

-- Once a head is authorized for a pull request, the wait succeeds exactly when that commit is known to
-- be on the default branch: pushed to it, or merged by that very pull request, which went into the
-- default branch with the authorized commit, in full, as its head.
pub merge_verdict-success :
    (wait : MergeWaitFacts) (event : MergeEventFacts)
    → truthy wait.authorized_head_sha ≡ true
    → (merge_verdict wait event ≡ success) ↔ (
        (is_text wait.provider merge_wait_provider ≡ true)
        × (is_text wait.status (text "waiting") ≡ true)
        × HasLanded event.kind wait event)
unfolding merge_verdict
merge_verdict-success wait event h =
    let landed = event_verdict-success event.kind wait event h in
    (
      λ e.
          let (open_wait, succeeds) = gated-success _ _ e in
          let (provider, waiting) =
            and-true (is_text wait.provider merge_wait_provider)
              (is_text wait.status (text "waiting")) open_wait in
          (provider, waiting, landed.0 succeeds),
      λ (provider, waiting, there). rw (provider, waiting) (landed.1 there),
    )

decimal_text-truthy : (n : ℕ) → truthy (some (decimal_text n)) ≡ true
unfolding decimal_text decimal_digits decimal_from
decimal_text-truthy n = go (decimal_text n) refl
  where
    go : (digits : Text) → decimal_text n ≡ digits → truthy (some digits) ≡ true
    go (c ∷ digits) e = refl
    go [] e =
        let zero_number : n ≡ 0 = sym (decimal_from-decimal_text n) ∙ ap (decimal_from 0) e in
        let empty_zero : decimal_text 0 ≡ [] = subst (λ m. decimal_text m ≡ []) zero_number e in
        ground arith

-- The event's pull request is the one that the wait was parked on.
pub landed-number :
    (kind : EventKind) (wait : MergeWaitFacts) (event : MergeEventFacts) (n : ℕ)
    → kind ≡ pull_request
    → HasLanded kind wait event
    → wait.external_id ≡ some (decimal_text n)
    → event.pull_request_number ≡ some n
landed-number push wait event n k h e = ground arith
landed-number pull_request wait event n k (_, _, _, _, named) e =
    names_number-eq n event.pull_request_number (
      subst (λ o. truthy o ≡ true → names_number o event.pull_request_number ≡ true) e named
        (decimal_text-truthy n))
