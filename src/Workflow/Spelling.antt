-- ===== src/Workflow/Spelling.antt =====
-- `normalizeCardStatus` reads what the columns store.
use megacorps.Prelude.{
  List, [], ◌∷◌, some, ◌≡◌, refl, sym, arith, inl, inr, ◌⊎◌, ◌↔◌, Text, text, text_eq, text_eq→≡,
  Bool-cases,
}
use megacorps.Workflow.Status.{CardStatus, todo, card_statuses}
use megacorps.Workflow.Transition.{status_text, spelled, normalize_card_status}

spelled_sound :
    (ss : List CardStatus) (v : Text) {s : CardStatus} → spelled ss v ≡ some s → status_text s ≡ v
unfolding spelled
spelled_sound [] v h = ground arith
spelled_sound (t ∷ ss) v {s} h = elim (Bool-cases (text_eq (status_text t) v)) [
  | inl e ↦ ground (arith, text_eq→≡ (status_text t) v e)
  | inr e ↦ spelled_sound ss v (rw e at h)
]

-- A stored status is read back as itself.
pub normalize-status_text : (s : CardStatus) → normalize_card_status (some (status_text s)) ≡ some s
unfolding normalize_card_status
normalize-status_text todo = refl
normalize-status_text _ = refl

backlog_alias : normalize_card_status (some (text "backlog")) ≡ some todo
unfolding normalize_card_status
backlog_alias = refl

normalize_sound :
    (v : Text) (s : CardStatus)
    → normalize_card_status (some v) ≡ some s
    → (v ≡ status_text s) ⊎ ((v ≡ text "backlog") × (s ≡ todo))
unfolding normalize_card_status
normalize_sound [] s h = ground arith
normalize_sound (c ∷ t) s h = elim (Bool-cases (text_eq (c ∷ t) (text "backlog"))) [
  | inl alias ↦ let first : s ≡ todo = ground arith in inr (text_eq→≡ (c ∷ t) _ alias, first)
  | inr other ↦ inl (sym (spelled_sound card_statuses (c ∷ t) (rw other at h)))
]

-- What is read as a status is that status's spelling, or the legacy alias "backlog" of `todo`;
-- and both are read so.
pub normalize-eq-some_iff :
    (v : Text) (s : CardStatus)
    → (normalize_card_status (some v) ≡ some s)
      ↔ ((v ≡ status_text s) ⊎ ((v ≡ text "backlog") × (s ≡ todo)))
normalize-eq-some_iff v s = (
  normalize_sound v s,
  λ read. elim read [
    | inl same ↦ rw same (normalize-status_text s)
    | inr (alias, first) ↦ rw (alias, first) backlog_alias
  ],
)
