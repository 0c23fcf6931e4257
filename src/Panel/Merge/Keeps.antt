-- ===== src/Panel/Merge/Keeps.antt =====
-- What `mergeFindings` keeps of the findings of the independent reviewers.
use megacorps.Prelude.{
  ℕ, ◌≤◌, ◌≡◌, refl, sym, subst, Bool, true, List, [], ◌∷◌, arith, Any, All, All-Any,
  Any-append_left, Any-append_right, All-append, Bool-cases, inl, inr, ◌⊎◌, Text, text_eq→≡,
}
use megacorps.Panel.Findings.{FindingRow}
use megacorps.Panel.Merge.{
  Place, place_eq, Group, members, rank_of, rank_before, head_or, primary_of, add_to_groups,
  place_of, group_from,
}
use megacorps.Panel.Merge.Sort.{Any-sort_from, All-sort_from, Ascends, Ascends-sort_from}

abbrev pub IsIn : FindingRow → List FindingRow → Type 0
IsIn r rows = Any (λ x. x ≡ r) rows

place_eq→≡ : (p q : Place) → place_eq p q ≡ true → p ≡ q
unfolding place_eq
place_eq→≡ p q h = ground (arith, text_eq→≡ p.file q.file, text_eq→≡ p.title q.title)

-- The primary row of a group is one of its rows, and none is harsher.
head-IsIn :
    (d : FindingRow) (l : List FindingRow) (rows : List FindingRow)
    → IsIn d rows
    → All (λ x. IsIn x rows) l
    → IsIn (head_or d l) rows
head-IsIn d [] rows h k = h
head-IsIn d (x ∷ l) rows h k = k.0

All-IsIn_tail :
    (x : FindingRow) (rows l : List FindingRow)
    → All (λ r. IsIn r rows) l
    → All (λ r. IsIn r (x ∷ rows)) l
All-IsIn_tail x rows [] h = tt
All-IsIn_tail x rows (y ∷ l) h = (inr h.0, All-IsIn_tail x rows l h.1)

All-IsIn_self : (rows : List FindingRow) → All (λ r. IsIn r rows) rows
All-IsIn_self [] = tt
All-IsIn_self (x ∷ rows) = (inl refl, All-IsIn_tail x rows rows (All-IsIn_self rows))

pub primary-IsIn : (g : Group) → IsIn (primary_of g) (members g)
unfolding primary_of
primary-IsIn g = head-IsIn g.first _ (members g) (inl refl) (
    All-sort_from rank_before (λ x. IsIn x (members g)) [] (members g) tt
      (All-IsIn_self (members g)))

head-least :
    (d r : FindingRow) (l : List FindingRow)
    → Ascends rank_of l
    → IsIn r l
    → rank_of (head_or d l) ≤ rank_of r
head-least d r [] h a = absurd a
head-least d r (x ∷ l) h (inl e) = rw e (omega arith)
head-least d r (x ∷ l) h (inr a) =
    All-Any (λ y. rank_of x ≤ rank_of y) (λ y. y ≡ r) l h.0 a (λ y le e. rw e at le)

pub primary-least :
    (g : Group) (r : FindingRow) → IsIn r (members g) → rank_of (primary_of g) ≤ rank_of r
unfolding primary_of
primary-least g r h =
    head-least g.first r _
      (Ascends-sort_from rank_of rank_before (λ x y e. ground arith) (λ x y e. ground arith) []
        (members g) tt)
      (Any-sort_from rank_before (λ x. x ≡ r) [] (members g) (inr h))

-- Every row that is grouped stands in a group, and a group's rows share its place.
abbrev pub Holds : FindingRow → Group → Type 0
Holds r g = IsIn r (members g)

module _ (is_word : ℕ → Bool) (key_before : Text → Text → Bool) where
  abbrev pub IsPlaced : Group → Type 0
  IsPlaced g = All (λ r. place_of is_word key_before r ≡ g.place) (members g)

  add-Holds_old :
      (r row : FindingRow) (p : Place) (gs : List Group)
      → Any (Holds r) gs
      → Any (Holds r) (add_to_groups p row gs)
  unfolding add_to_groups
  add-Holds_old r row p [] h = absurd h
  add-Holds_old r row p (g ∷ gs) h = elim (Bool-cases (place_eq g.place p)) [
    | inl e ↦ rw e (elim h [
      | inl (inl first) ↦ inl (inl first)
      | inl (inr member) ↦ inl (inr (Any-append_left (λ x. x ≡ r) g.rest (row ∷ []) member))
      | inr later ↦ inr later
    ])
    | inr e ↦
        rw e (elim h [ inl here ↦ inl here | inr later ↦ inr (add-Holds_old r row p gs later) ])
  ]

  add-Holds_new :
      (row : FindingRow) (p : Place) (gs : List Group) → Any (Holds row) (add_to_groups p row gs)
  unfolding add_to_groups
  add-Holds_new row p [] = inl (inl refl)
  add-Holds_new row p (g ∷ gs) = elim (Bool-cases (place_eq g.place p)) [
    | inl e ↦ rw e (inl (inr (Any-append_right (λ x. x ≡ row) g.rest (row ∷ []) (inl refl))))
    | inr e ↦ rw e (inr (add-Holds_new row p gs))
  ]

  pub group_from-Holds :
      (r : FindingRow) (gs : List Group) (rows : List FindingRow)
      → Any (Holds r) gs ⊎ IsIn r rows
      → Any (Holds r) (group_from is_word key_before gs rows)
  unfolding group_from
  group_from-Holds r gs [] (inl h) = h
  group_from-Holds r gs [] (inr h) = absurd h
  group_from-Holds r gs (row ∷ rows) (inl h) =
      group_from-Holds r _ rows (inl (add-Holds_old r row _ gs h))
  group_from-Holds r gs (row ∷ rows) (inr (inl e)) =
      group_from-Holds r (add_to_groups (place_of is_word key_before row) row gs) rows (
        inl (
          subst (λ x. Any (Holds x) (add_to_groups (place_of is_word key_before row) row gs)) e
            (add-Holds_new row (place_of is_word key_before row) gs)))
  group_from-Holds r gs (row ∷ rows) (inr (inr h)) = group_from-Holds r _ rows (inr h)

  add-IsPlaced :
      (row : FindingRow) (gs : List Group)
      → All IsPlaced gs
      → All IsPlaced (add_to_groups (place_of is_word key_before row) row gs)
  unfolding add_to_groups
  add-IsPlaced row [] h = ((refl, tt), tt)
  add-IsPlaced row (g ∷ gs) h =
      elim (Bool-cases (place_eq g.place (place_of is_word key_before row))) [
        | inl e ↦
            rw e ((h.0.0, All-append _ g.rest (row ∷ []) h.0.1 (sym (place_eq→≡ _ _ e), tt)), h.1)
        | inr e ↦ rw e (h.0, add-IsPlaced row gs h.1)
      ]

  pub group_from-IsPlaced :
      (gs : List Group) (rows : List FindingRow)
      → All IsPlaced gs
      → All IsPlaced (group_from is_word key_before gs rows)
  unfolding group_from
  group_from-IsPlaced gs [] h = h
  group_from-IsPlaced gs (row ∷ rows) h =
      group_from-IsPlaced (add_to_groups (place_of is_word key_before row) row gs) rows
        (add-IsPlaced row gs h)
