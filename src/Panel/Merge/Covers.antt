-- ===== src/Panel/Merge/Covers.antt =====
-- `mergeFindings` loses no finding and softens none.
use megacorps.Prelude.{
  ℕ, ◌≤◌, ◌≡◌, refl, sym, ◌∙◌, ap, Bool, true, some, List, [], ◌∷◌, arith, Any, All-Any, Any-All,
  Any-map, All-of_all, map, contains, contains-append, contains-unique, Bool-cases, inl, inr, ◌⊎◌,
  Text, text_eq, text_eq→≡, to_upper, trim,
}
use megacorps.Panel.Findings.{FindingRow, FindingSeverity, p0, p1, p2, normalize_severity}
use megacorps.Panel.Merge.{
  Group, members, MergedFinding, severity_text, rank_of, id_list, reviewers_of, other_keys,
  primary_of, merge_group, place_of, group_from, merged_before, merge_findings,
}
use megacorps.Panel.Merge.Sort.{Any-sort_from, Ascends, Ascends-sort_from}
use megacorps.Panel.Merge.Keeps.{
  IsIn, Holds, IsPlaced, primary-IsIn, primary-least, group_from-Holds, group_from-IsPlaced,
}

-- The severity that a merged finding shows is read back as itself.
normalize-severity_text : (s : FindingSeverity) → normalize_severity (some (severity_text s)) ≡ s
unfolding normalize_severity to_upper trim
normalize-severity_text p0 = refl
normalize-severity_text p1 = refl
normalize-severity_text p2 = refl

reviewers_of-IsIn :
    (r : FindingRow) (rows : List FindingRow) {id : ℕ}
    → IsIn r rows
    → r.reviewer_id ≡ some id
    → contains (reviewers_of rows) id ≡ true
unfolding reviewers_of
reviewers_of-IsIn r [] h e = absurd h
reviewers_of-IsIn r (x ∷ rows) {id} (inl same) e = ground (
  arith,
  ap (λ (y : FindingRow). y.reviewer_id) same,
  contains-append (id_list x.reviewer_id) (reviewers_of rows) id,
)
reviewers_of-IsIn r (x ∷ rows) {id} (inr h) e = ground (
  arith,
  reviewers_of-IsIn r rows h e,
  contains-append (id_list x.reviewer_id) (reviewers_of rows) id,
)

other_keys-IsIn :
    (key : Text) (r : FindingRow) (rows : List FindingRow)
    → IsIn r rows
    → (r.key ≡ key) ⊎ Any (λ k. k ≡ r.key) (other_keys key rows)
unfolding other_keys
other_keys-IsIn key r [] h = absurd h
other_keys-IsIn key r (x ∷ rows) (inl same) = elim (Bool-cases (text_eq x.key key)) [
  | inl e ↦ inl (ground (arith, text_eq→≡ x.key key e, ap (λ (y : FindingRow). y.key) same))
  | inr e ↦ rw e (inr (inl (ap (λ (y : FindingRow). y.key) same)))
]
other_keys-IsIn key r (x ∷ rows) (inr h) = elim (Bool-cases (text_eq x.key key)) [
  | inl e ↦ rw e (other_keys-IsIn key r rows h)
  | inr e ↦ rw e (elim (other_keys-IsIn key r rows h) [ inl same ↦ inl same | inr a ↦ inr (inr a) ])
]

module _ (is_word : ℕ → Bool) (key_before : Text → Text → Bool) where
  -- A merged finding that stands for a reviewer's row: the same place, at least as harsh, the row's
  -- key among its keys, its reviewer credited, and flagged for reassignment only if the row was.
  pub record Covers (r : FindingRow) (m : MergedFinding) : Type 0 where
    pub place : place_of is_word key_before m.row ≡ place_of is_word key_before r
    pub harsh : rank_of m.row ≤ rank_of r
    pub keyed : (r.key ≡ m.row.key) ⊎ Any (λ k. k ≡ r.key) m.merged_keys
    pub credited : (id : ℕ) → r.reviewer_id ≡ some id → contains m.reviewer_ids id ≡ true
    pub flagged : m.row.reassign ≡ true → r.reassign ≡ true

  merge_group-Covers :
      (r : FindingRow) (g : Group)
      → IsPlaced is_word key_before g
      → Holds r g
      → Covers r (merge_group g)
  unfolding merge_group place_of
  merge_group-Covers r g placed held = record {
    place =
        All-Any (λ x. place_of is_word key_before x ≡ g.place) (λ x. x ≡ primary_of g) (members g)
          placed (primary-IsIn g)
          (λ x at_place same. ap (place_of is_word key_before) (sym same) ∙ at_place)
        ∙ sym (
            All-Any (λ x. place_of is_word key_before x ≡ g.place) (λ x. x ≡ r) (members g) placed
              held (λ x at_place same. ap (place_of is_word key_before) (sym same) ∙ at_place));
    harsh = rw normalize-severity_text (primary-least g r held);
    keyed = other_keys-IsIn (primary_of g).key r (members g) held;
    credited = λ id e.
        contains-unique (reviewers_of (members g)) id ∙ reviewers_of-IsIn r (members g) held e;
    flagged = λ e.
        All-Any (λ x. x.reassign ≡ true) (λ x. x ≡ r) (members g) (All-of_all _ (members g) e) held
          (λ x h same. sym (ap (λ (y : FindingRow). y.reassign) same) ∙ h);
  }

  -- Merging loses no finding: each row that a reviewer filed is covered by a merged finding at the
  -- same place, which is at least as harsh, holds the row's key as its own or among the merged
  -- keys, credits the row's reviewer, and asks for reassignment only if the row does.
  pub merge_findings-Covers :
      (rows : List FindingRow) (r : FindingRow)
      → IsIn r rows
      → Any (Covers r) (merge_findings is_word key_before rows)
  unfolding merge_findings
  merge_findings-Covers rows r h =
      Any-sort_from _ (Covers r) [] _ (inr (Any-map (Covers r) merge_group groups covered))
    where
      groups : List Group
      groups = group_from is_word key_before [] rows

      covered : Any (λ g. Covers r (merge_group g)) groups
      covered =
          Any-All (IsPlaced is_word key_before) (Holds r) _ groups
            (group_from-IsPlaced is_word key_before [] rows tt)
            (group_from-Holds is_word key_before r [] rows (inr h)) (merge_group-Covers r)

  -- The merged findings stand in order of severity, the harshest first.
  merge_findings-Ascends :
      (rows : List FindingRow)
      → Ascends (λ m. rank_of m.row) (merge_findings is_word key_before rows)
  unfolding merge_findings
  merge_findings-Ascends rows =
      Ascends-sort_from (λ m. rank_of m.row) (merged_before is_word key_before)
        (λ x y e. ground arith) (λ x y e. ground arith) []
        (map merge_group (group_from is_word key_before [] rows)) tt
