-- ===== src/Panel/Merge.antt =====
-- review-panel.ts: `mergeFindings`. Which characters `\p{L}\p{N}` matches and how `localeCompare`
-- orders two keys are parameters: they are tables of the platform.
pub mod Sort
mod Keeps
pub mod Covers
use megacorps.Prelude.{
  ℕ, ◌+◌, ◌≡◌, refl, Bool, true, false, Option, none, some, List, [], ◌∷◌, ◌++◌, ◌&&◌, ◌||◌, not,
  map, is_space, if◌then◌else◌, get_or, ltb, ◌==◌, all, keep, unique, Text, text, text_eq, trim,
  to_lower,
}
use megacorps.Panel.Findings.{
  FindingRow, FindingSeverity, p0, p1, p2, severity_rank, normalize_severity,
}

-- `[...rows].sort(compare)`, stable: an element stands behind its equals.
module _ {ℓ} {A : Type ℓ} (before : A → A → Bool) where
  unfoldable pub insert_sorted : A → List A → List A
  insert_sorted x [] = x ∷ []
  insert_sorted x (y ∷ ys) =
      let rest = y ∷ insert_sorted x ys in if before x y then x ∷ y ∷ ys else rest

  unfoldable pub sort_from : List A → List A → List A
  sort_from done [] = done
  sort_from done (x ∷ xs) = sort_from (insert_sorted x done) xs

-- `normalizeFile`: trim, `\` to `/`, drop one leading `./`, lower case.
unfoldable pub slashes : Text → Text
slashes [] = []
slashes (c ∷ s) = (if c == 92 then 47 else c) ∷ slashes s

abbrev pub drop_dot_slash : Text → Text
drop_dot_slash [] = []
drop_dot_slash (a ∷ []) = a ∷ []
drop_dot_slash (a ∷ b ∷ s) = if a == 46 && b == 47 then s else a ∷ b ∷ s

unfoldable pub normalize_file : Option Text → Text
unfolding slashes
normalize_file file = to_lower (drop_dot_slash (slashes (trim (get_or file []))))

-- The place that a finding points at: file, line and normalized title.
pub record Place : Type 0 where
  pub file : Text
  pub line : Option ℕ
  pub title : Text

abbrev line_eq : Option ℕ → Option ℕ → Bool
line_eq none none = true
line_eq (some a) (some b) = a == b
line_eq _ _ = false

unfoldable pub place_eq : Place → Place → Bool
place_eq p q = text_eq p.file q.file && (line_eq p.line q.line && text_eq p.title q.title)

-- `{ ...primary, severity, reassign }` with what the group adds.
pub record MergedFinding : Type 0 where
  pub row : FindingRow
  pub reviewer_ids : List ℕ
  pub merged_keys : List Text
  pub reassigned_by : List ℕ

abbrev pub severity_text : FindingSeverity → Text
severity_text p0 = text "P0"
severity_text p1 = text "P1"
severity_text p2 = text "P2"

abbrev pub rank_of : FindingRow → ℕ
rank_of r = severity_rank (normalize_severity (some r.severity))

abbrev pub id_list : Option ℕ → List ℕ
id_list none = []
id_list (some id) = id ∷ []

unfoldable pub reviewers_of : List FindingRow → List ℕ
reviewers_of [] = []
reviewers_of (r ∷ rs) = id_list r.reviewer_id ++ reviewers_of rs

unfoldable pub flaggers_of : List FindingRow → List ℕ
flaggers_of [] = []
flaggers_of (r ∷ rs) = (if r.reassign then id_list r.reviewer_id else []) ++ flaggers_of rs

unfoldable pub other_keys : Text → List FindingRow → List Text
other_keys key [] = []
other_keys key (r ∷ rs) =
    let rest = other_keys key rs in if text_eq r.key key then rest else r.key ∷ rest

-- The rows at one place, in their order; a group of the map is never empty.
pub record Group : Type 0 where
  pub place : Place
  pub first : FindingRow
  pub rest : List FindingRow

abbrev pub members : Group → List FindingRow
members g = g.first ∷ g.rest

abbrev pub rank_before : FindingRow → FindingRow → Bool
rank_before a b = ltb (rank_of a) (rank_of b)

abbrev head_or : FindingRow → List FindingRow → FindingRow
head_or d [] = d
head_or d (x ∷ xs) = x

unfoldable pub primary_of : Group → FindingRow
unfolding sort_from
primary_of g = head_or g.first (sort_from rank_before [] (members g))

unfoldable pub merge_group : Group → MergedFinding
unfolding primary_of other_keys
merge_group g =
    let primary = primary_of g in
    record {
      row = record primary {
        severity = severity_text (normalize_severity (some primary.severity));
        reassign = all (λ r. r.reassign) (members g);
      };
      reviewer_ids = unique (reviewers_of (members g));
      merged_keys = other_keys primary.key (members g);
      reassigned_by = unique (flaggers_of (members g));
    }

-- `groups.get(key) ?? []`, then `push` and `set`.
unfoldable pub add_to_groups : Place → FindingRow → List Group → List Group
add_to_groups place row [] = record { place = place; first = row; rest = [] } ∷ []
add_to_groups place row (g ∷ gs) =
    let later = g ∷ add_to_groups place row gs in
    if place_eq g.place place then record g { rest = g.rest ++ row ∷ [] } ∷ gs else later

-- `replace(/run+/g, ' ')`: each run of characters that pass the test becomes one space.
unfoldable pub replace_runs : (ℕ → Bool) → Bool → Text → Text
replace_runs in_run started [] = []
replace_runs in_run started (c ∷ s) =
    let plain = c ∷ replace_runs in_run false s in
    let more = replace_runs in_run true s in
    if in_run c then (if started then more else 32 ∷ more) else plain

module _ (is_word : ℕ → Bool) (key_before : Text → Text → Bool) where
  unfoldable pub normalize_title : Text → Text
  normalize_title title =
      trim
        (replace_runs is_space false (replace_runs (λ c. not (is_word c)) false (to_lower title)))

  unfoldable pub place_of : FindingRow → Place
  place_of row = record {
    file = normalize_file row.file;
    line = row.line;
    title = normalize_title row.title;
  }

  unfoldable pub group_from : List Group → List FindingRow → List Group
  group_from groups [] = groups
  group_from groups (row ∷ rows) = group_from (add_to_groups (place_of row) row groups) rows

  abbrev pub merged_before : MergedFinding → MergedFinding → Bool
  merged_before a b =
      rank_before a.row b.row || (rank_of a.row == rank_of b.row && key_before a.row.key b.row.key)

  unfoldable pub merge_findings : List FindingRow → List MergedFinding
  unfolding group_from sort_from
  merge_findings rows = sort_from merged_before [] (map merge_group (group_from [] rows))
