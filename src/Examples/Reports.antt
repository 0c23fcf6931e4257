-- ===== src/Examples/Reports.antt =====
-- Two reports of one defect, merged.
use megacorps.Prelude.{
  ℕ, Bool, some, [], ◌∷◌, refl, inl, inr, leb, ltb, ◌&&◌, Text, text, Any, length,
}
use megacorps.Panel.Findings.{FindingRow}
use megacorps.Panel.Merge.{merge_findings}
use megacorps.Panel.Merge.Covers.{Covers, merge_findings-Covers}
use megacorps.Examples.Reviews.{leak}

abbrev letter : ℕ → Bool
letter c = leb 97 c && leb c 122

abbrev shorter : Text → Text → Bool
shorter a b = ltb (length a) (length b)

abbrev same_leak : FindingRow
same_leak = record leak {
  key = text "G12";
  reviewer_id = some 2;
  severity = text "P0";
  file = some (text "src/pool.ts");
  title = text "connection  leak!";
}

merge_findings-Covers_example :
    Any (Covers letter shorter same_leak) (merge_findings letter shorter (leak ∷ same_leak ∷ []))
merge_findings-Covers_example =
    merge_findings-Covers letter shorter (leak ∷ same_leak ∷ []) same_leak (inr (inl refl))
