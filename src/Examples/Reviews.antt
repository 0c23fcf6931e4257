-- ===== src/Examples/Reviews.antt =====
-- Concrete panels and review rounds.
use megacorps.Prelude.{
  ℕ, ◌≤◌, ◌<◌, true, false, none, some, List, [], ◌∷◌, ◌≡◌, ◌≢◌, ◌↔◌, ◌⊎◌, refl, length, IsDistinct,
  text, All,
}
use megacorps.Panel.Findings.{FindingRow, approve, verified, adopted}
use megacorps.Panel.Compose.{
  PanelAgent, PanelInput, PanelComposition, SeatStep, agent_by_id, eligible, seat_count,
  compose_review_panel, position_by_id, is_company_boss, take_seat, take_explicit, first_seats,
  domain_text, author_department, not_false, head_seat, seats_in, boss_seats, author_of,
}
use megacorps.Panel.Compose.Members.{IsReviewer, compose_review_panel-IsSeated}
use megacorps.Panel.Compose.Total.{compose_review_panel_total}
use megacorps.Panel.Rounds.{
  VerificationInput, DispositionInput, verification_decision, disposition_errors, FixOwnerAgent,
  next_fix_owner, with_id, boss_id_of, takeover_trigger,
}
use megacorps.Panel.Rounds.Decisions.{
  IsSettled, IsFlagged, verification_decision-approve, next_fix_owner-some, takeover_trigger-none,
}
use megacorps.Panel.Rounds.Answers.{IsAnswered, disposition_errors-nil}

abbrev author : PanelAgent
author = record {
  id = 1;
  is_active = some true;
  department_id = some 5;
  boss_id = some 2;
  position_id = none;
}

abbrev colleague : PanelAgent
colleague = record {
  id = 3;
  is_active = some true;
  department_id = some 5;
  boss_id = some 2;
  position_id = none;
}

-- The author's boss reports to the author: the chart has a cycle.
abbrev lead : PanelAgent
lead = record {
  id = 2;
  is_active = none;
  department_id = some 5;
  boss_id = some 1;
  position_id = none;
}

abbrev team : PanelInput
team = record {
  author_id = some 1;
  explicit_reviewer_ids = 3 ∷ [];
  agents = author ∷ lead ∷ colleague ∷ [];
  positions = [];
  departments = [];
  card_domain = none;
  size = none;
}

abbrev team_panel : PanelComposition
team_panel = record {
  reviewer_ids = 3 ∷ 2 ∷ [];
  degraded = false;
  steps = (SeatStep.explicit, 3) ∷ (SeatStep.boss_chain, 2) ∷ [];
}

team_is_seated : compose_review_panel team ≡ some team_panel
unfolding compose_review_panel agent_by_id eligible seat_count position_by_id is_company_boss
    take_seat take_explicit first_seats head_seat seats_in boss_seats author_of domain_text
    author_department
team_is_seated = refl

compose_review_panel-IsSeated_example :
    All (IsReviewer team) (3 ∷ 2 ∷ [])
    × IsDistinct (3 ∷ 2 ∷ [])
    × (length team_panel.reviewer_ids ≤ seat_count team)
    × ((false ≡ true) ↔ (length team_panel.reviewer_ids ≡ 1))
compose_review_panel-IsSeated_example = compose_review_panel-IsSeated team team_panel team_is_seated

compose_review_panel_total_example : (c : PanelComposition) × (compose_review_panel team ≡ some c)
compose_review_panel_total_example = compose_review_panel_total team

abbrev pub leak : FindingRow
leak = record {
  key = text "F1";
  reviewer_id = some 3;
  severity = text "P1";
  file = some (text "./src/pool.ts");
  line = some 40;
  title = text "Connection leak";
  evidence = text "no release on error";
  required_fix = text "release in finally";
  reassign = false;
  disposition = some (text "adopted");
  verification = none;
  verification_note = none;
  disposition_reason = none;
  merged_into = none;
  code_evidence = none;
  test_evidence = none;
}

abbrev leak_verified : List VerificationInput
leak_verified = record { finding_key = text "f1"; status = verified; note = none } ∷ []

verification_decision-approve_example :
    (verification_decision (leak ∷ []) leak_verified ≡ (approve, []))
    ↔ All (IsSettled leak_verified) (leak ∷ [])
verification_decision-approve_example = verification_decision-approve (leak ∷ []) leak_verified

abbrev leak_adopted : List DispositionInput
leak_adopted =
    record {
      finding_key = text "F1";
      disposition = adopted;
      reason = none;
      merged_into = none;
      code_evidence = none;
      test_evidence = none;
    }
    ∷ []

disposition_errors-nil_example :
    (disposition_errors (leak ∷ []) leak_adopted ≡ [])
    ↔ All (λ f. IsAnswered (leak ∷ []) f leak_adopted) (leak ∷ [])
disposition_errors-nil_example = disposition_errors-nil (leak ∷ []) leak_adopted

abbrev worker : FixOwnerAgent
worker = record { id = 1; boss_id = some 2; is_active = none; is_company_boss = false }

abbrev chief : FixOwnerAgent
chief = record { id = 2; boss_id = none; is_active = none; is_company_boss = false }

next_fix_owner-some_example :
    (boss : FixOwnerAgent) × (boss.id ≡ 2)
    × (with_id (worker ∷ chief ∷ []) (boss_id_of (with_id (worker ∷ chief ∷ []) (some 1)))
        ≡ some boss)
    × (not_false boss.is_active ≡ true)
    × (boss.is_company_boss ≡ false)
    × (chief.id ≢ 1)
    × (some chief.id ≢ some 1)
unfolding next_fix_owner
next_fix_owner-some_example = next_fix_owner-some 1 (worker ∷ chief ∷ []) (some 2) 2 refl

abbrev three : ℕ
three = 3

takeover_trigger-none_example :
    (takeover_trigger false 2 3
        (record { severity = text "P0"; reassign = true; reassigned_by = 3 ∷ [] } ∷ [])
        (2 ∷ 3 ∷ [])
      ≡ none)
    ↔ ((false ≡ false)
        × ((three ≡ 0) ⊎ (2 < three))
        × All
            (λ f. ¬ IsFlagged (2 ∷ 3 ∷ []) f)
            (record { severity = text "P0"; reassign = true; reassigned_by = 3 ∷ [] } ∷ []))
takeover_trigger-none_example =
    takeover_trigger-none false 2 3
      (record { severity = text "P0"; reassign = true; reassigned_by = 3 ∷ [] } ∷ []) (2 ∷ 3 ∷ [])
