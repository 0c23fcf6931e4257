-- ===== src/Panel/Compose.antt =====
-- review-panel.ts: `panelRequired` and `composeReviewPanel`.
mod Rule
pub mod Members
pub mod Total
use megacorps.Prelude.{
  ℕ, zero, suc, ◌≡◌, refl, Bool, true, false, Option, none, some, List, [], ◌∷◌, ◌++◌, ◌&&◌, ◌||◌,
  not, if◌then◌else◌, get_or, is_some, leb, ◌==◌, same, length, contains, find, Text, text, text_eq,
  trim, to_lower,
}
use megacorps.Panel.Findings.{panel_size, is_text}

unfoldable pub panel_required : Option Text → Option Bool → Option Text → Bool
panel_required review_mode critical company_default =
    let setting = get_or company_default (text "critical_only") in
    if is_text review_mode (text "panel")
    then true
    else if text_eq setting (text "always")
    then true
    else if text_eq setting (text "critical_only")
    then get_or critical false
    else false

pub record PanelAgent : Type 0 where
  pub id : ℕ
  pub is_active : Option Bool
  pub department_id : Option ℕ
  pub boss_id : Option ℕ
  pub position_id : Option ℕ

pub record PanelPosition : Type 0 where
  pub id : ℕ
  pub review_domain : Option Text
  pub is_company_boss : Option Bool

pub record PanelDepartment : Type 0 where
  pub id : ℕ
  pub head_agent_id : Option ℕ

pub record PanelInput : Type 0 where
  pub author_id : Option ℕ
  pub explicit_reviewer_ids : List ℕ
  pub agents : List PanelAgent
  pub positions : List PanelPosition
  pub departments : List PanelDepartment
  pub card_domain : Option Text
  pub size : Option ℕ

pub data SeatStep : Type 0 where
  explicit department_head same_department_domain cross_department_domain boss_chain : SeatStep

pub record PanelComposition : Type 0 where
  pub reviewer_ids : List ℕ
  pub degraded : Bool
  pub steps : List (SeatStep × ℕ)

-- `new Map(rows.map((row) => [row.id, row])).get(id)`: a later row replaces an earlier one.
unfoldable pub agent_by_id : List PanelAgent → ℕ → Option PanelAgent
agent_by_id [] id = none
agent_by_id (a ∷ rest) id = elim (agent_by_id rest id) [
  | none ↦ if a.id == id then some a else none
  | some later ↦ some later
]

unfoldable pub position_by_id : List PanelPosition → ℕ → Option PanelPosition
position_by_id [] id = none
position_by_id (p ∷ rest) id = elim (position_by_id rest id) [
  | none ↦ if p.id == id then some p else none
  | some later ↦ some later
]

-- `value?.trim().toLowerCase() || null`.
unfoldable pub domain_text : Option Text → Option Text
domain_text none = none
domain_text (some t) = elim (to_lower (trim t)) [ [] ↦ none | c ∷ s ↦ some (c ∷ s) ]

-- `!== false`.
abbrev pub not_false : Option Bool → Bool
not_false (some false) = false
not_false _ = true

abbrev pub bind_option {ℓ κ} : {A : Type ℓ} {B : Type κ} → Option A → (A → Option B) → Option B
bind_option none f = none
bind_option (some a) f = f a

abbrev same_domain : Option Text → Text → Bool
same_domain none d = false
same_domain (some t) d = text_eq t d

-- What the closures of the function share.
pub record Seats : Type 0 where
  pub chosen : List ℕ
  pub steps : List (SeatStep × ℕ)

module _ (input : PanelInput) where
  unfoldable pub seat_count : ℕ
  seat_count = let n = get_or input.size panel_size in if leb 1 n then n else 1

  unfoldable pub domain_of : PanelAgent → Option Text
  domain_of agent = bind_option agent.position_id (λ p.
      bind_option (position_by_id input.positions p)
        (λ position. domain_text position.review_domain))

  unfoldable pub is_company_boss : PanelAgent → Bool
  is_company_boss agent =
      get_or
        (bind_option agent.position_id (λ p.
          bind_option (position_by_id input.positions p) (λ position. position.is_company_boss)))
        false

  unfoldable pub eligible : PanelAgent → Bool
  eligible agent =
      not_false agent.is_active
      && (not (same (some agent.id) input.author_id) && not (is_company_boss agent))

  unfoldable pub take_seat : Option PanelAgent → SeatStep → Seats → Seats
  take_seat none step s = s
  take_seat (some agent) step s =
      if leb seat_count (length s.chosen) || (not (eligible agent) || contains s.chosen agent.id)
      then s
      else record { chosen = s.chosen ++ agent.id ∷ []; steps = s.steps ++ (step, agent.id) ∷ [] }

  unfoldable pub take_explicit : List ℕ → Seats → Seats
  take_explicit [] s = s
  take_explicit (id ∷ rest) s =
      take_explicit rest (take_seat (agent_by_id input.agents id) explicit s)

  -- A loop over the agents that takes those that a test accepts.
  unfoldable pub take_matching : (PanelAgent → Bool) → SeatStep → List PanelAgent → Seats → Seats
  take_matching test step [] s = s
  take_matching test step (agent ∷ rest) s =
      take_matching test step rest (if test agent then take_seat (some agent) step s else s)

  unfoldable pub author_of : Option PanelAgent
  author_of = bind_option input.author_id (agent_by_id input.agents)

  unfoldable pub author_department : Option ℕ
  author_department = bind_option author_of (λ a. a.department_id)

  unfoldable pub head_seat : Seats → Seats
  head_seat s =
      let department =
        bind_option author_department
          (λ id. find (λ (d : PanelDepartment). d.id == id) input.departments) in
      let head = bind_option department (λ d. d.head_agent_id) in
      take_seat (bind_option head (agent_by_id input.agents)) department_head s

  abbrev in_department : Option ℕ → PanelAgent → Bool
  in_department none agent = false
  in_department (some d) agent = same agent.department_id (some d)

  unfoldable pub seats_in : Option Text → Seats → Seats
  seats_in none s = s
  seats_in (some d) s =
      take_matching (λ a. same_domain (domain_of a) d) cross_department_domain input.agents
        (take_matching (λ a. in_department author_department a && same_domain (domain_of a) d)
          same_department_domain input.agents s)

  abbrev pub domain_seats : Seats → Seats
  domain_seats s = seats_in (domain_text input.card_domain) s

  abbrev pub boss_of : ℕ → Option ℕ
  boss_of id = bind_option (agent_by_id input.agents id) (λ a. a.boss_id)

  -- The `while` loop along the boss chain; `none` when the fuel runs out.
  unfoldable pub boss_seats : ℕ → List ℕ → Option ℕ → Seats → Option Seats
  boss_seats fuel visited none s = some s
  boss_seats zero visited (some cursor) s = none
  boss_seats (suc fuel) visited (some cursor) s =
      let rest =
        boss_seats fuel (cursor ∷ visited) (boss_of cursor)
          (take_seat (agent_by_id input.agents cursor) boss_chain s) in
      if contains visited cursor || leb seat_count (length s.chosen) then some s else rest

  abbrev pub no_seats : Seats
  no_seats = record { chosen = []; steps = [] }

  abbrev pub composition : Seats → PanelComposition
  composition s = record {
    reviewer_ids = s.chosen;
    degraded = length s.chosen == 1;
    steps = s.steps;
  }

  -- The seats taken before the boss chain.
  unfoldable pub first_seats : Seats
  first_seats = domain_seats (head_seat (take_explicit input.explicit_reviewer_ids no_seats))

  unfoldable pub compose_review_panel : Option PanelComposition
  compose_review_panel =
      bind_option
        (boss_seats (suc (suc (length input.agents))) [] (bind_option author_of (λ a. a.boss_id))
          first_seats)
        (λ s. some (composition s))
