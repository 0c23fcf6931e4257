-- ===== src/Panel/Compose/Members.antt =====
-- Who sits on a panel that `composeReviewPanel` returns.
use megacorps.Prelude.{
  ℕ, ◌≡◌, ◌≤◌, ◌↔◌, refl, ap, sym, ◌∙◌, true, false, Option, none, some, List, [], ◌∷◌, ◌++◌, ◌||◌,
  not, arith, leb, same, length, length-append, contains, All, Any, IsDistinct, IsDistinct-snoc,
  Bool-cases, subst, Option-cases, inl, inr,
}
use mathlib.Core.List.{append_assoc}
use megacorps.Panel.Compose.Rule.{IsOnRoster, take_explicit-keeps, compose-keeps}
use megacorps.Panel.Compose.{
  PanelAgent, PanelInput, PanelComposition, SeatStep, Seats, agent_by_id, not_false,
  is_company_boss, eligible, seat_count, take_seat, take_explicit, no_seats, compose_review_panel,
}

-- An agent of the roster that may review the author's work.
pub record IsReviewer (input : PanelInput) (id : ℕ) : Type 0 where
  pub agent : PanelAgent
  pub on_roster : Any (λ a. a ≡ agent) input.agents
  pub named : agent.id ≡ id
  pub active : not_false agent.is_active ≡ true
  pub not_author : same (some id) input.author_id ≡ false
  pub not_boss : is_company_boss input agent ≡ false

pub record IsSeated (input : PanelInput) (s : Seats) : Type 0 where
  pub reviewers : All (IsReviewer input) s.chosen
  pub distinct : IsDistinct s.chosen
  pub bounded : length s.chosen ≤ seat_count input

module _ (input : PanelInput) where
  All-snoc :
      (ids : List ℕ) (id : ℕ)
      → All (IsReviewer input) ids
      → IsReviewer input id
      → All (IsReviewer input) (ids ++ id ∷ [])
  All-snoc [] id h r = (r, tt)
  All-snoc (x ∷ ids) id h r = (h.0, All-snoc ids id h.1 r)

  eligible-IsReviewer :
      (a : PanelAgent) → IsOnRoster input (some a) → eligible input a ≡ true → IsReviewer input a.id
  unfolding eligible
  eligible-IsReviewer a m h = record {
    agent = a;
    on_roster = m;
    named = refl;
    active = ground arith;
    not_author = ground arith;
    not_boss = ground arith;
  }

  take-IsSeated :
      (a : Option PanelAgent) (step : SeatStep) (s : Seats)
      → IsOnRoster input a
      → IsSeated input s
      → IsSeated input (take_seat input a step s)
  unfolding take_seat
  take-IsSeated none step s m h = h
  take-IsSeated (some a) step s m h =
      elim (Bool-cases (
        leb (seat_count input) (length s.chosen)
        || (not (eligible input a) || contains s.chosen a.id))) [
          | inl skip ↦ rw skip h
          | inr seat ↦ rw seat (record {
            reviewers = All-snoc s.chosen a.id h.reviewers (eligible-IsReviewer a m (ground arith));
            distinct = IsDistinct-snoc s.chosen a.id h.distinct (ground arith);
            bounded = ground (arith, length-append s.chosen (a.id ∷ []));
          })
        ]

no_seats-IsSeated : (input : PanelInput) → IsSeated input (no_seats input)
no_seats-IsSeated input = record { reviewers = tt; distinct = tt; bounded = omega arith }

-- The panel that is composed has at most the requested number of seats, two by default, no
-- reviewer twice, and each of them is an agent of the roster who is not inactive, is not the
-- author and holds no company-boss position; it is degraded exactly when one reviewer sits on it.
pub compose_review_panel-IsSeated :
    (input : PanelInput) (c : PanelComposition)
    → compose_review_panel input ≡ some c
    → All (IsReviewer input) c.reviewer_ids
      × IsDistinct c.reviewer_ids
      × (length c.reviewer_ids ≤ seat_count input)
      × ((c.degraded ≡ true) ↔ (length c.reviewer_ids ≡ 1))
compose_review_panel-IsSeated input c e =
    let named =
      take_explicit-keeps input (IsSeated input) (take-IsSeated input) input.explicit_reviewer_ids _
        (no_seats-IsSeated input) in
    let (s, same_composition, seated) =
      compose-keeps input (IsSeated input) (take-IsSeated input) c e named in
    rw (← same_composition) (seated.reviewers, seated.distinct, seated.bounded, ground arith)

-- Nobody who sits is unseated or moved.
abbrev Extends : List ℕ → Seats → Type 0
Extends first s = (more : List ℕ) × (s.chosen ≡ first ++ more)

take-Extends :
    (input : PanelInput) (first : List ℕ) (a : Option PanelAgent) (step : SeatStep) (s : Seats)
    → IsOnRoster input a
    → Extends first s
    → Extends first (take_seat input a step s)
unfolding take_seat
take-Extends input first none step s m h = h
take-Extends input first (some a) step s m (more, e) =
    elim (Bool-cases (
      leb (seat_count input) (length s.chosen)
      || (not (eligible input a) || contains s.chosen a.id))) [
        | inl skip ↦ rw skip (more, e)
        | inr seat ↦
            rw seat
              (more ++ a.id ∷ [], ap (λ l. l ++ a.id ∷ []) e ∙ append_assoc first more (a.id ∷ []))
      ]

agent_by_id-id :
    (agents : List PanelAgent) (id : ℕ) {a : PanelAgent}
    → agent_by_id agents id ≡ some a
    → a.id ≡ id
unfolding agent_by_id
agent_by_id-id [] id h = ground arith
agent_by_id-id (b ∷ agents) id h = elim (Option-cases (agent_by_id agents id)) [
  | inl missing ↦ ground arith
  | inr (later, found) ↦ ground (arith, agent_by_id-id agents id found)
]

first_taken :
    (input : PanelInput) (a : PanelAgent)
    → eligible input a ≡ true
    → (take_seat input (some a) SeatStep.explicit (no_seats input)).chosen ≡ a.id ∷ []
unfolding take_seat seat_count
first_taken input a fit = ground arith

first_named :
    (input : PanelInput) (id : ℕ) (rest : List ℕ) (a : PanelAgent)
    → agent_by_id input.agents id ≡ some a
    → eligible input a ≡ true
    → Extends (id ∷ []) (take_explicit input (id ∷ rest) (no_seats input))
unfolding take_explicit
first_named input id rest a found fit =
    take_explicit-keeps input (Extends (id ∷ [])) (take-Extends input (id ∷ [])) rest _ (
      subst (λ o. Extends (id ∷ []) (take_seat input o SeatStep.explicit (no_seats input)))
        (sym found)
        ([], first_taken input a fit ∙ ap (λ i. i ∷ []) (agent_by_id-id input.agents id found)))

-- A reviewer whom the card names first takes the first seat, if that agent is on the roster and
-- eligible: nobody that the org chart proposes comes before.
compose_review_panel-named :
    (input : PanelInput) (id : ℕ) (rest : List ℕ) (a : PanelAgent) (c : PanelComposition)
    → input.explicit_reviewer_ids ≡ id ∷ rest
    → agent_by_id input.agents id ≡ some a
    → eligible input a ≡ true
    → compose_review_panel input ≡ some c
    → (more : List ℕ) × (c.reviewer_ids ≡ id ∷ more)
compose_review_panel-named input id rest a c names found fit e =
    let named = rw (← names) at (first_named input id rest a found fit) in
    let (s, same_composition, extends) =
      compose-keeps input (Extends (id ∷ [])) (take-Extends input (id ∷ [])) c e named in
    rw (← same_composition) extends
