-- ===== src/Panel/Compose/Total.antt =====
-- The boss chain of `composeReviewPanel` ends: the fuel of the model is always enough.
use megacorps.Prelude.{
  ℕ, zero, suc, ◌≡◌, ◌≤◌, ◌+◌, ◌<◌, refl, true, false, Option, none, some, List, [], ◌∷◌, ◌||◌,
  arith, leb, length, contains, is_some, if◌then◌else◌, Bool-cases, Option-cases, inl, inr,
}
use mathlib.Core.Bool.{false≢true}
use megacorps.Panel.Compose.{
  PanelAgent, PanelInput, PanelComposition, Seats, agent_by_id, author_of, boss_of, bind_option,
  composition, seat_count, take_seat, boss_chain, boss_seats, first_seats, compose_review_panel,
}

-- The agents that the walk has not visited.
abbrev unvisited : List ℕ → List PanelAgent → ℕ
unvisited visited [] = 0
unvisited visited (a ∷ rest) =
    if contains visited a.id then unvisited visited rest else suc (unvisited visited rest)

unvisited-le_length :
    (visited : List ℕ) (agents : List PanelAgent) → unvisited visited agents ≤ length agents
unvisited-le_length visited [] = omega arith
unvisited-le_length visited (a ∷ rest) = ground (arith, unvisited-le_length visited rest)

unvisited-cons_le :
    (c : ℕ) (visited : List ℕ) (agents : List PanelAgent)
    → unvisited (c ∷ visited) agents ≤ unvisited visited agents
unvisited-cons_le c visited [] = omega arith
unvisited-cons_le c visited (a ∷ rest) = ground (arith, unvisited-cons_le c visited rest)

-- A visit to an agent of the roster leaves fewer.
unvisited-cons_lt :
    (c : ℕ) (visited : List ℕ) (agents : List PanelAgent) {a : PanelAgent}
    → contains visited c ≡ false
    → agent_by_id agents c ≡ some a
    → unvisited (c ∷ visited) agents < unvisited visited agents
unfolding agent_by_id
unvisited-cons_lt c visited [] fresh found = ground arith
unvisited-cons_lt c visited (a ∷ rest) fresh found = elim (Option-cases (agent_by_id rest c)) [
  | inl missing ↦ ground (arith, unvisited-cons_le c visited rest)
  | inr (b, later) ↦
      ground (arith, unvisited-cons_lt c visited rest fresh later, unvisited-cons_le c visited rest)
]

module _ (input : PanelInput) where
  boss_of-unvisited :
      (c : ℕ) (visited : List ℕ)
      → contains visited c ≡ false
      → is_some (boss_of input c) ≡ true
      → unvisited (c ∷ visited) input.agents < unvisited visited input.agents
  boss_of-unvisited c visited fresh more = elim (Option-cases (agent_by_id input.agents c)) [
    | inl missing ↦ absurd (false≢true (rw missing at more))
    | inr (a, found) ↦ unvisited-cons_lt c visited input.agents fresh found
  ]

  boss_seats_total :
      (fuel : ℕ) (visited : List ℕ) (cursor : Option ℕ) (s : Seats)
      → (is_some cursor ≡ true → unvisited visited input.agents + 1 < fuel)
      → (t : Seats) × (boss_seats input fuel visited cursor s ≡ some t)
  unfolding boss_seats
  boss_seats_total fuel visited none s h = (s, refl)
  boss_seats_total zero visited (some cursor) s h = absurd (omega (arith, h refl))
  boss_seats_total (suc fuel) visited (some cursor) s h =
      elim (Bool-cases (contains visited cursor || leb (seat_count input) (length s.chosen))) [
        | inl stop ↦ (s, rw stop)
        | inr go ↦ rw go (
            boss_seats_total fuel (cursor ∷ visited) (boss_of input cursor)
              (take_seat input (agent_by_id input.agents cursor) boss_chain s)
              (λ more. omega (arith, h refl, boss_of-unvisited cursor visited (ground arith) more)))
      ]

-- The walk up the boss chain ends whatever cycles the chart holds: a composition is returned for
-- every input.
pub compose_review_panel_total :
    (input : PanelInput) → (c : PanelComposition) × (compose_review_panel input ≡ some c)
unfolding compose_review_panel
compose_review_panel_total input =
    let (t, ends) =
      boss_seats_total input (suc (suc (length input.agents))) []
        (bind_option (author_of input) (λ a. a.boss_id)) (first_seats input)
        (λ _. omega (arith, unvisited-le_length [] input.agents)) in
    (composition input t, rw ends refl)
