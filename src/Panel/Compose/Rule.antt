-- ===== src/Panel/Compose/Rule.antt =====
-- A proof rule for `composeReviewPanel`: what every attempt to seat an agent keeps, the panel has.
use megacorps.Prelude.{
  ℕ, zero, suc, ◌≡◌, refl, Bool, Option, none, some, List, [], ◌∷◌, ◌||◌, arith, subst, leb, length,
  contains, Text, Bool-cases, Option-cases, All, Any, All-members, ◌==◌, ◌∙◌, inl, inr,
}
use mathlib.Core.Option.{some-injective, none-ne-some}
use megacorps.Panel.Compose.{
  PanelAgent, PanelInput, PanelComposition, SeatStep, Seats, agent_by_id, seat_count, take_seat,
  take_explicit, take_matching, head_seat, seats_in, boss_seats, no_seats, composition, bind_option,
  first_seats, compose_review_panel,
}

bind_option-eq-some {ℓ κ} :
    {A : Type ℓ} {B : Type κ} (o : Option A) (f : A → Option B) {b : B}
    → bind_option o f ≡ some b
    → (a : A) × (o ≡ some a) × (f a ≡ some b)
bind_option-eq-some none f h = cc
bind_option-eq-some (some a) f h = (a, refl, h)

-- Who is tried for a seat stands on the roster.
abbrev pub IsOnRoster : PanelInput → Option PanelAgent → Type 0
IsOnRoster input none = Unit
IsOnRoster input (some a) = Any (λ b. b ≡ a) input.agents

agent_by_id-Any :
    (agents : List PanelAgent) (id : ℕ) (a : PanelAgent)
    → agent_by_id agents id ≡ some a
    → Any (λ b. b ≡ a) agents
unfolding agent_by_id
agent_by_id-Any [] id a h = ground arith
agent_by_id-Any (b ∷ agents) id a h = elim (Option-cases (agent_by_id agents id)) [
  | inr (later, found) ↦ inr (agent_by_id-Any agents id a (found ∙ rw found at h))
  | inl missing ↦ elim (Bool-cases (b.id == id)) [
    | inl here ↦ inl (some-injective b a (rw (missing, here) at h))
    | inr other ↦ absurd (none-ne-some a (rw (missing, other) at h))
  ]
]

agent_by_id-IsOnRoster :
    (input : PanelInput) (id : ℕ) → IsOnRoster input (agent_by_id input.agents id)
agent_by_id-IsOnRoster input id = go (agent_by_id input.agents id) refl
  where
    go : (o : Option PanelAgent) → agent_by_id input.agents id ≡ o → IsOnRoster input o
    go none e = tt
    go (some a) e = agent_by_id-Any input.agents id a e

bind-IsOnRoster :
    (input : PanelInput) (id : Option ℕ)
    → IsOnRoster input (bind_option id (agent_by_id input.agents))
bind-IsOnRoster input none = tt
bind-IsOnRoster input (some id) = agent_by_id-IsOnRoster input id

module _ (input : PanelInput) (P : Seats → Type 0)
    (keeps : (a : Option PanelAgent) (step : SeatStep) (s : Seats)
      → IsOnRoster input a
      → P s
      → P (take_seat input a step s)) where
  pub take_explicit-keeps : (ids : List ℕ) (s : Seats) → P s → P (take_explicit input ids s)
  unfolding take_explicit
  take_explicit-keeps [] s h = h
  take_explicit-keeps (id ∷ ids) s h =
      take_explicit-keeps ids _ (
        keeps (agent_by_id input.agents id) SeatStep.explicit s (agent_by_id-IsOnRoster input id) h)

  take_matching-keeps :
      (test : PanelAgent → Bool) (step : SeatStep) (agents : List PanelAgent) (s : Seats)
      → All (λ a. IsOnRoster input (some a)) agents
      → P s
      → P (take_matching input test step agents s)
  unfolding take_matching
  take_matching-keeps test step [] s m h = h
  take_matching-keeps test step (a ∷ agents) s m h = elim (Bool-cases (test a)) [
    | inl e ↦ rw e (take_matching-keeps test step agents _ m.1 (keeps (some a) step s m.0 h))
    | inr e ↦ rw e (take_matching-keeps test step agents s m.1 h)
  ]

  seats_in-keeps : (d : Option Text) (s : Seats) → P s → P (seats_in input d s)
  unfolding seats_in
  seats_in-keeps none s h = h
  seats_in-keeps (some d) s h =
      take_matching-keeps _ _ input.agents _ (All-members input.agents)
        (take_matching-keeps _ _ input.agents s (All-members input.agents) h)

  boss_seats-keeps :
      (fuel : ℕ) (visited : List ℕ) (cursor : Option ℕ) (s t : Seats)
      → boss_seats input fuel visited cursor s ≡ some t
      → P s
      → P t
  unfolding boss_seats
  boss_seats-keeps fuel visited none s t e h = let same_seats : s ≡ t = cc in subst P same_seats h
  boss_seats-keeps zero visited (some cursor) s t e h = ground arith
  boss_seats-keeps (suc fuel) visited (some cursor) s t e h =
      elim (Bool-cases (contains visited cursor || leb (seat_count input) (length s.chosen))) [
        | inl stop ↦ let same_seats : s ≡ t = ground arith in subst P same_seats h
        | inr go ↦
            boss_seats-keeps fuel (cursor ∷ visited) _ _ t (rw go at e)
              (keeps _ _ s (agent_by_id-IsOnRoster input cursor) h)
      ]

  -- The seats of the panel, from any point at which the named reviewers have been tried.
  pub compose-keeps :
      (c : PanelComposition)
      → compose_review_panel input ≡ some c
      → P (take_explicit input input.explicit_reviewer_ids (no_seats input))
      → (s : Seats) × (composition input s ≡ c) × P s
  unfolding compose_review_panel first_seats head_seat
  compose-keeps c e h =
      let (s, ends, same_panel) = bind_option-eq-some _ _ e in
      let same_composition : composition input s ≡ c = cc in
      let first = seats_in-keeps _ _ (keeps _ _ _ (bind-IsOnRoster input _) h) in
      (s, same_composition, boss_seats-keeps _ [] _ _ s ends first)
