-- ===== src/Protocol/Helper.antt =====
-- Who helps when an agent cannot report.
use megacorps.Prelude.{
  ℕ, ◌≡◌, refl, subst, Bool, true, false, Option, none, some, List, [], ◌∷◌, ◌++◌, ◌||◌, same,
  contains, arith, Bool-cases, inl, inr,
}
use mathlib.Core.Option.{some-injective, none-ne-some}
use megacorps.Recovery.Store.{AgentRow, CardRow, Store}
use megacorps.Recovery.Owner.{agent_with, listed, head_of, holds_boss_position}
use megacorps.Recovery.Ownership.{OnChain, clear_chain-false}
use megacorps.Recovery.Report.{is_boss_role}
use megacorps.Protocol.Fallback.{may_help, fallback_from, protocol_fallback}

-- The agent is at work and free, no boss, not the assignee, and the actor is not above it.
pub record IsHelper (available : AgentRow → Bool) (store : Store) (card : CardRow)
    (actor : AgentRow) (row : AgentRow) : Type 0 where
  pub active : row.is_active ≡ true
  pub free : row.is_busy ≡ false
  pub no_boss : (holds_boss_position store.boss_positions row || is_boss_role row.role) ≡ false
  pub not_assignee : same (some row.id) card.assignee_id ≡ false
  pub runtime : available row ≡ true
  pub not_below : ¬ OnChain store.agents actor.id row.boss_id

module _ (available : AgentRow → Bool) (store : Store) (card : CardRow) (actor : AgentRow) where
  may_help-IsHelper :
      (id : ℕ) (row : AgentRow)
      → may_help available store card actor id (some row) ≡ true
      → IsHelper available store card actor row
  unfolding may_help
  may_help-IsHelper id row h = record {
    active = ground arith;
    free = ground arith;
    no_boss = ground arith;
    not_assignee = ground arith;
    runtime = ground arith;
    not_below =
        clear_chain-false store.agents (some actor.id) row.id row (ground arith) actor.id refl;
  }

  abbrev pub IsChosen : List ℕ → List ℕ → ℕ → Type 0
  IsChosen seen ids id =
      (row : AgentRow) × (agent_with store.agents id ≡ some row)
      × (contains ids id ≡ true)
      × (contains seen id ≡ false)
      × IsHelper available store card actor row

  weaker : (seen ids : List ℕ) (x id : ℕ) → IsChosen (x ∷ seen) ids id → IsChosen seen (x ∷ ids) id
  weaker seen ids x id (row, found, listed_one, fresh, helper) =
      (row, found, ground arith, ground arith, helper)

  skipped : (seen ids : List ℕ) (x id : ℕ) → IsChosen seen ids id → IsChosen seen (x ∷ ids) id
  skipped seen ids x id (row, found, listed_one, fresh, helper) =
      (row, found, ground arith, fresh, helper)

  here :
      (seen ids : List ℕ) (x : ℕ) (found : Option AgentRow)
      → agent_with store.agents x ≡ found
      → contains seen x ≡ false
      → may_help available store card actor x found ≡ true
      → IsChosen seen (x ∷ ids) x
  unfolding may_help
  here seen ids x none e fresh h = ground arith
  here seen ids x (some row) e fresh h = (row, e, ground arith, fresh, may_help-IsHelper x row h)

  fallback_from-IsChosen :
      (seen ids : List ℕ) (id : ℕ)
      → fallback_from available store card actor seen ids ≡ some id
      → IsChosen seen ids id
  unfolding fallback_from
  fallback_from-IsChosen seen [] id e = absurd (none-ne-some id e)
  fallback_from-IsChosen seen (x ∷ ids) id e = elim (Bool-cases (contains seen x)) [
    | inl old ↦ skipped seen ids x id (fallback_from-IsChosen seen ids id (rw old at e))
    | inr new ↦
        elim (Bool-cases (may_help available store card actor x (agent_with store.agents x))) [
          | inl fit ↦
              subst (IsChosen seen (x ∷ ids)) (some-injective x id (rw (new, fit) at e))
                (here seen ids x (agent_with store.agents x) refl new fit)
          | inr unfit ↦
              weaker seen ids x id (fallback_from-IsChosen (x ∷ seen) ids id (rw (new, unfit) at e))
        ]
  ]

  -- Help with malformed replies is asked only of the head of the actor's department or the actor's boss,
  -- who is neither the actor nor one who replied before, is active, free, with a runtime that is
  -- available, no boss of the company, not the card's assignee, and nowhere below the actor.
  pub protocol_fallback-IsChosen :
      (visited : List ℕ) (id : ℕ)
      → protocol_fallback available store card actor visited ≡ some id
      → IsChosen
          (actor.id ∷ visited)
          (listed (head_of store.departments actor.department_id) ++ listed actor.boss_id)
          id
  unfolding protocol_fallback
  protocol_fallback-IsChosen visited id e =
      fallback_from-IsChosen (actor.id ∷ visited)
        (listed (head_of store.departments actor.department_id) ++ listed actor.boss_id) id e
