-- ===== src/Recovery/Ownership.antt =====
-- Whom `ownerFor` chooses, and that its walk up the chart ends.
use megacorps.Prelude.{
  ℕ, zero, suc, ◌+◌, ◌<◌, ◌≡◌, refl, subst, Bool, true, false, Option, none, some, List, [], ◌∷◌,
  ◌&&◌, ◌||◌, find, ◌==◌, same, is_some, contains, length, arith, Bool-cases, Option-cases, inl,
  inr, find-some, unseen, unseen-le_length, unseen-cons_lt,
}
use mathlib.Core.Bool.{false≢true}
use megacorps.Recovery.Store.{AgentRow, CardRow, Store}
use megacorps.Recovery.Owner.{
  agent_with, boss_of, boss_id_of, active_agent, cyclic, chain_fuel, is_false, clear_chain, may_own,
  candidates, owner_for,
}

abbrev agent_ids : List AgentRow → List ℕ
agent_ids [] = []
agent_ids (a ∷ rest) = a.id ∷ agent_ids rest

length-agent_ids : (roster : List AgentRow) → length (agent_ids roster) ≡ length roster
length-agent_ids [] = refl
length-agent_ids (a ∷ rest) = omega (arith, length-agent_ids rest)

agent_with-contains :
    (roster : List AgentRow) (id : ℕ)
    → is_some (agent_with roster id) ≡ true
    → contains (agent_ids roster) id ≡ true
agent_with-contains [] id h = h
agent_with-contains (a ∷ rest) id h = ground (arith, agent_with-contains rest id)

boss_of-contains :
    (roster : List AgentRow) (id : ℕ)
    → is_some (boss_of roster id) ≡ true
    → contains (agent_ids roster) id ≡ true
boss_of-contains roster id h = elim (Option-cases (agent_with roster id)) [
  | inl missing ↦ absurd (false≢true (rw (missing, is_some, boss_of, boss_id_of) at h))
  | inr (a, found) ↦ agent_with-contains roster id (rw found refl)
]

cyclic-some :
    (fuel : ℕ) (roster : List AgentRow) (actor : Option ℕ) (seen : List ℕ) (next : Option ℕ)
    → (is_some next ≡ true → unseen seen (agent_ids roster) + 1 < fuel)
    → (b : Bool) × (cyclic fuel roster actor seen next ≡ some b)
unfolding cyclic
cyclic-some fuel roster actor seen none h = (false, refl)
cyclic-some zero roster actor seen (some next) h = absurd (omega (arith, h refl))
cyclic-some (suc fuel) roster actor seen (some next) h =
    elim (Bool-cases (same (some next) actor || contains seen next)) [
      | inl stop ↦ (true, rw stop refl)
      | inr go ↦ rw go (
          cyclic-some fuel roster actor (next ∷ seen) (boss_of roster next) (λ more. omega (
            arith,
            h refl,
            unseen-cons_lt next seen (agent_ids roster) (ground arith)
                (boss_of-contains roster next more),
          )))
    ]

-- The walk from a candidate up the chart ends within the fuel that `may_own` gives it, whatever
-- cycles the chart holds.
cyclic_total :
    (roster : List AgentRow) (actor : Option ℕ) (start : List ℕ) (next : Option ℕ)
    → (b : Bool) × (cyclic (chain_fuel roster) roster actor start next ≡ some b)
unfolding chain_fuel
cyclic_total roster actor start next =
    cyclic-some (suc (suc (length roster))) roster actor start next
      (λ _. omega (arith, unseen-le_length start (agent_ids roster), length-agent_ids roster))

-- `target` is met on a walk up the chart.
pub data OnChain (roster : List AgentRow) (target : ℕ) : Option ℕ → Type 0 where
  here : (x : ℕ) → x ≡ target → OnChain roster target (some x)
  up : (x : ℕ) → OnChain roster target (boss_of roster x) → OnChain roster target (some x)

cyclic-false :
    (fuel : ℕ) (roster : List AgentRow) (actor : ℕ) (seen : List ℕ) (next : Option ℕ)
    → cyclic fuel roster (some actor) seen next ≡ some false
    → ¬ OnChain roster actor next
unfolding cyclic
cyclic-false fuel roster actor seen none h met = elim met [ ]
cyclic-false zero roster actor seen (some next) h met = ground arith
cyclic-false (suc fuel) roster actor seen (some next) h (here _ e) = ground arith
cyclic-false (suc fuel) roster actor seen (some next) h (up _ more) =
    cyclic-false fuel roster actor (next ∷ seen) (boss_of roster next) (ground arith) more

-- Who may own a recovery: a candidate who is active, is not the actor, did not own it before, and
-- does not stand below the actor.
pub record MayOwn (store : Store) (card : CardRow) (actor : Option ℕ) (visited : List ℕ) (id : ℕ)
    : Type 0 where
  pub candidate : contains (candidates store card actor) id ≡ true
  pub row : AgentRow
  pub found : active_agent store.agents id ≡ some row
  pub active : row.is_active ≡ true
  pub other : same (some id) actor ≡ false
  pub fresh : contains visited id ≡ false
  pub above : (a : ℕ) → actor ≡ some a → ¬ OnChain store.agents a row.boss_id

find-contains :
    (p : ℕ → Bool) (ids : List ℕ) (id : ℕ) → find p ids ≡ some id → contains ids id ≡ true
find-contains p [] id h = ground arith
find-contains p (x ∷ rest) id h = elim (Bool-cases (p x)) [
  | inl hit ↦ ground arith
  | inr miss ↦ ground (arith, find-contains p rest id (rw miss at h))
]

is_false-true : (b : Option Bool) → is_false b ≡ true → b ≡ some false
is_false-true (some false) h = refl
is_false-true (some true) h = absurd (false≢true h)
is_false-true none h = absurd (false≢true h)

pub clear_chain-false :
    (roster : List AgentRow) (actor : Option ℕ) (id : ℕ) (row : AgentRow)
    → clear_chain roster actor id (some row) ≡ true
    → (a : ℕ) → actor ≡ some a
    → ¬ OnChain roster a row.boss_id
unfolding clear_chain
clear_chain-false roster none id row h a e = ground arith
clear_chain-false roster (some b) id row h a e =
    cyclic-false (chain_fuel roster) roster a (id ∷ []) row.boss_id (
      is_false-true _ (
        subst (λ x. is_false (cyclic (chain_fuel roster) roster x (id ∷ []) row.boss_id) ≡ true) e
          h))

may_own-chain :
    (roster : List AgentRow) (actor : Option ℕ) (visited : List ℕ) (id : ℕ)
    → may_own roster actor visited id ≡ true
    → (same (some id) actor ≡ false)
      × ((contains visited id ≡ false)
          × (clear_chain roster actor id (active_agent roster id) ≡ true))
unfolding may_own
may_own-chain roster actor visited id h = (ground arith, (ground arith, ground arith))

-- The agent that `ownerFor` returns is a candidate of the card, an active agent of the company,
-- not the actor who failed, not an earlier owner, and the actor is nowhere on the chain of bosses
-- above it.
pub owner_for-MayOwn :
    (store : Store) (card : CardRow) (actor : Option ℕ) (visited : List ℕ) (id : ℕ)
    → owner_for store card actor visited ≡ some id
    → MayOwn store card actor visited id
unfolding owner_for clear_chain
owner_for-MayOwn store card actor visited id h =
    let (differs, (unused, clear)) =
      may_own-chain store.agents actor visited id
        (find-some (may_own store.agents actor visited) (candidates store card actor) h) in
    elim (Option-cases (active_agent store.agents id)) [
      | inl missing ↦
          absurd
            (false≢true (subst (λ r. clear_chain store.agents actor id r ≡ true) missing clear))
      | inr (row, found) ↦ record {
        candidate =
            find-contains (may_own store.agents actor visited) (candidates store card actor) id h;
        row = row;
        found = found;
        active =
            ground
              (arith, find-some (λ (a : AgentRow). a.id == id && a.is_active) store.agents found);
        other = differs;
        fresh = unused;
        above =
            clear_chain-false store.agents actor id row
              (subst (λ r. clear_chain store.agents actor id r ≡ true) found clear);
      }
    ]
