-- ===== src/Recovery/Owner.antt =====
-- card-recovery.ts `ownerFor`: the first manager who may own the recovery.
use megacorps.Prelude.{
  ℕ, zero, suc, Bool, true, false, Option, none, some, List, [], ◌∷◌, ◌++◌, ◌&&◌, ◌||◌, not, find,
  if◌then◌else◌, ◌==◌, same, contains, length,
}
use megacorps.Recovery.Store.{AgentRow, DepartmentRow, CardRow, Store}

abbrev pub agent_with : List AgentRow → ℕ → Option AgentRow
agent_with roster id = find (λ a. a.id == id) roster

abbrev pub boss_id_of : Option AgentRow → Option ℕ
boss_id_of none = none
boss_id_of (some a) = a.boss_id

abbrev pub boss_of : List AgentRow → ℕ → Option ℕ
boss_of roster id = boss_id_of (agent_with roster id)

abbrev pub listed : Option ℕ → List ℕ
listed none = []
listed (some id) = id ∷ []

abbrev pub head_of : List DepartmentRow → Option ℕ → Option ℕ
head_of departments none = none
head_of departments (some d) = elim (find (λ (r : DepartmentRow). r.id == d) departments) [
  | none ↦ none
  | some r ↦ r.head_agent_id
]

abbrev department_of : Option AgentRow → Option ℕ
department_of none = none
department_of (some a) = a.department_id

abbrev find_actor : List AgentRow → Option ℕ → Option AgentRow
find_actor roster none = none
find_actor roster (some id) = agent_with roster id

abbrev pub holds_boss_position : List ℕ → AgentRow → Bool
holds_boss_position positions a = elim a.position_id [
  | none ↦ false
  | some p ↦ contains positions p
]

unfoldable pub boss_ids : List ℕ → List AgentRow → List ℕ
boss_ids positions [] = []
boss_ids positions (a ∷ rest) =
    let others = boss_ids positions rest in
    if holds_boss_position positions a then a.id ∷ others else others

-- Reviewer of the card, head of the actor's department, the actor's boss, the company's bosses.
unfoldable pub candidates : Store → CardRow → Option ℕ → List ℕ
candidates store card actor_id =
    let actor = find_actor store.agents actor_id in
    listed card.reviewer_id
    ++ (listed (head_of store.departments (department_of actor))
        ++ (listed (boss_id_of actor) ++ boss_ids store.boss_positions store.agents))

-- The walk up from a candidate: `some true` for a cycle or a chain that meets the actor, `none`
-- when the fuel runs out.
unfoldable pub cyclic : ℕ → List AgentRow → Option ℕ → List ℕ → Option ℕ → Option Bool
cyclic fuel roster actor seen none = some false
cyclic zero roster actor seen (some next) = none
cyclic (suc fuel) roster actor seen (some next) =
    let rest = cyclic fuel roster actor (next ∷ seen) (boss_of roster next) in
    if same (some next) actor || contains seen next then some true else rest

unfoldable pub chain_fuel : List AgentRow → ℕ
chain_fuel roster = suc (suc (length roster))

abbrev pub is_false : Option Bool → Bool
is_false (some false) = true
is_false _ = false

abbrev pub active_agent : List AgentRow → ℕ → Option AgentRow
active_agent roster id = find (λ a. a.id == id && a.is_active) roster

-- The candidate is an active agent whose chain of bosses is clear.
unfoldable pub clear_chain : List AgentRow → Option ℕ → ℕ → Option AgentRow → Bool
unfolding cyclic chain_fuel
clear_chain roster actor id none = false
clear_chain roster actor id (some a) =
    is_false (cyclic (chain_fuel roster) roster actor (id ∷ []) a.boss_id)

-- A candidate is passed over if it is the actor, was visited, is not an active agent, or stands
-- below the actor or in a cycle.
unfoldable pub may_own : List AgentRow → Option ℕ → List ℕ → ℕ → Bool
unfolding clear_chain
may_own roster actor visited id =
    not (same (some id) actor || contains visited id)
    && clear_chain roster actor id (active_agent roster id)

unfoldable pub owner_for : Store → CardRow → Option ℕ → List ℕ → Option ℕ
unfolding may_own candidates
owner_for store card actor visited =
    find (may_own store.agents actor visited) (candidates store card actor)
