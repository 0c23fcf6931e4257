-- ===== src/Recovery/Executor.antt =====
-- card-recovery.ts: whom a manager may reassign a failed card to.
use megacorps.Prelude.{
  ℕ, ◌≡◌, ◌≢◌, ◌⊎◌, inl, inr, refl, sym, ◌∙◌, Bool, true, false, Option, none, some, ◌&&◌, ◌||◌,
  not, any, ◌==◌, same, same→≡, ==→≡, ==_refl, arith, and-true, All, Any, any-Any, any-All,
  Any-map_prop, All-map_prop,
}
use mathlib.Core.Bool.{false≢true}
use megacorps.Recovery.Store.{AgentRow, DepartmentRow, Store}
use megacorps.Recovery.Owner.{holds_boss_position}
use megacorps.Recovery.Report.{is_boss_role, is_boss, is_authorized, leads_others, may_execute}

-- An agent holds a boss position, or has the role of one.
abbrev IsBossAgent : Store → AgentRow → Type 0
IsBossAgent store a =
    (holds_boss_position store.boss_positions a ≡ true) ⊎ (is_boss_role a.role ≡ true)

-- The actor may hand work to the target: its boss, the head of its department, or a company boss
-- where the target heads a department.
abbrev IsAuthorized : Store → ℕ → AgentRow → Type 0
IsAuthorized store actor target =
    (target.boss_id ≡ some actor)
    ⊎ (Any
        (λ (d : DepartmentRow). (some d.id ≡ target.department_id) × (d.head_agent_id ≡ some actor))
        store.departments)
    ⊎ (Any (λ (a : AgentRow). (a.id ≡ actor) × IsBossAgent store a) store.agents
        × Any (λ (d : DepartmentRow). d.head_agent_id ≡ some target.id) store.departments)

-- No active agent but the target itself has it as a boss or belongs to a department that it heads.
abbrev LeadsNobody : Store → ℕ → Type 0
LeadsNobody store target =
    All
      (λ (a : AgentRow).
        a.is_active ≡ true
        → a.id ≢ target
        → (a.boss_id ≢ some target)
          × All (λ (d : DepartmentRow). d.head_agent_id ≡ some target → some d.id ≢ a.department_id)
              store.departments)
      store.agents

-- The target of a reassignment: an active agent whom the actor may hand work, who is no boss and
-- leads nobody.
pub record IsExecutor (store : Store) (actor : ℕ) (assignee : Option ℕ) : Type 0 where
  pub target : AgentRow
  pub named : assignee ≡ some target.id
  pub active : target.is_active ≡ true
  pub authorized : IsAuthorized store actor target
  pub no_boss : All (λ (a : AgentRow). a.id ≡ target.id → ¬ IsBossAgent store a) store.agents
  pub leads : LeadsNobody store target.id

or-true : (a b : Bool) → (a || b) ≡ true → (a ≡ true) ⊎ (b ≡ true)
or-true true b h = inl refl
or-true false b h = inr h

is_boss-Any :
    (store : Store) (id : ℕ)
    → is_boss store id ≡ true
    → Any (λ (a : AgentRow). (a.id ≡ id) × IsBossAgent store a) store.agents
unfolding is_boss
is_boss-Any store id h =
    Any-map_prop
      (λ (a : AgentRow).
        (a.id == id && (holds_boss_position store.boss_positions a || is_boss_role a.role)) ≡ true)
      (λ (a : AgentRow). (a.id ≡ id) × IsBossAgent store a) store.agents
      (λ a k. (
        ground arith,
        or-true (holds_boss_position store.boss_positions a) (is_boss_role a.role) (ground arith),
      ))
      ((any-Any _ store.agents).0 h)

is_boss-All :
    (store : Store) (id : ℕ)
    → is_boss store id ≡ false
    → All (λ (a : AgentRow). a.id ≡ id → ¬ IsBossAgent store a) store.agents
unfolding is_boss
is_boss-All store id h =
    All-map_prop
      (λ (a : AgentRow).
        (a.id == id && (holds_boss_position store.boss_positions a || is_boss_role a.role)) ≡ false)
      (λ (a : AgentRow). a.id ≡ id → ¬ IsBossAgent store a) store.agents
      (λ a k e boss. elim boss [ inl p ↦ ground arith | inr p ↦ ground arith ])
      ((any-All _ store.agents).0 h)

abbrev heads_of : ℕ → AgentRow → DepartmentRow → Bool
heads_of actor target d = same (some d.id) target.department_id && same d.head_agent_id (some actor)

both-eq : (a b c d : Option ℕ) → (same a b && same c d) ≡ true → (a ≡ b) × (c ≡ d)
both-eq a b c d h = (same→≡ a b (ground arith), same→≡ c d (ground arith))

is_authorized-IsAuthorized :
    (store : Store) (actor : ℕ) (target : AgentRow)
    → is_authorized store actor target ≡ true
    → IsAuthorized store actor target
unfolding is_authorized
is_authorized-IsAuthorized store actor target h =
    let more : (same target.boss_id (some actor) ≡ true)
        ⊎ ((any (heads_of actor target) store.departments
              || (is_boss store actor
                  && any (λ (d : DepartmentRow). same d.head_agent_id (some target.id))
                      store.departments))
            ≡ true) =
      or-true _ _ h in
    elim more [
      | inl boss ↦ inl (same→≡ target.boss_id (some actor) boss)
      | inr rest ↦ inr (other_ways (or-true _ _ rest))
    ]
  where
    other_ways :
        (any (heads_of actor target) store.departments ≡ true)
          ⊎ ((is_boss store actor
                && any
                    (λ (d : DepartmentRow). same d.head_agent_id (some target.id))
                    store.departments)
              ≡ true)
        → (Any
            (λ (d : DepartmentRow).
              (some d.id ≡ target.department_id) × (d.head_agent_id ≡ some actor))
            store.departments)
          ⊎ (Any (λ (a : AgentRow). (a.id ≡ actor) × IsBossAgent store a) store.agents
              × Any (λ (d : DepartmentRow). d.head_agent_id ≡ some target.id) store.departments)
    other_ways (inl heads) = inl (
        Any-map_prop (λ d. heads_of actor target d ≡ true)
          (λ (d : DepartmentRow).
            (some d.id ≡ target.department_id) × (d.head_agent_id ≡ some actor))
          store.departments
          (λ d k. both-eq (some d.id) target.department_id d.head_agent_id (some actor) k)
          ((any-Any (heads_of actor target) store.departments).0 heads))
    other_ways (inr chief) =
        let (boss, headed) = and-true (is_boss store actor) _ chief in
        inr (
          is_boss-Any store actor boss,
          Any-map_prop (λ (d : DepartmentRow). same d.head_agent_id (some target.id) ≡ true)
              (λ (d : DepartmentRow). d.head_agent_id ≡ some target.id) store.departments
              (λ d k. same→≡ d.head_agent_id (some target.id) k)
              ((any-Any _ store.departments).0 headed),
        )

same_refl : (a b : Option ℕ) → a ≡ b → same a b ≡ true
same_refl none none e = refl
same_refl none (some b) e = ground arith
same_refl (some a) none e = ground arith
same_refl (some a) (some b) e = ground (arith, ==_refl a)

same-apart : (a b : Option ℕ) → same a b ≡ false → a ≢ b
same-apart a b h e = absurd (false≢true (sym h ∙ same_refl a b e))

both_refl : (a b c d : Option ℕ) → a ≡ b → c ≡ d → (same a b && same c d) ≡ true
both_refl a b c d e f = rw (same_refl a b e) (same_refl c d f)

unled_by : (own rest : Bool) → (not own && rest) ≡ false → (¬ own ≡ true) → rest ≡ false
unled_by true rest h apart = absurd (apart refl)
unled_by false rest h apart = h

leads_others-LeadsNobody :
    (store : Store) (target : ℕ) → leads_others store target ≡ false → LeadsNobody store target
unfolding leads_others
leads_others-LeadsNobody store target h =
    All-map_prop _
      (λ (a : AgentRow).
        a.is_active ≡ true
        → a.id ≢ target
        → (a.boss_id ≢ some target)
          × All (λ (d : DepartmentRow). d.head_agent_id ≡ some target → some d.id ≢ a.department_id)
              store.departments)
      store.agents (λ a k active other. led a k active other) ((any-All _ store.agents).0 h)
  where
    heads : AgentRow → DepartmentRow → Bool
    heads a d = same d.head_agent_id (some target) && same (some d.id) a.department_id

    led :
        (a : AgentRow)
        → (a.is_active
            && (not (a.id == target)
                && (same a.boss_id (some target) || any (heads a) store.departments)))
          ≡ false
        → a.is_active ≡ true
        → a.id ≢ target
        → (a.boss_id ≢ some target)
          × All
              (λ (d : DepartmentRow). d.head_agent_id ≡ some target → some d.id ≢ a.department_id)
              store.departments
    led a k active other =
        let unled : (same a.boss_id (some target) || any (heads a) store.departments) ≡ false =
          unled_by (a.id == target) _ (rw active at k) (λ e. other (==→≡ a.id target e)) in
        (
          same-apart a.boss_id (some target) (ground arith),
          All-map_prop (λ d. heads a d ≡ false)
              (λ (d : DepartmentRow). d.head_agent_id ≡ some target → some d.id ≢ a.department_id)
              store.departments
              (λ d q e f. absurd (
                false≢true (
                  sym q ∙ both_refl d.head_agent_id (some target) (some d.id) a.department_id e f)))
              ((any-All (heads a) store.departments).0 (ground arith)),
        )

pub may_execute-IsExecutor :
    (store : Store) (actor : ℕ) (target : AgentRow)
    → target.is_active ≡ true
    → may_execute store actor target ≡ true
    → IsExecutor store actor (some target.id)
unfolding may_execute
may_execute-IsExecutor store actor target active h = record {
  target = target;
  named = refl;
  active = active;
  authorized = is_authorized-IsAuthorized store actor target (ground arith);
  no_boss = is_boss-All store target.id (ground arith);
  leads = leads_others-LeadsNobody store target.id (ground arith);
}
