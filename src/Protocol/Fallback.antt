-- ===== src/Protocol/Fallback.antt =====
-- protocol-repair.ts `protocolFallback`: who helps. `agentRuntimeAvailable` is a parameter.
use megacorps.Prelude.{
  ℕ, Bool, false, Option, none, some, List, [], ◌∷◌, ◌++◌, ◌&&◌, not, if◌then◌else◌, same, contains,
}
use megacorps.Recovery.Store.{CardRow, AgentRow, Store}
use megacorps.Recovery.Owner.{agent_with, listed, head_of, holds_boss_position, clear_chain}
use megacorps.Recovery.Report.{is_boss_role}

module _ (available : AgentRow → Bool) where
  -- An agent who may help: at work, not a boss, not the assignee, and not below the actor.
  unfoldable pub may_help : Store → CardRow → AgentRow → ℕ → Option AgentRow → Bool
  may_help store card actor id none = false
  may_help store card actor id (some a) =
      a.is_active
      && (not a.is_busy
          && (not (holds_boss_position store.boss_positions a)
              && (not (is_boss_role a.role)
                  && (not (same (some a.id) card.assignee_id)
                      && (clear_chain store.agents (some actor.id) a.id (some a) && available a)))))

  unfoldable pub fallback_from : Store → CardRow → AgentRow → List ℕ → List ℕ → Option ℕ
  unfolding may_help
  fallback_from store card actor seen [] = none
  fallback_from store card actor seen (id ∷ rest) =
      let skipped = fallback_from store card actor seen rest in
      let later = fallback_from store card actor (id ∷ seen) rest in
      if contains seen id
      then skipped
      else if may_help store card actor id (agent_with store.agents id)
      then some id
      else later

  -- The head of the actor's department, or the actor's boss.
  unfoldable pub protocol_fallback : Store → CardRow → AgentRow → List ℕ → Option ℕ
  unfolding fallback_from
  protocol_fallback store card actor visited =
      fallback_from store card actor (actor.id ∷ visited)
        (listed (head_of store.departments actor.department_id) ++ listed actor.boss_id)
