-- ===== src/Protocol/Bounded.antt =====
-- The stages of the repair that `recordProtocolFailure` of protocol-repair.ts goes through.
use megacorps.Prelude.{
  ℕ, ◌≤◌, ◌<◌, ◌≡◌, refl, sym, ap, subst, Bool, true, false, Option, none, some, [], ◌∷◌, find-some,
  same, get_or, Text, arith, Bool-cases, Option-cases, inl, inr, ◌⊎◌,
}
use mathlib.Core.Bool.{false≢true}
use megacorps.Recovery.Store.{
  RepairMode, same_session, fresh_context, escalated, helped, blocked_repair, clear_repair,
  RepairEntry, CardRow, AgentRow, Store,
}
use megacorps.Protocol.Repair.{
  ProtocolKind, dispatch_reply, review_reply, repair_of, with_repair, is_escalated, is_blocked,
  helps, protocol_help_origin, MalformedReply, Feedback, has_mode, mode_after, counted_entry,
  failures_so_far, help_failed, correction_failed, one_failure_more, reply_counts,
}
use megacorps.Protocol.Record.{
  answered_kind, counted_reply, recorded_by_mode, recorded_reply, record_reply,
}

-- How far the repair has come: the counted failures, then the help, its correction, and the end.
abbrev pub rank : RepairMode → ℕ → ℕ
rank same_session failures = failures
rank fresh_context failures = failures
rank clear_repair failures = failures
rank escalated failures = 4
rank helped failures = 5
rank blocked_repair failures = 6

abbrev pub repair_rank : Option RepairEntry → ℕ
repair_rank none = 0
repair_rank (some e) = rank e.mode e.failures

abbrev pub IsBounded : Option RepairEntry → Type 0
IsBounded old = failures_so_far old ≤ 3

abbrev pub IsRaised : Option RepairEntry → Option RepairEntry → Type 0
IsRaised old new = (repair_rank old < repair_rank new) × (repair_rank new ≤ 6) × IsBounded new

repair_of-with_repair :
    (kind : ProtocolKind) (entry : RepairEntry) (card : CardRow)
    → repair_of kind (with_repair kind entry card) ≡ some entry
repair_of-with_repair dispatch_reply entry card = refl
repair_of-with_repair review_reply entry card = refl

-- An entry is read back from the card.
raised :
    (old : Option RepairEntry) (kind : ProtocolKind) (entry : RepairEntry) (card : CardRow)
    → IsRaised old (some entry)
    → IsRaised old (repair_of kind (with_repair kind entry card))
raised old kind entry card h = subst (IsRaised old) (sym (repair_of-with_repair kind entry card)) h

mode_after-rank :
    (m : ℕ) (fallback : Option ℕ)
    → m ≤ 3
    → (m < rank (mode_after (one_failure_more m) fallback) (one_failure_more m))
      × (rank (mode_after (one_failure_more m) fallback) (one_failure_more m) ≤ 6)
      × (one_failure_more m ≤ 3)
mode_after-rank m none h = ground arith
mode_after-rank m (some id) h = ground arith

counted_reply-IsRaised :
    (available : AgentRow → Bool) (wording : Feedback → Text) (store : Store) (card : CardRow)
    (old : Option RepairEntry) (reply : MalformedReply)
    → IsBounded old
    → repair_rank old ≡ failures_so_far old
    → IsRaised old
        (repair_of reply.kind (counted_reply available wording store card old reply).card)
unfolding counted_reply counted_entry
counted_reply-IsRaised available wording store card old reply bounded e =
    let (above, below, counted) = mode_after-rank (failures_so_far old) _ bounded in
    raised old reply.kind _ _ (omega (arith, e, above), below, counted)

help_failed-IsRaised :
    (wording : Feedback → Text) (card : CardRow) (kind : ProtocolKind) (old : RepairEntry)
    (reply : MalformedReply)
    → rank old.mode old.failures ≤ 4
    → IsBounded (some old)
    → (help_failed wording card kind old reply).duplicate ≡ false
    → IsRaised (some old) (repair_of kind (help_failed wording card kind old reply).card)
unfolding help_failed
help_failed-IsRaised wording card kind old reply low bounded counts =
    elim (Bool-cases (same old.fallback_id (some reply.actor.id))) [
      | inl here ↦ rw here (raised (some old) kind _ _ (omega (arith, low), omega arith, bounded))
      | inr other ↦ absurd (false≢true (sym (rw other at counts)))
    ]

correction_failed-IsRaised :
    (wording : Feedback → Text) (card : CardRow) (kind : ProtocolKind) (old : RepairEntry)
    (reply : MalformedReply)
    → rank old.mode old.failures ≤ 5
    → IsBounded (some old)
    → IsRaised (some old) (repair_of kind (correction_failed wording card kind old reply).card)
unfolding correction_failed
correction_failed-IsRaised wording card kind old reply low bounded =
    raised (some old) kind _ _ (omega (arith, low), omega arith, bounded)

helps-escalated :
    (entry : Option RepairEntry) (actor : ℕ)
    → helps entry actor ≡ true
    → has_mode is_escalated entry ≡ true
helps-escalated none actor h = ground arith
helps-escalated (some e) actor h = ground arith

answered_kind-cases :
    (card : CardRow) (reply : MalformedReply)
    → (has_mode is_escalated (repair_of (answered_kind card reply) card) ≡ true)
      ⊎ (answered_kind card reply ≡ reply.kind)
unfolding protocol_help_origin
answered_kind-cases card reply = elim (Option-cases (protocol_help_origin card reply.actor.id)) [
  | inl own ↦ inr (ap (λ o. get_or o reply.kind) own)
  | inr (kind, found) ↦ inl (
      subst (λ o. has_mode is_escalated (repair_of (get_or o reply.kind) card) ≡ true) (sym found)
        (helps-escalated (repair_of kind card) reply.actor.id (
          find-some (λ k. helps (repair_of k card) reply.actor.id)
            (dispatch_reply ∷ review_reply ∷ []) found)))
]

module _ (available : AgentRow → Bool) (wording : Feedback → Text) where
  counted_here :
      (store : Store) (card : CardRow) (kind : ProtocolKind) (old : Option RepairEntry)
      (reply : MalformedReply)
      → kind ≡ reply.kind
      → repair_rank old ≡ failures_so_far old
      → IsBounded old
      → IsRaised old (repair_of kind (counted_reply available wording store card old reply).card)
  counted_here store card kind old reply own e bounded =
      subst
        (λ k.
          IsRaised old (repair_of k (counted_reply available wording store card old reply).card))
        (sym own) (counted_reply-IsRaised available wording store card old reply bounded e)

  live :
      (store : Store) (input card : CardRow) (old : Option RepairEntry) (reply : MalformedReply)
      → reply_counts store input card old reply ≡ true
      → has_mode is_blocked old ≡ false
  unfolding reply_counts
  live store input card old reply h = ground arith

  by_mode-IsRaised :
      (m : RepairMode) (store : Store) (card : CardRow) (kind : ProtocolKind) (old : RepairEntry)
      (reply : MalformedReply)
      → old.mode ≡ m
      → is_blocked m ≡ false
      → (is_escalated m ≡ true) ⊎ (kind ≡ reply.kind)
      → IsBounded (some old)
      → (recorded_by_mode available wording m store card kind old reply).duplicate ≡ false
      → IsRaised
          (some old)
          (repair_of kind (recorded_by_mode available wording m store card kind old reply).card)
  by_mode-IsRaised escalated store card kind old reply e live own bounded counts =
      help_failed-IsRaised wording card kind old reply (rw e (omega arith)) bounded counts
  by_mode-IsRaised helped store card kind old reply e live own bounded counts =
      correction_failed-IsRaised wording card kind old reply (rw e (omega arith)) bounded
  by_mode-IsRaised blocked_repair store card kind old reply e live own bounded counts = ground arith
  by_mode-IsRaised same_session store card kind old reply e live (inr k) bounded counts =
      counted_here store card kind (some old) reply k (rw e refl) bounded
  by_mode-IsRaised fresh_context store card kind old reply e live (inr k) bounded counts =
      counted_here store card kind (some old) reply k (rw e refl) bounded
  by_mode-IsRaised clear_repair store card kind old reply e live (inr k) bounded counts =
      counted_here store card kind (some old) reply k (rw e refl) bounded
  by_mode-IsRaised same_session store card kind old reply e live (inl h) bounded counts =
      ground arith
  by_mode-IsRaised fresh_context store card kind old reply e live (inl h) bounded counts =
      ground arith
  by_mode-IsRaised clear_repair store card kind old reply e live (inl h) bounded counts =
      ground arith

  reply-IsRaised :
      (store : Store) (card : CardRow) (kind : ProtocolKind) (old : Option RepairEntry)
      (reply : MalformedReply)
      → has_mode is_blocked old ≡ false
      → (has_mode is_escalated old ≡ true) ⊎ (kind ≡ reply.kind)
      → IsBounded old
      → (recorded_reply available wording store card kind old reply).duplicate ≡ false
      → IsRaised old
          (repair_of kind (recorded_reply available wording store card kind old reply).card)
  reply-IsRaised store card kind none reply live (inl h) bounded counts = ground arith
  reply-IsRaised store card kind none reply live (inr own) bounded counts =
      counted_here store card kind none reply own refl bounded
  reply-IsRaised store card kind (some old) reply live own bounded counts =
      by_mode-IsRaised old.mode store card kind old reply refl live own bounded counts

  -- Before a recovery is requested, a counted reply raises the repair.
  pub record_reply-IsRaised :
      (store : Store) (input card : CardRow) (reply : MalformedReply)
      → IsBounded (repair_of (answered_kind card reply) card)
      → (record_reply available wording store input card reply).duplicate ≡ false
      → IsRaised (repair_of (answered_kind card reply) card) (
          repair_of
            (answered_kind card reply)
            (record_reply available wording store input card reply).card)
  unfolding record_reply
  record_reply-IsRaised store input card reply bounded counts =
      let kind = answered_kind card reply in
      elim (Bool-cases (reply_counts store input card (repair_of kind card) reply)) [
        | inl counted ↦ rw counted (
            reply-IsRaised store card kind (repair_of kind card) reply
              (live store input card (repair_of kind card) reply counted)
              (answered_kind-cases card reply) bounded (rw counted at counts))
        | inr duplicate ↦ absurd (false≢true (sym (rw duplicate at counts)))
      ]
