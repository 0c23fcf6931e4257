-- ===== src/Protocol/Keeps.antt =====
-- What a malformed reply leaves of the card's recovery.
use megacorps.Prelude.{
  ℕ, ◌≡◌, refl, sym, subst, Bool, true, false, Option, none, some, if◌then◌else◌, ◌==◌, not, ◌&&◌,
  same, Text, Bool-cases, inl, inr,
}
use megacorps.Recovery.Store.{
  RepairMode, same_session, fresh_context, escalated, helped, blocked_repair, clear_repair,
  RepairEntry, CardRow, AgentRow, Store,
}
use megacorps.Recovery.Request.{request_card_recovery}
use megacorps.Recovery.Rounds.{
  WellFormedState, WellFormedCard, request_card_recovery-WellFormedCard,
}
use megacorps.Protocol.Repair.{
  ProtocolKind, dispatch_reply, review_reply, repair_of, with_repair, MalformedReply, Feedback,
  Recorded, help_failed, correction_failed, reply_counts,
}
use megacorps.Protocol.Record.{
  answered_kind, counted_reply, recorded_by_mode, recorded_reply, record_reply, protocol_failure,
  ends_repair, handed_over, live_row, after_reply, record_on, record_protocol_failure,
}

with_repair-recovery :
    (kind : ProtocolKind) (entry : RepairEntry) (card : CardRow)
    → (with_repair kind entry card).recovery ≡ card.recovery
with_repair-recovery dispatch_reply entry card = refl
with_repair-recovery review_reply entry card = refl

live_row-WellFormedCard :
    (id : ℕ) (row : Option CardRow) → WellFormedCard row → WellFormedCard (live_row id row)
live_row-WellFormedCard id none w = tt
live_row-WellFormedCard id (some row) w = elim (Bool-cases (row.id == id && not row.deleted)) [
  | inl here ↦ rw here w
  | inr other ↦ rw other tt
]

one_of :
    (b c : Bool) (x y z : Store × Recorded)
    → WellFormedCard x.0.card
    → WellFormedCard y.0.card
    → WellFormedCard z.0.card
    → WellFormedCard (if b then x else if c then y else z).0.card
one_of true c x y z u v w = u
one_of false true x y z u v w = v
one_of false false x y z u v w = w

pub handed_over-store :
    (r : Recorded) (found : Store × Option CardRow) → (handed_over r found).0 ≡ found.0
handed_over-store r (store, none) = refl
handed_over-store r (store, some card) = refl

module _ (available : AgentRow → Bool) (wording : Feedback → Text) where
  help_failed-recovery :
      (card : CardRow) (kind : ProtocolKind) (old : RepairEntry) (reply : MalformedReply)
      → (help_failed wording card kind old reply).card.recovery ≡ card.recovery
  unfolding help_failed
  help_failed-recovery card kind old reply =
      elim (Bool-cases (same old.fallback_id (some reply.actor.id))) [
        | inl here ↦ rw here (with_repair-recovery kind _ _)
        | inr other ↦ rw other refl
      ]

  by_mode-recovery :
      (m : RepairMode) (store : Store) (card : CardRow) (kind : ProtocolKind) (old : RepairEntry)
      (reply : MalformedReply)
      → (recorded_by_mode available wording m store card kind old reply).card.recovery
        ≡ card.recovery
  unfolding correction_failed counted_reply
  by_mode-recovery escalated store card kind old reply = help_failed-recovery card kind old reply
  by_mode-recovery helped store card kind old reply = with_repair-recovery kind _ _
  by_mode-recovery same_session store card kind old reply = with_repair-recovery reply.kind _ _
  by_mode-recovery fresh_context store card kind old reply = with_repair-recovery reply.kind _ _
  by_mode-recovery blocked_repair store card kind old reply = with_repair-recovery reply.kind _ _
  by_mode-recovery clear_repair store card kind old reply = with_repair-recovery reply.kind _ _

  reply-recovery :
      (store : Store) (card : CardRow) (kind : ProtocolKind) (old : Option RepairEntry)
      (reply : MalformedReply)
      → (recorded_reply available wording store card kind old reply).card.recovery ≡ card.recovery
  unfolding counted_reply
  reply-recovery store card kind none reply = with_repair-recovery reply.kind _ _
  reply-recovery store card kind (some old) reply =
      by_mode-recovery old.mode store card kind old reply

  pub record_reply-recovery :
      (store : Store) (input card : CardRow) (reply : MalformedReply)
      → (record_reply available wording store input card reply).card.recovery ≡ card.recovery
  unfolding record_reply
  record_reply-recovery store input card reply =
      let kind = answered_kind card reply in
      elim (Bool-cases (reply_counts store input card (repair_of kind card) reply)) [
        | inl counted ↦ rw counted (reply-recovery store card kind (repair_of kind card) reply)
        | inr duplicate ↦ rw duplicate refl
      ]

  module _ (event_of : ℕ → ℕ) where
    after_reply-WellFormedCard :
        (store : Store) (input : CardRow) (reply : MalformedReply) (r : Recorded)
        → WellFormedCard store.card
        → WellFormedState r.card.recovery
        → WellFormedCard (after_reply available wording event_of store input reply r).0.card
    after_reply-WellFormedCard store input reply r w v =
        let written = record store { card = some r.card } in
        let recovered =
          request_card_recovery written r.card (protocol_failure event_of input reply) in
        let handed : WellFormedCard (handed_over r recovered).0.card =
          subst (λ (s : Store). WellFormedCard s.card) (sym (handed_over-store r recovered))
            (request_card_recovery-WellFormedCard written r.card
              (protocol_failure event_of input reply) v) in
        one_of r.duplicate (ends_repair r.mode) (store, r) (handed_over r recovered) (written, r) w
          handed v

    record_on-WellFormedCard :
        (store : Store) (input : CardRow) (reply : MalformedReply) (row : Option CardRow)
        → WellFormedCard store.card
        → WellFormedCard row
        → WellFormedCard (record_on available wording event_of store input reply row).0.card
    record_on-WellFormedCard store input reply none w v = w
    record_on-WellFormedCard store input reply (some card) w v =
        after_reply-WellFormedCard store input reply
          (record_reply available wording store input card reply) w
          (subst WellFormedState (sym (record_reply-recovery store input card reply)) v)

    pub record_protocol_failure-WellFormedCard :
        (store : Store) (input : CardRow) (reply : MalformedReply)
        → WellFormedCard store.card
        → WellFormedCard
            (record_protocol_failure available wording event_of store input reply).0.card
    unfolding record_protocol_failure
    record_protocol_failure-WellFormedCard store input reply w =
        record_on-WellFormedCard store input reply (live_row input.id store.card) w
          (live_row-WellFormedCard input.id store.card w)
