-- ===== src/Protocol/Ends.antt =====
-- What the whole transaction of `recordProtocolFailure` uses up, with the recovery that it requests.
use megacorps.Prelude.{
  ℕ, suc, ◌+◌, ◌≤◌, ◌≡◌, ◌⊎◌, inl, inr, refl, sym, ap, subst, ◌∙◌, Bool, true, false, Option, none,
  some, arith, Bool-cases, Text, if◌then◌else◌,
}
use mathlib.Core.Bool.{false≢true}
use mathlib.Core.Option.{some-injective}
use megacorps.Recovery.Store.{AgentRow, CardRow, Store, locked}
use megacorps.Recovery.Request.{
  Failure, round_of, next_owner, next_recovery, recovered_card, request_allowed, commit_recovery,
  recovery_on, request_card_recovery,
}
use megacorps.Recovery.Rounds.{locked-some, next_owner-fresh}
use megacorps.Protocol.Repair.{
  ProtocolKind, dispatch_reply, review_reply, repair_of, MalformedReply, Feedback, Recorded,
}
use megacorps.Protocol.Record.{
  answered_kind, record_reply, protocol_failure, ends_repair, handed_over, live_row, after_reply,
  record_on, record_protocol_failure,
}
use megacorps.Protocol.Bounded.{IsBounded, IsRaised, record_reply-IsRaised}
use megacorps.Protocol.Keeps.{handed_over-store, record_reply-recovery}

-- Either the repair has come a stage further, or the card has gone to a manager in one more of its
-- three rounds of recovery.
abbrev pub IsAdvanced : ProtocolKind → CardRow → CardRow → Type 0
IsAdvanced kind card after =
    IsRaised (repair_of kind card) (repair_of kind after)
    ⊎ ((round_of after.recovery ≡ suc (round_of card.recovery))
        × (round_of after.recovery ≤ 3)
        × IsBounded (repair_of kind after))

recovered_card-IsAdvanced :
    (store : Store) (kind : ProtocolKind) (card c : CardRow) (failure : Failure) (owner : Option ℕ)
    → next_owner store c failure ≡ owner
    → c.recovery ≡ card.recovery
    → IsRaised (repair_of kind card) (repair_of kind c)
    → IsAdvanced kind card (recovered_card store c failure owner)
unfolding recovered_card next_recovery
recovered_card-IsAdvanced store dispatch_reply card c failure none e kept h = inl h
recovered_card-IsAdvanced store review_reply card c failure none e kept h = inl h
recovered_card-IsAdvanced store kind card c failure (some id) e kept h =
    let counted : round_of c.recovery + 1 ≡ suc (round_of card.recovery) =
      omega (arith, ap round_of kept) in
    inr (counted, omega (arith, (next_owner-fresh store c failure id e).0), bounded kind h)
  where
    bounded :
        (k : ProtocolKind)
        → IsRaised (repair_of k card) (repair_of k c)
        → IsBounded (repair_of k (recovered_card store c failure (some id)))
    bounded dispatch_reply r = r.2
    bounded review_reply r = omega arith

-- A row that advances, which the store holds.
abbrev Holds : ProtocolKind → CardRow → Store → Type 0
Holds kind card s = (after : CardRow) × (s.card ≡ some after) × IsAdvanced kind card after

recovery_on-Holds :
    (store : Store) (kind : ProtocolKind) (card c : CardRow) (failure : Failure)
    (row : Option CardRow)
    → store.card ≡ some c
    → locked c store.card ≡ row
    → c.recovery ≡ card.recovery
    → IsRaised (repair_of kind card) (repair_of kind c)
    → Holds kind card (recovery_on store c failure row).0
unfolding commit_recovery
recovery_on-Holds store kind card c failure none e found kept h = (c, e, inl h)
recovery_on-Holds store kind card c failure (some d) e found kept h =
    let same_row : c ≡ d = some-injective c d (sym e ∙ locked-some c store.card d found) in
    elim (Bool-cases (request_allowed store d c failure)) [
      | inl ok ↦ rw ok (
        recovered_card store d failure (next_owner store d failure),
        refl,
        recovered_card-IsAdvanced store kind card d failure (next_owner store d failure) refl
            (subst (λ (x : CardRow). x.recovery ≡ card.recovery) same_row kept)
            (subst (λ x. IsRaised (repair_of kind card) (repair_of kind x)) same_row h),
      )
      | inr refused ↦ rw refused (c, e, inl h)
    ]

request_card_recovery-Holds :
    (store : Store) (kind : ProtocolKind) (card c : CardRow) (failure : Failure)
    → store.card ≡ some c
    → c.recovery ≡ card.recovery
    → IsRaised (repair_of kind card) (repair_of kind c)
    → Holds kind card (request_card_recovery store c failure).0
unfolding request_card_recovery
request_card_recovery-Holds store kind card c failure e kept h =
    recovery_on-Holds store kind card c failure (locked c store.card) e refl kept h

module _ (available : AgentRow → Bool) (wording : Feedback → Text) (event_of : ℕ → ℕ) where
  after_reply-Holds :
      (store : Store) (input card : CardRow) (reply : MalformedReply) (kind : ProtocolKind)
      (r : Recorded)
      → r.duplicate ≡ false
      → r.card.recovery ≡ card.recovery
      → IsRaised (repair_of kind card) (repair_of kind r.card)
      → Holds kind card (after_reply available wording event_of store input reply r).0
  after_reply-Holds store input card reply kind r counts kept h =
      let written = record store { card = some r.card } in
      let failure = protocol_failure event_of input reply in
      let recovered = request_card_recovery written r.card failure in
      let held : Holds kind card (handed_over r recovered).0 =
        subst (Holds kind card) (sym (handed_over-store r recovered))
          (request_card_recovery-Holds written kind card r.card failure refl kept h) in
      either_way r.duplicate (ends_repair r.mode) (handed_over r recovered) (written, r) counts held
        (r.card, refl, inl h)
    where
      either_way :
          (duplicate ends : Bool) (y z : Store × Recorded)
          → duplicate ≡ false
          → Holds kind card y.0
          → Holds kind card z.0
          → Holds kind card (if duplicate then (store, r) else if ends then y else z).0
      either_way true ends y z e u v = absurd (false≢true (sym e))
      either_way false true y z e u v = u
      either_way false false y z e u v = v

  after_reply-duplicate :
      (store : Store) (input : CardRow) (reply : MalformedReply) (r : Recorded)
      → (after_reply available wording event_of store input reply r).1.duplicate ≡ r.duplicate
  after_reply-duplicate store input reply r =
      let written = record store { card = some r.card } in
      either_way r.duplicate (ends_repair r.mode)
        (handed_over r
          (request_card_recovery written r.card (protocol_failure event_of input reply)))
        (written, r) (handed_over-duplicate _) refl
    where
      either_way :
          (duplicate ends : Bool) (y z : Store × Recorded)
          → y.1.duplicate ≡ r.duplicate
          → z.1.duplicate ≡ r.duplicate
          → (if duplicate then (store, r) else if ends then y else z).1.duplicate ≡ r.duplicate
      either_way true ends y z u v = refl
      either_way false true y z u v = u
      either_way false false y z u v = v

      handed_over-duplicate :
          (found : Store × Option CardRow) → (handed_over r found).1.duplicate ≡ r.duplicate
      handed_over-duplicate (s, none) = refl
      handed_over-duplicate (s, some c) = refl

  -- A malformed reply that is counted, that is one whose transaction finds the row and does not
  -- answer that it is a duplicate, uses up something that is bounded, if at most three failures were counted before:
  -- the repair of its kind goes at least one stage further, of six in all, or the card is handed to a
  -- manager in one more of at most three rounds of recovery; and again at most three failures are
  -- counted.
  pub record_protocol_failure-IsAdvanced :
      (store : Store) (input card : CardRow) (reply : MalformedReply) (result : Recorded)
      → live_row input.id store.card ≡ some card
      → (record_protocol_failure available wording event_of store input reply).1 ≡ some result
      → result.duplicate ≡ false
      → IsBounded (repair_of (answered_kind card reply) card)
      → (after : CardRow) × ((record_protocol_failure available wording event_of store input
            reply).0.card
          ≡ some after)
        × IsAdvanced (answered_kind card reply) card after
  unfolding record_protocol_failure
  record_protocol_failure-IsAdvanced store input card reply result found answer counts bounded =
      let r = record_reply available wording store input card reply in
      let answered : (after_reply available wording event_of store input reply r).1 ≡ result =
        some-injective _ result (
          subst
            (λ row. (record_on available wording event_of store input reply row).1 ≡ some result)
            found answer) in
      let counted : r.duplicate ≡ false =
        sym (after_reply-duplicate store input reply r)
        ∙ ap (λ (x : Recorded). x.duplicate) answered
        ∙ counts in
      subst
        (λ row.
          Holds (answered_kind card reply) card
            (record_on available wording event_of store input reply row).0)
        (sym found)
        (after_reply-Holds store input card reply (answered_kind card reply) r counted
          (record_reply-recovery available wording store input card reply)
          (record_reply-IsRaised available wording store input card reply bounded counted))
