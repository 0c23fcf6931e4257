-- ===== src/RateLimit/Windows.antt =====
-- How many requests of one client are let through in a window.
use megacorps.Prelude.{
  ℕ, suc, ◌+◌, ◌-◌, ◌≤◌, ◌<◌, ◌≡◌, refl, sym, ap, ◌∙◌, Bool, true, false, ◌&&◌, not, Option, none,
  some, is_some, List, [], ◌∷◌, ltb, Text, text_eq, text_eq→≡, arith, All, Bool-cases, inl, inr,
}
use megacorps.RateLimit.Buckets.{
  Bucket, Limiter, while_open, sweep_expired_buckets, set_bucket, counted, reply_of, bucket_key,
  on_request, Request,
}

abbrev pub same_bucket : Text → Request → Bool
same_bucket key r = text_eq key (bucket_key r.policy r.client)

abbrev one_if : Bool → ℕ
one_if true = 1
one_if false = 0

-- The requests counted in one bucket that are let through.
unfoldable pub granted : Text → Limiter → List Request → ℕ
granted key s [] = 0
granted key s (r ∷ rest) =
    let after = on_request r.time r.policy r.client s in
    one_if (same_bucket key r && not (is_some after.1.retry_after)) + granted key after.0 rest

-- A request in the window that starts at `start`; those of the bucket have its limit and window.
pub record InWindow (key : Text) (limit window start : ℕ) (r : Request) : Type 0 where
  pub since : start ≤ r.time
  pub before : r.time < start + window
  pub limited : same_bucket key r ≡ true → (r.policy.limit ≡ limit) × (r.policy.window_ms ≡ window)

module _ (key : Text) (now : ℕ) (s : Limiter) where
  sweep-open :
      (b : Bucket)
      → s.buckets key ≡ some b
      → now < b.reset_at
      → (sweep_expired_buckets now s).buckets key ≡ some b
  unfolding sweep_expired_buckets
  sweep-open b e h = elim (Bool-cases (ltb now (s.last_bucket_sweep + 60000))) [
    | inl early ↦ rw early e
    | inr due ↦ rw (due, e) (ground arith)
  ]

  while_open-later :
      (start : ℕ) (o : Option Bucket)
      → while_open start o ≡ none
      → start ≤ now
      → while_open now o ≡ none
  while_open-later start none e h = refl
  while_open-later start (some b) e h = ground arith

  while_open-again :
      (start : ℕ) (o : Option Bucket)
      → while_open start o ≡ none
      → while_open start (while_open now o) ≡ none
  while_open-again start none e = refl
  while_open-again start (some b) e = ground arith

  sweep-closed :
      (start : ℕ)
      → while_open start (s.buckets key) ≡ none
      → while_open start ((sweep_expired_buckets now s).buckets key) ≡ none
  unfolding sweep_expired_buckets
  sweep-closed start e = elim (Bool-cases (ltb now (s.last_bucket_sweep + 60000))) [
    | inl early ↦ rw early e
    | inr due ↦ rw due (while_open-again start (s.buckets key) e)
  ]

-- The bucket that a request is counted in, after it.
own_bucket : Limiter → Request → Bucket
own_bucket s r =
    counted r.time r.policy
      (while_open r.time ((sweep_expired_buckets r.time s).buckets (bucket_key r.policy r.client)))

module _ (key : Text) (s : Limiter) (r : Request) where
  on_request-other :
      same_bucket key r ≡ false
      → (on_request r.time r.policy r.client s).0.buckets key
        ≡ (sweep_expired_buckets r.time s).buckets key
  unfolding on_request set_bucket
  on_request-other e = rw e refl

  on_request-same :
      same_bucket key r ≡ true
      → (on_request r.time r.policy r.client s).0.buckets key ≡ some (own_bucket s r)
  unfolding on_request set_bucket own_bucket
  on_request-same e = rw e refl

  own_bucket-counted :
      same_bucket key r ≡ true
      → own_bucket s r
        ≡ counted r.time r.policy (while_open r.time ((sweep_expired_buckets r.time s).buckets key))
  unfolding own_bucket
  own_bucket-counted e =
      ap
        (λ k.
          counted r.time r.policy (while_open r.time ((sweep_expired_buckets r.time s).buckets k)))
        (sym (text_eq→≡ key (bucket_key r.policy r.client) e))

  on_request-retry :
      is_some (on_request r.time r.policy r.client s).1.retry_after
      ≡ ltb r.policy.limit (own_bucket s r).count
  unfolding on_request reply_of own_bucket
  on_request-retry = elim (Bool-cases (ltb r.policy.limit (own_bucket s r).count)) [
    | inl over ↦ rw over refl
    | inr within ↦ rw within refl
  ]

while_open-open :
    (now : ℕ) (b : Bucket) (o : Option Bucket)
    → o ≡ some b
    → now < b.reset_at
    → while_open now o ≡ some b
while_open-open now b o e h = rw e (ground arith)

module _ (key : Text) (s : Limiter) (r : Request) (rest : List Request) where
  granted-same :
      same_bucket key r ≡ true
      → granted key s (r ∷ rest)
        ≡ one_if (not (ltb r.policy.limit (own_bucket s r).count))
          + granted key (on_request r.time r.policy r.client s).0 rest
  unfolding granted
  granted-same e = rw e (
      ap (λ over. one_if (not over) + granted key (on_request r.time r.policy r.client s).0 rest)
        (on_request-retry key s r))

  granted-other :
      same_bucket key r ≡ false
      → granted key s (r ∷ rest) ≡ granted key (on_request r.time r.policy r.client s).0 rest
  unfolding granted
  granted-other e = rw e (omega arith)

module _ (key : Text) (limit window start : ℕ) where
  granted-open :
      (rs : List Request) (s : Limiter) (b : Bucket)
      → All (InWindow key limit window start) rs
      → s.buckets key ≡ some b
      → start + window ≤ b.reset_at
      → granted key s rs ≤ limit - b.count
  unfolding granted
  granted-open [] s b h e after = omega arith
  granted-open (r ∷ rest) s b (w, h) e after =
      let in_time : r.time < b.reset_at = omega (arith, w.before, after) in
      let kept = sweep-open key r.time s b e in_time in
      elim (Bool-cases (same_bucket key r)) [
        | inl mine ↦
            let counts : own_bucket s r ≡ record b { count = suc b.count } =
              own_bucket-counted key s r mine
              ∙ ap (counted r.time r.policy) (while_open-open r.time b _ kept in_time) in
            let later =
              granted-open rest (on_request r.time r.policy r.client s).0
                (record b { count = suc b.count }) h (on_request-same key s r mine ∙ ap some counts)
                after in
            ground (
              arith,
              later,
              granted-same key s r rest mine,
              ap (λ (x : Bucket). x.count) counts,
              (w.limited mine).0,
            )
        | inr other ↦ rw (granted-other key s r rest other) (
            granted-open rest (on_request r.time r.policy r.client s).0 b h
              (on_request-other key s r other ∙ kept) after)
      ]

  -- From a moment at which a client has no open bucket, at most `limit` of its requests are let
  -- through in the window that follows, however they are interleaved with other clients' requests.
  pub granted-le :
      (rs : List Request) (s : Limiter)
      → All (InWindow key limit window start) rs
      → while_open start (s.buckets key) ≡ none
      → granted key s rs ≤ limit
  unfolding granted
  granted-le [] s h e = omega arith
  granted-le (r ∷ rest) s (w, h) e =
      let closed = sweep-closed key r.time s start e in
      elim (Bool-cases (same_bucket key r)) [
        | inl mine ↦
            let counts : own_bucket s r
                ≡ record { count = 1; reset_at = r.time + r.policy.window_ms } =
              own_bucket-counted key s r mine
              ∙ ap (counted r.time r.policy)
                  (while_open-later key r.time s start _ closed w.since) in
            let later =
              granted-open rest (on_request r.time r.policy r.client s).0 _ h
                (on_request-same key s r mine ∙ ap some counts)
                (omega (arith, w.since, (w.limited mine).1)) in
            ground (
              arith,
              later,
              granted-same key s r rest mine,
              ap (λ (x : Bucket). x.count) counts,
              (w.limited mine).0,
            )
        | inr other ↦ rw (granted-other key s r rest other) (
            granted-le rest (on_request r.time r.policy r.client s).0 h
              (rw (on_request-other key s r other) closed))
      ]
