-- ===== src/RateLimit/Sweeping.antt =====
-- The limiter against its specification, which never drops a bucket.
use megacorps.Prelude.{
  ℕ, ◌+◌, ◌≤◌, ◌≡◌, refl, sym, ap, ◌∙◌, Option, none, some, List, [], ◌∷◌, ltb, Text, text_eq,
  arith, Bool-cases, inl, inr,
}
use megacorps.RateLimit.Buckets.{
  Bucket, Buckets, Limiter, while_open, sweep_expired_buckets, set_bucket, counted, Reply, reply_of,
  bucket_key, on_request, Request, serve,
}

-- The specification: each reply counts the requests since the client's window opened.
unfoldable pub replies : Buckets → List Request → List Reply
replies buckets [] = []
replies buckets (r ∷ rest) =
    let key = bucket_key r.policy r.client in
    let bucket = counted r.time r.policy (while_open r.time (buckets key)) in
    reply_of r.time r.policy bucket ∷ replies (set_bucket buckets key bucket) rest

-- The clock does not go back.
abbrev pub InOrder : ℕ → List Request → Type 0
InOrder now [] = Unit
InOrder now (r ∷ rest) = (now ≤ r.time) × InOrder r.time rest

-- The two have the same open buckets.
abbrev Agree : ℕ → Buckets → Buckets → Type 0
Agree now bs cs = (key : Text) → while_open now (bs key) ≡ while_open now (cs key)

while_open-twice :
    (now later : ℕ) (o : Option Bucket)
    → now ≤ later
    → while_open later (while_open now o) ≡ while_open later o
while_open-twice now later none h = refl
while_open-twice now later (some b) h = ground arith

Agree-later : (now later : ℕ) (bs cs : Buckets) → now ≤ later → Agree now bs cs → Agree later bs cs
Agree-later now later bs cs h agree key =
    sym (while_open-twice now later (bs key) h)
    ∙ ap (while_open later) (agree key)
    ∙ while_open-twice now later (cs key) h

sweep-Agree : (now : ℕ) (s : Limiter) → Agree now (sweep_expired_buckets now s).buckets s.buckets
unfolding sweep_expired_buckets
sweep-Agree now s key = elim (Bool-cases (ltb now (s.last_bucket_sweep + 60000))) [
  | inl early ↦ rw early refl
  | inr due ↦ rw due (while_open-twice now now (s.buckets key) (omega arith))
]

set_bucket-Agree :
    (now : ℕ) (bs cs : Buckets) (key : Text) (b : Bucket)
    → Agree now bs cs
    → Agree now (set_bucket bs key b) (set_bucket cs key b)
unfolding set_bucket
set_bucket-Agree now bs cs key b agree k = elim (Bool-cases (text_eq k key)) [
  | inl same ↦ rw same refl
  | inr other ↦ rw other (agree k)
]

serve-Agree :
    (rs : List Request) (now : ℕ) (s : Limiter) (bs : Buckets)
    → Agree now s.buckets bs
    → InOrder now rs
    → serve s rs ≡ replies bs rs
unfolding serve replies on_request
serve-Agree [] now s bs agree order = refl
serve-Agree (r ∷ rest) now s bs agree (since, order) =
    let swept : Agree r.time (sweep_expired_buckets r.time s).buckets bs =
      λ key. sweep-Agree r.time s key ∙ Agree-later now r.time s.buckets bs since agree key in
    let key = bucket_key r.policy r.client in
    let same : counted r.time r.policy
          (while_open r.time ((sweep_expired_buckets r.time s).buckets key))
        ≡ counted r.time r.policy (while_open r.time (bs key)) =
      ap (counted r.time r.policy) (swept key) in
    rw same (
      ap
        (λ more.
          reply_of r.time r.policy (counted r.time r.policy (while_open r.time (bs key))) ∷ more)
        (serve-Agree rest r.time _
          (set_bucket bs key (counted r.time r.policy (while_open r.time (bs key))))
          (set_bucket-Agree r.time (sweep_expired_buckets r.time s).buckets bs key _ swept) order))

-- The sweep cannot be seen: with a clock that does not go back, every reply is the one of the
-- specification, which keeps each bucket for ever.
pub serve-eq-replies :
    (s : Limiter) (now : ℕ) (rs : List Request) → InOrder now rs → serve s rs ≡ replies s.buckets rs
serve-eq-replies s now rs order = serve-Agree rs now s s.buckets (λ key. refl) order
