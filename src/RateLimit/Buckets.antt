-- ===== src/RateLimit/Buckets.antt =====
-- rate-limit.ts: the buckets and what a request does to them. The map of buckets is a function from
-- its keys; a time is in milliseconds.
use megacorps.Prelude.{
  ℕ, suc, ◌+◌, ◌-◌, ◌/◌, Option, none, some, List, [], ◌∷◌, ◌++◌, if◌then◌else◌, ltb, Text, text_eq,
}
use megacorps.RateLimit.Policy.{RateLimitPolicy}

pub record Bucket : Type 0 where
  pub count : ℕ
  pub reset_at : ℕ

abbrev pub Buckets : Type 0
Buckets = Text → Option Bucket

pub record Limiter : Type 0 where
  pub buckets : Buckets
  pub last_bucket_sweep : ℕ

abbrev pub bucket_sweep_interval_ms : ℕ
bucket_sweep_interval_ms = 60000

-- The bucket, unless its window is over.
abbrev pub while_open : ℕ → Option Bucket → Option Bucket
while_open now none = none
while_open now (some b) = if ltb now b.reset_at then some b else none

unfoldable pub sweep_expired_buckets : ℕ → Limiter → Limiter
sweep_expired_buckets now s =
    if ltb now (s.last_bucket_sweep + bucket_sweep_interval_ms)
    then s
    else record { buckets = λ key. while_open now (s.buckets key); last_bucket_sweep = now }

unfoldable pub set_bucket : Buckets → Text → Bucket → Buckets
set_bucket buckets key b k = if text_eq k key then some b else buckets k

-- The bucket that a request is counted in.
abbrev pub counted : ℕ → RateLimitPolicy → Option Bucket → Bucket
counted now p none = record { count = 1; reset_at = now + p.window_ms }
counted now p (some b) = record b { count = suc b.count }

-- `Math.ceil(x / 1000)`.
abbrev pub ceil_seconds : ℕ → ℕ
ceil_seconds ms = (ms + 999) / 1000

-- The headers, and the seconds of a `429` reply.
pub record Reply : Type 0 where
  pub limit : ℕ
  pub remaining : ℕ
  pub reset : ℕ
  pub retry_after : Option ℕ

unfoldable pub reply_of : ℕ → RateLimitPolicy → Bucket → Reply
reply_of now p b = record {
  limit = p.limit;
  remaining = p.limit - b.count;
  reset = ceil_seconds b.reset_at;
  retry_after = if ltb p.limit b.count then some (ceil_seconds (b.reset_at - now)) else none;
}

unfoldable pub bucket_key : RateLimitPolicy → Text → Text
bucket_key p client = p.key ++ (58 ∷ client)

-- The hook's body, for a request that has a policy.
unfoldable pub on_request : ℕ → RateLimitPolicy → Text → Limiter → Limiter × Reply
on_request now p client s =
    let swept = sweep_expired_buckets now s in
    let key = bucket_key p client in
    let bucket = counted now p (while_open now (swept.buckets key)) in
    (record swept { buckets = set_bucket swept.buckets key bucket }, reply_of now p bucket)

pub record Request : Type 0 where
  pub time : ℕ
  pub policy : RateLimitPolicy
  pub client : Text

unfoldable pub serve : Limiter → List Request → List Reply
serve s [] = []
serve s (r ∷ rest) =
    let after = on_request r.time r.policy r.client s in after.1 ∷ serve after.0 rest
