-- ===== src/Examples/Limits.antt =====
-- A burst of chat requests, of which two a minute are allowed, and a client behind a proxy.
use megacorps.Prelude.{
  ℕ, true, false, none, some, List, [], ◌∷◌, ◌++◌, ◌≡◌, ◌≤◌, refl, Text, text, trim, arith,
  is_empty,
}
use megacorps.RateLimit.Policy.{
  RateLimitPolicy, is_on, Environment, split_commas, hops_of, single, client_key,
}
use megacorps.RateLimit.Buckets.{Limiter, bucket_key, Request, serve}
use megacorps.RateLimit.Windows.{granted, granted-le}
use megacorps.RateLimit.Sweeping.{replies, serve-eq-replies}
use megacorps.RateLimit.Spoofing.{client_key-forged}

abbrev twice : RateLimitPolicy
twice = record { key = text "chat"; limit = 2; window_ms = 60000 }

abbrev fresh : Limiter
fresh = record { buckets = λ key. none; last_bucket_sweep = 0 }

abbrev at_time : ℕ → Request
at_time now = record { time = now; policy = twice; client = text "10.0.0.1" }

abbrev burst : List Request
burst = at_time 100 ∷ at_time 200 ∷ at_time 300 ∷ []

abbrev own_key : Text
own_key = bucket_key twice (text "10.0.0.1")

granted-le_example : granted own_key fresh burst ≤ 2
granted-le_example =
    granted-le own_key 2 60000 50 burst fresh
      (
        record { since = omega arith; before = omega arith; limited = λ h. (refl, refl) },
        (
          record { since = omega arith; before = omega arith; limited = λ h. (refl, refl) },
          (record { since = omega arith; before = omega arith; limited = λ h. (refl, refl) }, tt),
        ),
      )
      refl

serve-eq-replies_example : serve fresh burst ≡ replies fresh.buckets burst
serve-eq-replies_example =
    serve-eq-replies fresh 50 burst (omega arith, (omega arith, (omega arith, tt)))

abbrev behind_proxy : Environment
behind_proxy = record {
  rate_limit_enabled = none;
  trust_proxy = some (text "true");
  number = λ name. none;
}

proxy_is_trusted : is_on behind_proxy.trust_proxy ≡ true
unfolding is_on
proxy_is_trusted = refl

address_is_present : is_empty (hops_of (text "10.0.0.1")) ≡ false
unfolding hops_of split_commas trim
address_is_present = refl

client_key-forged_example :
    client_key behind_proxy (single (text "1.2.3.4" ++ 44 ∷ text "10.0.0.1")) (text "127.0.0.1")
    ≡ client_key behind_proxy (single (text "10.0.0.1")) (text "127.0.0.1")
client_key-forged_example =
    client_key-forged behind_proxy (text "1.2.3.4") (text "10.0.0.1") (text "127.0.0.1")
      proxy_is_trusted address_is_present
