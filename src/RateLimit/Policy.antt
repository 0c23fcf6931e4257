-- ===== src/RateLimit/Policy.antt =====
-- rate-limit.ts: which policy a request falls under, and which client it is counted for. The
-- environment's numbers, as `Number` and `Math.round` read them, are a parameter.
use megacorps.Prelude.{
  ℕ, Bool, false, Option, none, some, List, [], ◌∷◌, ◌&&◌, ◌||◌, not, keep, is_empty, get_or,
  if◌then◌else◌, ◌==◌, Text, text, text_eq, trim, map, starts_with, ends_with,
}

pub record RateLimitPolicy : Type 0 where
  pub key : Text
  pub limit : ℕ
  pub window_ms : ℕ

-- `value === '1' || ...`.
unfoldable pub is_on : Option Text → Bool
is_on none = false
is_on (some v) =
    text_eq v (text "1")
    || (text_eq v (text "true") || (text_eq v (text "yes") || text_eq v (text "on")))

-- The process's environment: the texts that are compared, and the numbers that are finite and positive.
pub record Environment : Type 0 where
  pub rate_limit_enabled : Option Text
  pub trust_proxy : Option Text
  pub number : Text → Option ℕ

unfoldable pub env_number : Environment → Text → ℕ → ℕ
env_number env name fallback = get_or (env.number name) fallback

abbrev pub is_disabled : Option Text → Bool
is_disabled none = false
is_disabled (some v) = text_eq v (text "false")

unfoldable pub policy : Environment → Text → Text → ℕ → RateLimitPolicy
policy env key variable fallback = record {
  key = key;
  limit = env_number env variable fallback;
  window_ms = env_number env (text "RATE_LIMIT_WINDOW_MS") 60000;
}

unfoldable pub is_write : Text → Bool
is_write method =
    text_eq method (text "POST") || (text_eq method (text "PUT") || text_eq method (text "DELETE"))

unfoldable pub rate_limit_policy_for_path : Environment → Text → Text → Option RateLimitPolicy
unfolding starts_with ends_with
rate_limit_policy_for_path env method path =
    if is_disabled env.rate_limit_enabled
    then none
    else if text_eq path (text "/health") || starts_with path (text "/api/help")
    then none
    else if starts_with path (text "/api/auth/")
    then some (policy env (text "auth") (text "RATE_LIMIT_AUTH_PER_MINUTE") 12)
    else if starts_with path (text "/api/chat/") && text_eq method (text "GET")
    then some (policy env (text "chat-read") (text "RATE_LIMIT_CHAT_READ_PER_MINUTE") 600)
    else if starts_with path (text "/api/chat/")
    then some (policy env (text "chat") (text "RATE_LIMIT_CHAT_PER_MINUTE") 40)
    else if starts_with path (text "/api/webhook/")
    then some (policy env (text "webhook") (text "RATE_LIMIT_WEBHOOK_PER_MINUTE") 120)
    else if starts_with path (text "/api/runner/")
    then some (policy env (text "runner") (text "RATE_LIMIT_RUNNER_PER_MINUTE") 240)
    else if starts_with path (text "/api/agent/")
    then some (policy env (text "agent-session") (text "RATE_LIMIT_AGENT_SESSION_PER_MINUTE") 240)
    else if ends_with path (text "/test-connection") || text_eq path (text "/api/cron/run")
    then some (policy env (text "operator") (text "RATE_LIMIT_OPERATOR_PER_MINUTE") 20)
    else if is_write method
    then some (policy env (text "write") (text "RATE_LIMIT_WRITE_PER_MINUTE") 120)
    else some (policy env (text "read") (text "RATE_LIMIT_READ_PER_MINUTE") 600)

-- `header.split(',')`.
abbrev pub onto_first : ℕ → List Text → List Text
onto_first c [] = (c ∷ []) ∷ []
onto_first c (t ∷ ts) = (c ∷ t) ∷ ts

unfoldable pub split_commas : Text → List Text
split_commas [] = [] ∷ []
split_commas (c ∷ s) = let rest = split_commas s in if c == 44 then [] ∷ rest else onto_first c rest

unfoldable pub hops_of : Text → List Text
hops_of header = keep (λ hop. not (is_empty hop)) (map trim (split_commas header))

abbrev pub last_or : Text → List Text → Text
last_or d [] = d
last_or d (t ∷ ts) = last_or t ts

-- A header that occurs once, or an array of its values.
pub data HeaderValue : Type 0 where
  absent : HeaderValue
  single : Text → HeaderValue
  several : List Text → HeaderValue

-- `Array.isArray(forwarded) ? forwarded[forwarded.length - 1] : forwarded`, `[]` for a header that is not there.
unfoldable pub header_text : HeaderValue → Text
header_text absent = []
header_text (single t) = t
header_text (several ts) = last_or [] ts

abbrev pub non_empty_or : Text → Text → Text
non_empty_or [] d = d
non_empty_or (c ∷ s) d = c ∷ s

-- `hops[hops.length - 1] || request.ip || 'unknown'`.
unfoldable pub client_key : Environment → HeaderValue → (ip : Text) → Text
client_key env forwarded ip =
    let header = if is_on env.trust_proxy then header_text forwarded else [] in
    non_empty_or (last_or [] (hops_of header)) (non_empty_or ip (text "unknown"))
