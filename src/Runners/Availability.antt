-- ===== src/Runners/Availability.antt =====
-- runner-availability.ts. The cache is part of the state that a call takes and gives back; `stale_ms`
-- is the environment's RUNNER_STALE_MS, `now` the clock.
use megacorps.Prelude.{
  same, ℕ, ◌+◌, Bool, true, false, Option, none, some, List, [], ◌∷◌, ◌&&◌, ◌||◌, not, any, find,
  keep, map, is_empty, contains, get_or, if◌then◌else◌, ltb, ◌==◌, Text, text, text_eq,
}

pub record RuntimeRow : Type 0 where
  pub id : ℕ
  pub company_id : Option ℕ
  pub is_active : Option Bool
  pub name : Text

pub record MachineRunnerRow : Type 0 where
  pub company_id : ℕ
  pub is_deleted : Bool
  pub status : Text
  pub last_heartbeat_at : Option ℕ
  pub supported_runtimes : Option (List Text)
  pub runtime_statuses : Option (List (Text × Text))

-- The tables that are queried.
pub record Registry : Type 0 where
  pub runtimes : List RuntimeRow
  pub runners : List MachineRunnerRow

pub record RuntimeAvailabilityCache : Type 0 where
  pub runtimes : List (ℕ × Option RuntimeRow)
  pub runners_by_company : List (ℕ × List MachineRunnerRow)

abbrev pub create_runtime_availability_cache : RuntimeAvailabilityCache
create_runtime_availability_cache = record { runtimes = []; runners_by_company = [] }

-- `Map.get`, for a map that keeps its latest entries first.
unfoldable pub lookup {ℓ} : {A : Type ℓ} → List (ℕ × A) → ℕ → Option A
lookup [] key = none
lookup (e ∷ rest) key = if e.0 == key then some e.1 else lookup rest key

abbrev pub dash_to_underscore : ℕ → ℕ
dash_to_underscore c = if c == 45 then 95 else c

abbrev pub includes_text : List Text → Text → Bool
includes_text ts t = any (text_eq t) ts

-- `[...new Set(values)]`: a value that occurred before is dropped.
unfoldable pub unique_from : List Text → List Text → List Text
unique_from seen [] = []
unique_from seen (t ∷ ts) =
    let rest = unique_from (t ∷ seen) ts in if includes_text seen t then rest else t ∷ rest

unfoldable pub runtime_match_values : Text → Option Text → List Text
runtime_match_values adapter_type runtime_name = unique_from [] (
    keep (λ t. not (is_empty t))
      (adapter_type ∷ get_or runtime_name [] ∷ map dash_to_underscore adapter_type ∷ []))

-- `Math.max(15_000, RUNNER_STALE_MS)`.
abbrev pub stale_after : ℕ → ℕ
stale_after stale_ms = if ltb 15000 stale_ms then stale_ms else 15000

abbrev pub is_fresh : ℕ → ℕ → Option ℕ → Bool
is_fresh stale_ms now none = false
is_fresh stale_ms now (some at) = ltb now (at + stale_after stale_ms)

unfoldable pub list_online_runners : ℕ → Registry → ℕ → List ℕ → List MachineRunnerRow
list_online_runners stale_ms db now companies =
    keep
      (λ (r : MachineRunnerRow).
        contains companies r.company_id
        && (not r.is_deleted
            && (text_eq r.status (text "online") && is_fresh stale_ms now r.last_heartbeat_at)))
      db.runners

abbrev pub status_in : List (Text × Text) → Text → Text
status_in [] value = []
status_in (e ∷ rest) value = if text_eq e.0 value then e.1 else status_in rest value

-- The first status that is set and not empty; `[]` where there is none.
unfoldable pub first_status : List (Text × Text) → List Text → Text
first_status statuses [] = []
first_status statuses (v ∷ vs) =
    let rest = first_status statuses vs in
    if is_empty (status_in statuses v) then rest else status_in statuses v

unfoldable pub supports : List Text → MachineRunnerRow → Bool
supports values runner =
    let status = first_status (get_or runner.runtime_statuses []) values in
    any (includes_text (get_or runner.supported_runtimes [])) values
    && (is_empty status || text_eq status (text "ready"))

abbrev pub is_switched_off : Option Bool → Bool
is_switched_off (some false) = true
is_switched_off _ = false

abbrev pub Cache : Type 0
Cache = Option RuntimeAvailabilityCache

module _ (stale_ms : ℕ) (db : Registry) (now : ℕ) where
  abbrev pub runners_from :
      ℕ → RuntimeAvailabilityCache → Option (List MachineRunnerRow) → List MachineRunnerRow × Cache
  runners_from company cache (some runners) = (runners, some cache)
  runners_from company cache none =
      let runners = list_online_runners stale_ms db now (company ∷ []) in
      (
        runners,
        some (record cache { runners_by_company = (company, runners) ∷ cache.runners_by_company }),
      )

  unfoldable pub online_runners_for_company : ℕ → Cache → List MachineRunnerRow × Cache
  online_runners_for_company company none =
      (list_online_runners stale_ms db now (company ∷ []), none)
  online_runners_for_company company (some cache) =
      runners_from company cache (lookup cache.runners_by_company company)

  unfoldable pub runner_runtime_available : ℕ → Text → Option Text → Cache → Bool × Cache
  runner_runtime_available company adapter_type runtime_name cache =
      let found = online_runners_for_company company cache in
      (
        is_empty found.0 || any (supports (runtime_match_values adapter_type runtime_name)) found.0,
        found.1,
      )

  unfoldable pub runtime_row : ℕ → Option RuntimeRow
  runtime_row id = find (λ (r : RuntimeRow). r.id == id) db.runtimes

  abbrev pub runtime_from :
      ℕ → RuntimeAvailabilityCache → Option (Option RuntimeRow) → Option RuntimeRow × Cache
  runtime_from id cache (some row) = (row, some cache)
  runtime_from id cache none =
      (runtime_row id, some (record cache { runtimes = (id, runtime_row id) ∷ cache.runtimes }))

  unfoldable pub runtime_for : ℕ → Cache → Option RuntimeRow × Cache
  runtime_for id none = (runtime_row id, none)
  runtime_for id (some cache) = runtime_from id cache (lookup cache.runtimes id)

  unfoldable pub with_runtime : ℕ → Text → Option RuntimeRow → Cache → Bool × Cache
  with_runtime company adapter_type none cache = (false, cache)
  with_runtime company adapter_type (some runtime) cache =
      if not (same runtime.company_id (some company)) || is_switched_off runtime.is_active
      then (false, cache)
      else runner_runtime_available company adapter_type (some runtime.name) cache

  unfoldable pub agent_runtime_available : ℕ → Option ℕ → Text → Cache → Bool × Cache
  agent_runtime_available company none adapter_type cache = (true, cache)
  agent_runtime_available company (some id) adapter_type cache =
      let found = runtime_for id cache in with_runtime company adapter_type found.0 found.1
