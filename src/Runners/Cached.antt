-- ===== src/Runners/Cached.antt =====
-- What the cache of one loop over many agents changes: nothing.
use megacorps.Prelude.{
  ◌||◌, same, not, ℕ, ◌≡◌, refl, sym, ap, ◌∙◌, Bool, Option, none, some, List, [], ◌∷◌, ◌==◌, ==→≡,
  map, Text, Bool-cases, inl, inr,
}
use mathlib.Core.Option.{some-injective, none-ne-some}
use megacorps.Runners.Availability.{
  RuntimeRow, MachineRunnerRow, Registry, RuntimeAvailabilityCache,
  create_runtime_availability_cache, lookup, list_online_runners, Cache, runners_from,
  online_runners_for_company, runner_runtime_available, runtime_row, runtime_from, runtime_for,
  is_switched_off, with_runtime, agent_runtime_available,
}

-- What a loop asks of one agent.
pub record Probe : Type 0 where
  pub company_id : ℕ
  pub runtime_id : Option ℕ
  pub adapter_type : Text

module _ {A : Type 0} (query : ℕ → A) where
  -- Every entry is what a query would return.
  abbrev pub Agrees : List (ℕ × A) → Type 0
  Agrees entries = (key : ℕ) (a : A) → lookup entries key ≡ some a → a ≡ query key

  Agrees-cons :
      (entries : List (ℕ × A)) (key : ℕ) → Agrees entries → Agrees ((key, query key) ∷ entries)
  unfolding lookup
  Agrees-cons entries key h other a e = elim (Bool-cases (key == other)) [
    | inl same_key ↦
        sym (some-injective (query key) a (rw same_key at e)) ∙ ap query (==→≡ key other same_key)
    | inr differs ↦ h other a (rw differs at e)
  ]

module _ (stale_ms : ℕ) (db : Registry) (now : ℕ) where
  abbrev online : ℕ → List MachineRunnerRow
  online company = list_online_runners stale_ms db now (company ∷ [])

  abbrev pub IsCurrent : Cache → Type 0
  IsCurrent none = Unit
  IsCurrent (some c) =
      Agrees (runtime_row stale_ms db now) c.runtimes × Agrees online c.runners_by_company

  -- The loop over the agents, which hands the cache on.
  unfoldable pub probe_all : List Probe → Cache → List Bool
  probe_all [] cache = []
  probe_all (p ∷ rest) cache =
      let answered =
        agent_runtime_available stale_ms db now p.company_id p.runtime_id p.adapter_type cache in
      answered.0 ∷ probe_all rest answered.1

  -- The answer without a cache.
  abbrev pub answer_of : Probe → Bool
  answer_of p =
      (agent_runtime_available stale_ms db now p.company_id p.runtime_id p.adapter_type none).0

  runners_from-online :
      (company : ℕ) (c : RuntimeAvailabilityCache) (found : Option (List MachineRunnerRow))
      → lookup c.runners_by_company company ≡ found
      → IsCurrent (some c)
      → ((runners_from stale_ms db now company c found).0 ≡ online company)
        × IsCurrent (runners_from stale_ms db now company c found).1
  runners_from-online company c none e (rows, runners) =
      (refl, (rows, Agrees-cons online c.runners_by_company company runners))
  runners_from-online company c (some found) e (rows, runners) =
      (runners company found e, (rows, runners))

  online_runners-online :
      (company : ℕ) (cache : Cache)
      → IsCurrent cache
      → ((online_runners_for_company stale_ms db now company cache).0 ≡ online company)
        × IsCurrent (online_runners_for_company stale_ms db now company cache).1
  unfolding online_runners_for_company
  online_runners-online company none h = (refl, tt)
  online_runners-online company (some c) h =
      runners_from-online company c (lookup c.runners_by_company company) refl h

  runtime_from-row :
      (id : ℕ) (c : RuntimeAvailabilityCache) (found : Option (Option RuntimeRow))
      → lookup c.runtimes id ≡ found
      → IsCurrent (some c)
      → ((runtime_from stale_ms db now id c found).0 ≡ runtime_row stale_ms db now id)
        × IsCurrent (runtime_from stale_ms db now id c found).1
  runtime_from-row id c none e (rows, runners) =
      (refl, (Agrees-cons (runtime_row stale_ms db now) c.runtimes id rows, runners))
  runtime_from-row id c (some found) e (rows, runners) = (rows id found e, (rows, runners))

  runtime_for-row :
      (id : ℕ) (cache : Cache)
      → IsCurrent cache
      → ((runtime_for stale_ms db now id cache).0 ≡ runtime_row stale_ms db now id)
        × IsCurrent (runtime_for stale_ms db now id cache).1
  unfolding runtime_for
  runtime_for-row id none h = (refl, tt)
  runtime_for-row id (some c) h = runtime_from-row id c (lookup c.runtimes id) refl h

  runner_runtime-cached :
      (company : ℕ) (adapter_type : Text) (name : Option Text) (cache : Cache)
      → IsCurrent cache
      → ((runner_runtime_available stale_ms db now company adapter_type name cache).0
          ≡ (runner_runtime_available stale_ms db now company adapter_type name none).0)
        × IsCurrent (runner_runtime_available stale_ms db now company adapter_type name cache).1
  unfolding runner_runtime_available online_runners_for_company
  runner_runtime-cached company adapter_type name cache h =
      let (same_runners, current) = online_runners-online company cache h in
      (rw same_runners refl, current)

  with_runtime-cached :
      (company : ℕ) (adapter_type : Text) (row : Option RuntimeRow) (cache : Cache)
      → IsCurrent cache
      → ((with_runtime stale_ms db now company adapter_type row cache).0
          ≡ (with_runtime stale_ms db now company adapter_type row none).0)
        × IsCurrent (with_runtime stale_ms db now company adapter_type row cache).1
  unfolding with_runtime
  with_runtime-cached company adapter_type none cache h = (refl, h)
  with_runtime-cached company adapter_type (some row) cache h =
      elim (Bool-cases
        (not (same row.company_id (some company)) || is_switched_off row.is_active)) [
          | inl refuses ↦ rw refuses (refl, h)
          | inr allows ↦
              rw allows (runner_runtime-cached company adapter_type (some row.name) cache h)
        ]

  one_runtime-cached :
      (company : ℕ) (runtime : Option ℕ) (adapter_type : Text) (cache : Cache)
      → IsCurrent cache
      → ((agent_runtime_available stale_ms db now company runtime adapter_type cache).0
          ≡ (agent_runtime_available stale_ms db now company runtime adapter_type none).0)
        × IsCurrent (agent_runtime_available stale_ms db now company runtime adapter_type cache).1
  unfolding agent_runtime_available runtime_for
  one_runtime-cached company none adapter_type cache h = (refl, h)
  one_runtime-cached company (some id) adapter_type cache h =
      let (same_row, current) = runtime_for-row id cache h in
      let (same_answer, kept) =
        with_runtime-cached company adapter_type (runtime_for stale_ms db now id cache).0
          (runtime_for stale_ms db now id cache).1 current in
      (
        same_answer
            ∙ ap
                (λ (row : Option RuntimeRow).
                  (with_runtime stale_ms db now company adapter_type row none).0)
                same_row,
        kept,
      )

  agent_runtime-cached :
      (p : Probe) (cache : Cache)
      → IsCurrent cache
      → ((agent_runtime_available stale_ms db now p.company_id p.runtime_id p.adapter_type cache).0
          ≡ answer_of p)
        × IsCurrent
            (agent_runtime_available stale_ms db now p.company_id p.runtime_id p.adapter_type
              cache).1
  agent_runtime-cached p cache h =
      one_runtime-cached p.company_id p.runtime_id p.adapter_type cache h

  probe_all-cached :
      (ps : List Probe) (cache : Cache) → IsCurrent cache → probe_all ps cache ≡ map answer_of ps
  unfolding probe_all
  probe_all-cached [] cache h = refl
  probe_all-cached (p ∷ rest) cache h =
      let (same_answer, current) = agent_runtime-cached p cache h in
      ap
        (λ (b : Bool).
          b
          ∷ probe_all rest
              (agent_runtime_available stale_ms db now p.company_id p.runtime_id p.adapter_type
                cache).1)
        same_answer
      ∙ ap (λ (bs : List Bool). answer_of p ∷ bs)
          (probe_all-cached rest
            (agent_runtime_available stale_ms db now p.company_id p.runtime_id p.adapter_type
              cache).1
            current)

  -- A loop that probes agents one after another with a shared cache, empty at first, gives the answers
  -- that fresh queries would give, as long as the tables and the clock stay as they are.
  pub probe_all-eq-fresh :
      (ps : List Probe) → probe_all ps (some create_runtime_availability_cache) ≡ map answer_of ps
  unfolding lookup
  probe_all-eq-fresh ps =
      probe_all-cached ps (some create_runtime_availability_cache)
        (λ key a e. absurd (none-ne-some a e), λ key a e. absurd (none-ne-some a e))
