-- ===== src/Splitting/Decides.antt =====
-- `hasDependencyCycle` decides whether the dependencies have a cycle.
use megacorps.Prelude.{
  All-contains, ◌≢◌, contains_self, All-map_prop, ℕ, zero, suc, ◌<◌, ◌≡◌, ◌↔◌, inl, inr, refl,
  subst, Bool, true, false, some, List, [], ◌∷◌, contains, length, arith, Bool-cases, All, unseen,
  unseen-le_length, unseen-cons_lt,
}
use mathlib.Core.Bool.{false≢true}
use megacorps.Splitting.Cycles.{
  Edges, targets, keys, Visit, cycle, out_of_fuel, clear, and_then, visit_each, visit,
  has_dependency_cycle,
}
use megacorps.Splitting.Acyclic.{
  LeadsTo, edge, via, IsOrdered, IsOrdered-acyclic, Visit-cases, visit_each-After, visit-After,
}

module _ (edges : Edges) where
  LeadsTo-snoc :
      (b a c : ℕ) → LeadsTo edges b a → contains (targets edges b) c ≡ true → LeadsTo edges c a
  LeadsTo-snoc b a c (edge _ k) h = via a b k (edge b h)
  LeadsTo-snoc b a c (via _ d k p) h = via a d k (LeadsTo-snoc b d c p h)

  visit_each-cycle :
      (P : ℕ → Type 0) (visit_one : ℕ → List ℕ → Visit)
      → ((n : ℕ) (finished : List ℕ)
          → P n
          → visit_one n finished ≡ cycle
          → (a : ℕ) × LeadsTo edges a a)
      → (ns finished : List ℕ) → All P ns
      → visit_each visit_one ns finished ≡ cycle
      → (a : ℕ) × LeadsTo edges a a
  unfolding visit_each
  visit_each-cycle P visit_one each [] finished all_p h = ground arith
  visit_each-cycle P visit_one each (n ∷ ns) finished all_p h =
      elim (Visit-cases (visit_one n finished)) [
        | inl found ↦ each n finished all_p.0 found
        | inr (inl stuck) ↦ ground arith
        | inr (inr (f, cleared)) ↦ visit_each-cycle P visit_one each ns f all_p.1 (rw cleared at h)
      ]

  visit-cycle :
      (fuel : ℕ) (stack : List ℕ) (n : ℕ) (finished : List ℕ)
      → All (LeadsTo edges n) stack
      → visit fuel edges stack n finished ≡ cycle
      → (a : ℕ) × LeadsTo edges a a
  unfolding visit
  visit-cycle zero stack n finished above h = ground arith
  visit-cycle (suc fuel) stack n finished above h = elim (Bool-cases (contains stack n)) [
    | inl open_node ↦ (n, All-contains (LeadsTo edges n) stack n above open_node)
    | inr fresh ↦ elim (Bool-cases (contains finished n)) [
      | inl known ↦ ground arith
      | inr unknown ↦
          visit_each-cycle (λ b. contains (targets edges n) b ≡ true) (visit fuel edges (n ∷ stack))
            (λ b f k found.
              visit-cycle fuel (n ∷ stack) b f
                (
                  edge n k,
                  All-map_prop (LeadsTo edges n) (LeadsTo edges b) stack
                      (λ v p. LeadsTo-snoc n v b p k) above,
                )
                found)
            (targets edges n) finished (contains_self (targets edges n))
            (searched_cycle _ (rw (fresh, unknown) at h))
    ]
  ]
    where
      searched_cycle : (v : Visit) → and_then v (λ g. clear (n ∷ g)) ≡ cycle → v ≡ cycle
      searched_cycle cycle e = refl
      searched_cycle out_of_fuel e = e
      searched_cycle (clear f) e = ground arith

  targets-key : (es : Edges) (n : ℕ) → contains (keys es) n ≡ false → targets es n ≡ []
  unfolding targets keys
  targets-key [] n h = refl
  targets-key (e ∷ rest) n h = ground (arith, targets-key rest n)

  visit_each-fuel :
      (visit_one : ℕ → List ℕ → Visit)
      → ((n : ℕ) (finished : List ℕ) → visit_one n finished ≢ out_of_fuel)
      → (ns finished : List ℕ) → visit_each visit_one ns finished ≢ out_of_fuel
  unfolding visit_each
  visit_each-fuel visit_one each [] finished h = ground arith
  visit_each-fuel visit_one each (n ∷ ns) finished h = elim (Visit-cases (visit_one n finished)) [
    | inl found ↦ ground arith
    | inr (inl stuck) ↦ each n finished stuck
    | inr (inr (f, cleared)) ↦ visit_each-fuel visit_one each ns f (rw cleared at h)
  ]

  -- Fuel beyond the number of keys that are not on the stack is enough.
  visit-fuel :
      (fuel : ℕ) (stack : List ℕ) (n : ℕ) (finished : List ℕ)
      → unseen stack (keys edges) < fuel
      → visit fuel edges stack n finished ≢ out_of_fuel
  unfolding visit visit_each
  visit-fuel zero stack n finished enough h = ground arith
  visit-fuel (suc fuel) stack n finished enough h = elim (Bool-cases (contains stack n)) [
    | inl open_node ↦ ground arith
    | inr fresh ↦ elim (Bool-cases (contains finished n)) [
      | inl known ↦ ground arith
      | inr unknown ↦ elim (Bool-cases (contains (keys edges) n)) [
        | inl key ↦
            visit_each-fuel (visit fuel edges (n ∷ stack))
              (λ b f.
                visit-fuel fuel (n ∷ stack) b f
                  (omega (arith, enough, unseen-cons_lt n stack (keys edges) fresh key)))
              (targets edges n) finished (searched_stuck _ (rw (fresh, unknown) at h))
        | inr leaf ↦
            let stuck : clear finished ≡ out_of_fuel =
              subst (λ ts. visit_each (visit fuel edges (n ∷ stack)) ts finished ≡ out_of_fuel)
                (targets-key edges n leaf) (searched_stuck _ (rw (fresh, unknown) at h)) in
            ground arith
      ]
    ]
  ]
    where
      searched_stuck : (v : Visit) → and_then v (λ g. clear (n ∷ g)) ≡ out_of_fuel → v ≡ out_of_fuel
      searched_stuck cycle e = e
      searched_stuck out_of_fuel e = refl
      searched_stuck (clear f) e = ground arith

  LeadsTo-leaf : (b a : ℕ) → LeadsTo edges b a → ¬ (targets edges a ≡ [])
  LeadsTo-leaf b a (edge _ k) e = false≢true (subst (λ ts. contains ts b ≡ true) e k)
  LeadsTo-leaf b a (via _ c k p) e = false≢true (subst (λ ts. contains ts c ≡ true) e k)

  length-keys : (es : Edges) → length (keys es) ≡ length es
  unfolding keys
  length-keys [] = refl
  length-keys (e ∷ rest) = omega (arith, length-keys rest)

  -- `hasDependencyCycle` ends within its fuel, and finds a cycle exactly when some child waits,
  -- through one or more dependencies, for itself.
  pub has_dependency_cycle-LeadsTo :
      ((b : Bool) × (has_dependency_cycle edges ≡ some b))
      × ((has_dependency_cycle edges ≡ some true) ↔ ((a : ℕ) × LeadsTo edges a a))
  unfolding has_dependency_cycle
  has_dependency_cycle-LeadsTo =
      elim (Visit-cases (visit_each (visit (suc (length edges)) edges []) (keys edges) [])) [
        | inl found ↦ (
          (true, rw found refl),
          (
            λ h.
                visit_each-cycle (λ b. contains (keys edges) b ≡ true)
                  (visit (suc (length edges)) edges [])
                  (λ n f p. visit-cycle (suc (length edges)) [] n f tt) (keys edges) []
                  (contains_self (keys edges)) found,
            λ h. rw found refl,
          ),
        )
        | inr (inl stuck) ↦ absurd (
            visit_each-fuel (visit (suc (length edges)) edges [])
              (λ n f.
                visit-fuel (suc (length edges)) [] n f
                  (omega (arith, unseen-le_length [] (keys edges), length-keys edges)))
              (keys edges) [] stuck)
        | inr (inr (f, cleared)) ↦
            let (after, covered) =
              visit_each-After edges (visit (suc (length edges)) edges [])
                (visit-After edges (suc (length edges)) []) (keys edges) [] f cleared tt in
            (
              (false, rw cleared refl),
              (
                λ h. ground (arith, cleared),
                λ path. absurd (no_cycle f after.ordered covered path.0 path.1),
              ),
            )
      ]
    where
      no_cycle :
          (f : List ℕ)
          → IsOrdered edges f
          → All (λ b. contains f b ≡ true) (keys edges)
          → (a : ℕ) → ¬ LeadsTo edges a a
      no_cycle f o covered a p = elim (Bool-cases (contains (keys edges) a)) [
        | inl key ↦
            IsOrdered-acyclic edges f a o
              (All-contains (λ b. contains f b ≡ true) (keys edges) a covered key) p
        | inr leaf ↦ (LeadsTo-leaf a a p (targets-key edges a leaf))
      ]
