-- ===== src/Splitting/Acyclic.antt =====
-- A search that met no cycle leaves the nodes in the order of their dependencies.
use megacorps.Prelude.{
  All-contains, ℕ, zero, suc, ◌≡◌, ◌⊎◌, inl, inr, refl, sym, ap, subst, ◌∙◌, true, List, [], ◌∷◌,
  ◌==◌, ==→≡, ==_refl, contains, arith, Bool-cases, All,
}
use mathlib.Core.Bool.{false≢true}
use megacorps.Splitting.Cycles.{
  Edges, targets, Visit, cycle, out_of_fuel, clear, and_then, visit_each, visit,
}

-- `b` is reached from `a` by one or more dependencies.
pub data LeadsTo (edges : Edges) (b : ℕ) : ℕ → Type 0 where
  edge : (a : ℕ) → contains (targets edges a) b ≡ true → LeadsTo edges b a
  via : (a c : ℕ) → contains (targets edges a) c ≡ true → LeadsTo edges b c → LeadsTo edges b a

pub Visit-cases : (v : Visit) → (v ≡ cycle) ⊎ ((v ≡ out_of_fuel) ⊎ ((f : List ℕ) × (v ≡ clear f)))
Visit-cases cycle = inl refl
Visit-cases out_of_fuel = inr (inl refl)
Visit-cases (clear f) = inr (inr (f, refl))

module _ (edges : Edges) where
  -- Each finished node depends on nodes that were finished before.
  abbrev pub IsOrdered : List ℕ → Type 0
  IsOrdered [] = Unit
  IsOrdered (n ∷ rest) = All (λ b. contains rest b ≡ true) (targets edges n) × IsOrdered rest

  IsOrdered-closed :
      (finished : List ℕ) (a b : ℕ)
      → IsOrdered finished
      → contains finished a ≡ true
      → contains (targets edges a) b ≡ true
      → contains finished b ≡ true
  IsOrdered-closed [] a b o h k = absurd (false≢true h)
  IsOrdered-closed (n ∷ rest) a b o h k = elim (Bool-cases (n == a)) [
    | inl e ↦ ground (
      arith,
      All-contains (λ x. contains rest x ≡ true) (targets edges n) b o.0
          (subst (λ x. contains (targets edges x) b ≡ true) (sym (==→≡ n a e)) k),
    )
    | inr e ↦ ground (arith, IsOrdered-closed rest a b o.1 (rw e at h) k)
  ]

  LeadsTo-closed :
      (finished : List ℕ) (b a : ℕ)
      → IsOrdered finished
      → contains finished a ≡ true
      → LeadsTo edges b a
      → contains finished b ≡ true
  LeadsTo-closed finished b a o h (edge _ k) = IsOrdered-closed finished a b o h k
  LeadsTo-closed finished b a o h (via _ c k p) =
      LeadsTo-closed finished b c o (IsOrdered-closed finished a c o h k) p

  -- Past its first step a path from the newest node stays among the older ones.
  LeadsTo-older :
      (n : ℕ) (rest : List ℕ) (b : ℕ)
      → IsOrdered (n ∷ rest)
      → LeadsTo edges b n
      → contains rest b ≡ true
  LeadsTo-older n rest b o (edge _ k) =
      All-contains (λ x. contains rest x ≡ true) (targets edges n) b o.0 k
  LeadsTo-older n rest b o (via _ c k p) =
      LeadsTo-closed rest b c o.1
        (All-contains (λ x. contains rest x ≡ true) (targets edges n) c o.0 k) p

  pub IsOrdered-acyclic :
      (finished : List ℕ) (a : ℕ)
      → IsOrdered finished
      → contains finished a ≡ true
      → ¬ LeadsTo edges a a
  IsOrdered-acyclic [] a o h p = false≢true h
  IsOrdered-acyclic (n ∷ rest) a o h p = elim (Bool-cases (contains rest a)) [
    | inl older ↦ IsOrdered-acyclic rest a o.1 older p
    | inr newest ↦
        let same : n ≡ a = ==→≡ n a (ground arith) in
        false≢true
          (sym newest ∙ LeadsTo-older n rest a o (subst (λ x. LeadsTo edges a x) (sym same) p))
  ]

  -- What a search that met no cycle leaves: the nodes that were done still are, and the list is in order.
  pub record After (finished later : List ℕ) : Type 0 where
    pub ordered : IsOrdered later
    pub kept : (a : ℕ) → contains finished a ≡ true → contains later a ≡ true

  abbrev done_or : List ℕ → Visit → List ℕ
  done_or f (clear g) = g
  done_or f _ = f

  clear-cases :
      (v : Visit) (k : List ℕ → Visit) (later : List ℕ)
      → and_then v k ≡ clear later
      → (f : List ℕ) × ((v ≡ clear f) × (k f ≡ clear later))
  clear-cases (clear f) k later h = (f, (refl, h))
  clear-cases cycle k later h = ground arith
  clear-cases out_of_fuel k later h = ground arith

  pub visit_each-After :
      (visit_one : ℕ → List ℕ → Visit)
      → ((n : ℕ) (finished later : List ℕ)
          → visit_one n finished ≡ clear later
          → IsOrdered finished
          → After finished later × (contains later n ≡ true))
      → (ns finished later : List ℕ) → visit_each visit_one ns finished ≡ clear later
      → IsOrdered finished
      → After finished later × All (λ b. contains later b ≡ true) ns
  unfolding visit_each
  visit_each-After visit_one each [] finished later h o =
      subst (λ f. After finished f × Unit) (ap (done_or []) h)
        (record { ordered = o; kept = λ a k. k }, tt)
  visit_each-After visit_one each (n ∷ ns) finished later h o =
      let (middle, (first, rest)) =
        clear-cases (visit_one n finished) (visit_each visit_one ns) later h in
      let (one, there) = each n finished middle first o in
      let (others, all_there) = visit_each-After visit_one each ns middle later rest one.ordered in
      (
        record { ordered = others.ordered; kept = λ a k. others.kept a (one.kept a k) },
        (others.kept n there, all_there),
      )

  pub visit-After :
      (fuel : ℕ) (stack : List ℕ) (n : ℕ) (finished later : List ℕ)
      → visit fuel edges stack n finished ≡ clear later
      → IsOrdered finished
      → After finished later × (contains later n ≡ true)
  unfolding visit
  visit-After zero stack n finished later h o = ground arith
  visit-After (suc fuel) stack n finished later h o = elim (Bool-cases (contains stack n)) [
    | inl open_node ↦ ground arith
    | inr fresh ↦ elim (Bool-cases (contains finished n)) [
      | inl known ↦
          subst (λ f. After finished f × (contains f n ≡ true))
            (ap (done_or []) (rw (fresh, known) at h))
            (record { ordered = o; kept = λ a k. k }, known)
      | inr unknown ↦
          let (deep, (searched, ends)) =
            clear-cases (visit_each (visit fuel edges (n ∷ stack)) (targets edges n) finished)
              (λ g. clear (n ∷ g)) later (rw (fresh, unknown) at h) in
          let (after, covered) =
            visit_each-After (visit fuel edges (n ∷ stack)) (visit-After fuel (n ∷ stack))
              (targets edges n) finished deep searched o in
          subst (λ f. After finished f × (contains f n ≡ true)) (ap (done_or []) ends)
            (
              record {
                ordered = (covered, after.ordered);
                kept = λ a k. ground (arith, after.kept a k);
              },
              ground (arith, ==_refl n),
            )
    ]
  ]
