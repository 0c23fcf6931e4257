-- ===== src/Panel/Merge/Sort.antt =====
-- The stable sort keeps the elements, and its head is least.
use megacorps.Prelude.{
  ℕ, ◌≤◌, ◌≡◌, Bool, true, false, List, [], ◌∷◌, arith, Any, All, Bool-cases, inl, inr, ◌⊎◌,
}
use megacorps.Panel.Merge.{insert_sorted, sort_from}

module _ {ℓ} {A : Type ℓ} (before : A → A → Bool) (P : A → Type 0) where
  Any-insert_new : (x : A) (ys : List A) → P x → Any P (insert_sorted before x ys)
  unfolding insert_sorted
  Any-insert_new x [] p = inl p
  Any-insert_new x (y ∷ ys) p = elim (Bool-cases (before x y)) [
    | inl e ↦ rw e (inl p)
    | inr e ↦ rw e (inr (Any-insert_new x ys p))
  ]

  Any-insert_old : (x : A) (ys : List A) → Any P ys → Any P (insert_sorted before x ys)
  unfolding insert_sorted
  Any-insert_old x [] a = absurd a
  Any-insert_old x (y ∷ ys) a = elim (Bool-cases (before x y)) [
    | inl e ↦ rw e (inr a)
    | inr e ↦ rw e (elim a [ inl p ↦ inl p | inr later ↦ inr (Any-insert_old x ys later) ])
  ]

  All-insert : (x : A) (ys : List A) → P x → All P ys → All P (insert_sorted before x ys)
  unfolding insert_sorted
  All-insert x [] p h = (p, tt)
  All-insert x (y ∷ ys) p h = elim (Bool-cases (before x y)) [
    | inl e ↦ rw e (p, h)
    | inr e ↦ rw e (h.0, All-insert x ys p h.1)
  ]

  -- What is in the part sorted so far or still to come is in the result.
  pub Any-sort_from : (done xs : List A) → Any P done ⊎ Any P xs → Any P (sort_from before done xs)
  unfolding sort_from
  Any-sort_from done [] (inl a) = a
  Any-sort_from done [] (inr a) = absurd a
  Any-sort_from done (x ∷ xs) (inl a) =
      Any-sort_from (insert_sorted before x done) xs (inl (Any-insert_old x done a))
  Any-sort_from done (x ∷ xs) (inr (inl p)) =
      Any-sort_from (insert_sorted before x done) xs (inl (Any-insert_new x done p))
  Any-sort_from done (x ∷ xs) (inr (inr a)) = Any-sort_from (insert_sorted before x done) xs (inr a)

  pub All-sort_from : (done xs : List A) → All P done → All P xs → All P (sort_from before done xs)
  unfolding sort_from
  All-sort_from done [] h k = h
  All-sort_from done (x ∷ xs) h k =
      All-sort_from (insert_sorted before x done) xs (All-insert x done k.0 h) k.1

-- The sort adds nothing and drops nothing, read from the result.
module _ {ℓ} {A : Type ℓ} (before : A → A → Bool) (P : A → Type 0) where
  All-of_insert : (x : A) (ys : List A) → All P (insert_sorted before x ys) → P x × All P ys
  unfolding insert_sorted
  All-of_insert x [] h = h
  All-of_insert x (y ∷ ys) h = elim (Bool-cases (before x y)) [
    | inl e ↦ rw e at h
    | inr e ↦
        let (first, rest) : P y × All P (insert_sorted before x ys) = rw e at h in
        let (new, old) = All-of_insert x ys rest in (new, (first, old))
  ]

  pub All-of_sort_from :
      (done xs : List A) → All P (sort_from before done xs) → All P done × All P xs
  unfolding sort_from
  All-of_sort_from done [] h = (h, tt)
  All-of_sort_from done (x ∷ xs) h =
      let (sorted, rest) = All-of_sort_from (insert_sorted before x done) xs h in
      let (new, old) = All-of_insert x done sorted in (old, (new, rest))

-- Sorted by a relation: every element is related to all behind it.
module _ {ℓ} {A : Type ℓ} (le : A → A → Type 0) where
  abbrev pub Ordered : List A → Type 0
  Ordered [] = Unit
  Ordered (x ∷ xs) = All (le x) xs × Ordered xs

  module _ (trans : (x y z : A) → le x y → le y z → le x z) where
    All-trans : (x y : A) (ys : List A) → le x y → All (le y) ys → All (le x) ys
    All-trans x y [] h k = tt
    All-trans x y (z ∷ ys) h k = (trans x y z h k.0, All-trans x y ys h k.1)

    module _ (before : A → A → Bool) (early : (x y : A) → before x y ≡ true → le x y)
        (late : (x y : A) → before x y ≡ false → le y x) where
      Ordered-insert : (x : A) (ys : List A) → Ordered ys → Ordered (insert_sorted before x ys)
      unfolding insert_sorted
      Ordered-insert x [] h = (tt, tt)
      Ordered-insert x (y ∷ ys) h = elim (Bool-cases (before x y)) [
        | inl e ↦ let first = early x y e in rw e ((first, All-trans x y ys first h.0), h)
        | inr e ↦ rw e (All-insert before (le y) x ys (late x y e) h.0, Ordered-insert x ys h.1)
      ]

      pub Ordered-sort_from : (done xs : List A) → Ordered done → Ordered (sort_from before done xs)
      unfolding sort_from
      Ordered-sort_from done [] h = h
      Ordered-sort_from done (x ∷ xs) h =
          Ordered-sort_from (insert_sorted before x done) xs (Ordered-insert x done h)

-- Sorted by a number.
module _ {ℓ} {A : Type ℓ} (rank : A → ℕ) where
  abbrev pub Ascends : List A → Type 0
  Ascends = Ordered (λ x y. rank x ≤ rank y)

  pub Ascends-sort_from :
      (before : A → A → Bool)
      → ((x y : A) → before x y ≡ true → rank x ≤ rank y)
      → ((x y : A) → before x y ≡ false → rank y ≤ rank x)
      → (done xs : List A) → Ascends done
      → Ascends (sort_from before done xs)
  Ascends-sort_from = Ordered-sort_from (λ x y. rank x ≤ rank y) (λ x y z h k. omega (arith, h, k))
