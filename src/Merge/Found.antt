-- ===== src/Merge/Found.antt =====
-- What `filter`, `map` and `find` of an array leave of its elements.
use megacorps.Prelude.{
  ◌≡◌, refl, subst, Bool, true, some, List, [], ◌∷◌, find, keep, map, All, All-map_prop, Any, arith,
  Bool-cases, inl, inr,
}
use mathlib.Core.Option.{some-injective}
use megacorps.Panel.Merge.Sort.{Ordered}

module _ {A B : Type 0} (f : A → B) (p : B → Bool) where
  pub keep-source :
      (xs : List A) → All (λ y. (p y ≡ true) × Any (λ x. f x ≡ y) xs) (keep p (map f xs))
  keep-source [] = tt
  keep-source (x ∷ xs) =
      let later =
        All-map_prop (λ y. (p y ≡ true) × Any (λ z. f z ≡ y) xs)
          (λ y. (p y ≡ true) × Any (λ z. f z ≡ y) (x ∷ xs)) (keep p (map f xs))
          (λ y h. (h.0, inr h.1)) (keep-source xs) in
      elim (Bool-cases (p (f x))) [ inl e ↦ rw e ((e, inl refl), later) | inr e ↦ rw e later ]

  pub keep-All :
      (Q : B → Type 0) (xs : List A)
      → All Q (keep p (map f xs))
      → All (λ x. p (f x) ≡ true → Q (f x)) xs
  keep-All Q [] h = tt
  keep-All Q (x ∷ xs) h = elim (Bool-cases (p (f x))) [
    | inl e ↦
        let (first, rest) : Q (f x) × All Q (keep p (map f xs)) = rw e at h in
        (λ k. first, keep-All Q xs rest)
    | inr e ↦ (λ k. ground arith, keep-All Q xs (rw e at h))
  ]

module _ {A : Type 0} (p : A → Bool) where
  pub find-All : (P : A → Type 0) (xs : List A) (a : A) → All P xs → find p xs ≡ some a → P a
  find-All P [] a h e = ground arith
  find-All P (x ∷ xs) a h e = elim (Bool-cases (p x)) [
    | inl found ↦ subst P (some-injective x a (rw found at e)) h.0
    | inr later ↦ find-All P xs a h.1 (rw later at e)
  ]

  pub find-first :
      (le : A → A → Type 0) (xs : List A) (a : A)
      → ((x : A) → le x x)
      → Ordered le xs
      → find p xs ≡ some a
      → All (λ x. p x ≡ true → le a x) xs
  find-first le [] a same h e = tt
  find-first le (x ∷ xs) a same h e = elim (Bool-cases (p x)) [
    | inl found ↦
        let here = some-injective x a (rw found at e) in
        subst (λ b. All (λ y. p y ≡ true → le b y) (x ∷ xs)) here
          (λ k. same x, All-map_prop (le x) (λ y. p y ≡ true → le x y) xs (λ y k q. k) h.0)
    | inr later ↦ (λ k. ground arith, find-first le xs a same h.1 (rw later at e))
  ]
