-- ===== src/Prelude/Lists.antt =====
-- JavaScript's array operations, over native numbers and Boolean tests.
use Prim.Native.Nat.{ℕ, suc, ◌+◌}
use mathlib.Core.Path.{subst, ◌≡◌, refl}
use mathlib.Core.Logic.{◌↔◌, ◌⊎◌, inl, inr}
use mathlib.Core.Bool.{false≢true, Bool, true, false, ◌&&◌, ◌||◌, not}
use mathlib.Core.Option.{Option, none, some}
use mathlib.Core.List.{List, [], ◌∷◌, ◌++◌, map}
use native.Mathlib.Omega.{arith}
use megacorps.Prelude.Tests.{==→≡, ==_refl, ◌==◌, if◌then◌else◌, Bool-cases}

module _ {ℓ} {A : Type ℓ} where
  abbrev pub length : List A → ℕ
  length [] = 0
  length (x ∷ xs) = suc (length xs)

  abbrev pub is_empty : List A → Bool
  is_empty [] = true
  is_empty (x ∷ xs) = false

  -- `xs.some(p)`, `xs.every(p)`, `xs.find(p)`, `xs.filter(p)`.
  abbrev pub any : (A → Bool) → List A → Bool
  any p [] = false
  any p (x ∷ xs) = p x || any p xs

  abbrev pub all : (A → Bool) → List A → Bool
  all p [] = true
  all p (x ∷ xs) = p x && all p xs

  abbrev pub find : (A → Bool) → List A → Option A
  find p [] = none
  find p (x ∷ xs) = if p x then some x else find p xs

  abbrev pub keep : (A → Bool) → List A → List A
  keep p [] = []
  keep p (x ∷ xs) = let rest = keep p xs in if p x then x ∷ rest else rest

  -- A property of every member.
  abbrev pub All {κ} : (A → Type κ) → List A → Type κ
  All P [] = Unit
  All P (x ∷ xs) = P x × All P xs

  -- A member with a property.
  abbrev pub Any : (A → Type 0) → List A → Type 0
  Any P [] = ⊥
  Any P (x ∷ xs) = P x ⊎ Any P xs

module _ {ℓ} {A : Type ℓ} where
  pub Any-map_prop : (P Q : A → Type 0) (xs : List A) → ((x : A) → P x → Q x) → Any P xs → Any Q xs
  Any-map_prop P Q [] f a = a
  Any-map_prop P Q (x ∷ xs) f (inl p) = inl (f x p)
  Any-map_prop P Q (x ∷ xs) f (inr a) = inr (Any-map_prop P Q xs f a)

  pub Any-map {κ} :
      {B : Type κ} (P : B → Type 0) (g : A → B) (xs : List A)
      → Any (λ x. P (g x)) xs
      → Any P (map g xs)
  Any-map P g [] a = a
  Any-map P g (x ∷ xs) (inl p) = inl p
  Any-map P g (x ∷ xs) (inr a) = inr (Any-map P g xs a)

  pub All-map_prop : (P Q : A → Type 0) (xs : List A) → ((x : A) → P x → Q x) → All P xs → All Q xs
  All-map_prop P Q [] f a = tt
  All-map_prop P Q (x ∷ xs) f a = (f x a.0, All-map_prop P Q xs f a.1)

  pub All-map {κ} :
      {B : Type κ} (P : B → Type 0) (g : A → B) (xs : List A)
      → All (λ x. P (g x)) xs
      → All P (map g xs)
  All-map P g [] a = tt
  All-map P g (x ∷ xs) a = (a.0, All-map P g xs a.1)

  -- What holds of all holds of a member.
  pub All-Any :
      (P Q : A → Type 0) {R : Type 0} (xs : List A)
      → All P xs
      → Any Q xs
      → ((x : A) → P x → Q x → R)
      → R
  All-Any P Q [] h a f = absurd a
  All-Any P Q (x ∷ xs) h (inl q) f = f x h.0 q
  All-Any P Q (x ∷ xs) h (inr a) f = All-Any P Q xs h.1 a f

  pub Any-All :
      (P Q R : A → Type 0) (xs : List A)
      → All P xs
      → Any Q xs
      → ((x : A) → P x → Q x → R x)
      → Any R xs
  Any-All P Q R [] h a f = a
  Any-All P Q R (x ∷ xs) h (inl q) f = inl (f x h.0 q)
  Any-All P Q R (x ∷ xs) h (inr a) f = inr (Any-All P Q R xs h.1 a f)

  pub Any-append_left : (P : A → Type 0) (xs ys : List A) → Any P xs → Any P (xs ++ ys)
  Any-append_left P (x ∷ xs) ys (inl p) = inl p
  Any-append_left P (x ∷ xs) ys (inr a) = inr (Any-append_left P xs ys a)
  Any-append_left P [] ys a = absurd a

  pub Any-append_right : (P : A → Type 0) (xs ys : List A) → Any P ys → Any P (xs ++ ys)
  Any-append_right P [] ys a = a
  Any-append_right P (x ∷ xs) ys a = inr (Any-append_right P xs ys a)

  pub All-append : (P : A → Type 0) (xs ys : List A) → All P xs → All P ys → All P (xs ++ ys)
  All-append P [] ys h k = k
  All-append P (x ∷ xs) ys h k = (h.0, All-append P xs ys h.1 k)

-- `ids.includes(id)`.
abbrev pub contains : List ℕ → ℕ → Bool
contains [] a = false
contains (x ∷ xs) a = x == a || contains xs a

-- `[...new Set(ids)]`: each identifier at its first place.
abbrev pub unique_from : List ℕ → List ℕ → List ℕ
unique_from seen [] = []
unique_from seen (x ∷ xs) =
    let rest = unique_from (x ∷ seen) xs in
    let skip = unique_from seen xs in if contains seen x then skip else x ∷ rest

abbrev pub unique : List ℕ → List ℕ
unique = unique_from []

-- No identifier stands twice.
abbrev pub IsDistinct : List ℕ → Type 0
IsDistinct [] = Unit
IsDistinct (x ∷ xs) = (contains xs x ≡ false) × IsDistinct xs

pub contains-append :
    (xs ys : List ℕ) (a : ℕ) → contains (xs ++ ys) a ≡ (contains xs a || contains ys a)
contains-append [] ys a = refl
contains-append (x ∷ xs) ys a = ground (arith, contains-append xs ys a)

pub length-append {ℓ} : {A : Type ℓ} (xs ys : List A) → length (xs ++ ys) ≡ length xs + length ys
length-append [] ys = omega arith
length-append (x ∷ xs) ys = omega (arith, length-append xs ys)

pub IsDistinct-snoc :
    (xs : List ℕ) (a : ℕ) → IsDistinct xs → contains xs a ≡ false → IsDistinct (xs ++ a ∷ [])
IsDistinct-snoc [] a d h = (refl, tt)
IsDistinct-snoc (x ∷ xs) a d h =
    (ground (arith, contains-append xs (a ∷ []) x), IsDistinct-snoc xs a d.1 (ground arith))

module _ {ℓ} {A : Type ℓ} (p : A → Bool) where
  pub all_of_All : (xs : List A) → All (λ x. p x ≡ true) xs → all p xs ≡ true
  all_of_All [] h = refl
  all_of_All (x ∷ xs) h = ground (arith, all_of_All xs h.1)

  pub All-of_all : (xs : List A) → all p xs ≡ true → All (λ x. p x ≡ true) xs
  All-of_all [] h = tt
  All-of_all (x ∷ xs) h = (ground arith, All-of_all xs (ground arith))

  pub find-some : (xs : List A) {a : A} → find p xs ≡ some a → p a ≡ true
  find-some [] h = ground arith
  find-some (x ∷ xs) h = elim (Bool-cases (p x)) [
    | inl e ↦ ground arith
    | inr e ↦ find-some xs (ground arith)
  ]

  pub find-none : (xs : List A) → find p xs ≡ none → All (λ x. p x ≡ false) xs
  find-none [] h = tt
  find-none (x ∷ xs) h = (ground arith, find-none xs (ground arith))

contains-unique_from :
    (xs seen : List ℕ) (a : ℕ)
    → contains (unique_from seen xs) a ≡ (contains xs a && not (contains seen a))
contains-unique_from [] seen a = refl
contains-unique_from (x ∷ xs) seen a = elim (Bool-cases (contains seen x)) [
  | inl old ↦ rw old (ground (arith, contains-unique_from xs seen a))
  | inr new ↦ rw new (ground (arith, contains-unique_from xs (x ∷ seen) a))
]

pub contains-unique : (xs : List ℕ) (a : ℕ) → contains (unique xs) a ≡ contains xs a
contains-unique xs a = ground (arith, contains-unique_from xs [] a)

module _ {ℓ} {A : Type ℓ} (p : A → Bool) where
  pub any-Any : (xs : List A) → (any p xs ≡ true) ↔ Any (λ x. p x ≡ true) xs
  any-Any [] = (λ h. ground arith, λ h. absurd h)
  any-Any (x ∷ xs) = (
    λ h. elim (Bool-cases (p x)) [ inl e ↦ inl e | inr e ↦ inr ((any-Any xs).0 (rw e at h)) ],
    λ h. elim h [ inl e ↦ rw e refl | inr a ↦ ground (arith, (any-Any xs).1 a) ],
  )

  pub any-All : (xs : List A) → (any p xs ≡ false) ↔ All (λ x. p x ≡ false) xs
  any-All [] = (λ h. tt, λ h. refl)
  any-All (x ∷ xs) =
      (λ h. (ground arith, (any-All xs).0 (ground arith)), λ h. ground (arith, (any-All xs).1 h.1))

-- A list contains each of its members.
pub contains_self : (ids : List ℕ) → All (λ id. contains ids id ≡ true) ids
contains_self [] = tt
contains_self (x ∷ rest) = (
  ground (arith, ==_refl x),
  All-map_prop (λ id. contains rest id ≡ true) (λ id. contains (x ∷ rest) id ≡ true) rest
      (λ id h. ground arith) (contains_self rest),
)

-- What holds of all holds of an identifier that the list contains.
pub All-contains : (P : ℕ → Type 0) (ids : List ℕ) (b : ℕ) → All P ids → contains ids b ≡ true → P b
All-contains P [] b h k = absurd (false≢true k)
All-contains P (x ∷ rest) b h k = elim (Bool-cases (x == b)) [
  | inl e ↦ subst P (==→≡ x b e) h.0
  | inr e ↦ All-contains P rest b h.1 (rw e at k)
]

-- An error that is reported when the test holds.
abbrev pub error_if {ℓ} : {E : Type ℓ} → Bool → E → List E
error_if true e = e ∷ []
error_if false e = []

pub error_if-nil {ℓ} : {E : Type ℓ} (b : Bool) (e : E) → error_if b e ≡ [] → b ≡ false
error_if-nil true e h = ground arith
error_if-nil false e h = refl

pub append-nil_iff {ℓ} : {A : Type ℓ} (xs ys : List A) → (xs ++ ys ≡ []) ↔ ((xs ≡ []) × (ys ≡ []))
append-nil_iff [] ys = (λ h. (refl, h), λ h. h.1)
append-nil_iff (x ∷ xs) ys = (λ h. ground arith, λ h. ground arith)

-- Each element of a list stands in it.
pub All-members : {A : Type 0} (xs : List A) → All (λ a. Any (λ b. b ≡ a) xs) xs
All-members [] = tt
All-members (a ∷ xs) = (
  inl refl,
  All-map_prop (λ x. Any (λ b. b ≡ x) xs) (λ x. Any (λ b. b ≡ x) (a ∷ xs)) xs (λ x h. inr h)
      (All-members xs),
)
