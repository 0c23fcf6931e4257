-- ===== src/Prelude/Walks.antt =====
-- The measure of a walk over identifiers that keeps a set of those it has seen.
use Prim.Native.Nat.{ℕ, suc, ◌≤◌, ◌<◌}
use mathlib.Core.Path.{◌≡◌}
use mathlib.Core.Logic.{inl, inr}
use mathlib.Core.Bool.{true, false}
use mathlib.Core.List.{List, [], ◌∷◌}
use native.Mathlib.Omega.{arith}
use megacorps.Prelude.Tests.{if◌then◌else◌, Bool-cases}
use megacorps.Prelude.Lists.{length, contains}

-- The identifiers that the walk has not seen.
abbrev pub unseen : List ℕ → List ℕ → ℕ
unseen seen [] = 0
unseen seen (a ∷ rest) = if contains seen a then unseen seen rest else suc (unseen seen rest)

pub unseen-le_length : (seen ids : List ℕ) → unseen seen ids ≤ length ids
unseen-le_length seen [] = omega arith
unseen-le_length seen (a ∷ rest) = ground (arith, unseen-le_length seen rest)

unseen-cons_le : (c : ℕ) (seen ids : List ℕ) → unseen (c ∷ seen) ids ≤ unseen seen ids
unseen-cons_le c seen [] = omega arith
unseen-cons_le c seen (a ∷ rest) = ground (arith, unseen-cons_le c seen rest)

-- A step to one of the identifiers that was not seen leaves fewer.
pub unseen-cons_lt :
    (c : ℕ) (seen ids : List ℕ)
    → contains seen c ≡ false
    → contains ids c ≡ true
    → unseen (c ∷ seen) ids < unseen seen ids
unseen-cons_lt c seen [] fresh found = ground arith
unseen-cons_lt c seen (a ∷ rest) fresh found = elim (Bool-cases (contains rest c)) [
  | inl later ↦ ground (arith, unseen-cons_lt c seen rest fresh later, unseen-cons_le c seen rest)
  | inr never ↦ ground (arith, unseen-cons_le c seen rest)
]
