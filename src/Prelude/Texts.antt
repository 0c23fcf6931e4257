-- ===== src/Prelude/Texts.antt =====
-- Strings of JavaScript: lists of UTF-16 code units, so `length` is the source's `.length`.
use Prim.Native.Nat.{ℕ, ◌+◌, ◌-◌}
use Prim.Native.Char.{code}
use Prim.Native.String.{String}
use mathlib.Core.Path.{◌≡◌, refl, sym, ap, ◌∙◌}
use mathlib.Core.Logic.{◌↔◌, ◌≢◌, inl, inr}
use mathlib.Core.Bool.{false≢true, Bool, true, false, ◌&&◌, ◌||◌}
use mathlib.Core.Option.{Option, none, some}
use mathlib.Core.List.{List, [], ◌∷◌, map, reverse}
use native.Mathlib.Omega.{arith}
use megacorps.Prelude.Tests.{leb, ◌==◌, if◌then◌else◌, Bool-cases}

abbrev pub Text : Type 0
Text = List ℕ

-- The code units of an ASCII literal.
abbrev pub text : String → Text
text String.[] = []
text (String.◌∷◌ c s) = code c ∷ text s

-- `a === b`.
abbrev pub text_eq : Text → Text → Bool
text_eq [] [] = true
text_eq (a ∷ s) (b ∷ t) = a == b && text_eq s t
text_eq _ _ = false

pub text_eq→≡ : (s t : Text) → text_eq s t ≡ true → s ≡ t
text_eq→≡ [] [] h = refl
text_eq→≡ [] (b ∷ t) h = ground arith
text_eq→≡ (a ∷ s) [] h = ground arith
text_eq→≡ (a ∷ s) (b ∷ t) h = ground (arith, text_eq→≡ s t)

pub text_eq_refl : (s : Text) → text_eq s s ≡ true
text_eq_refl [] = refl
text_eq_refl (a ∷ s) = ground (arith, text_eq_refl s)

-- White space as `String.prototype.trim` reads it.
abbrev pub is_space : ℕ → Bool
is_space c =
    (leb 9 c && leb c 13)
    || c == 32
    || c == 160
    || c == 0x1680
    || (leb 0x2000 c && leb c 0x200a)
    || c == 0x2028
    || c == 0x2029
    || c == 0x202f
    || c == 0x205f
    || c == 0x3000
    || c == 0xfeff

abbrev pub trim_start : Text → Text
trim_start [] = []
trim_start (c ∷ s) = if is_space c then trim_start s else c ∷ s

-- `s.trim()`.
unfoldable pub trim : Text → Text
trim s = reverse (trim_start (reverse (trim_start s)))

-- `s.toUpperCase()` and `s.toLowerCase()` on ASCII letters; other code units stay.
abbrev pub upper_unit : ℕ → ℕ
upper_unit c = if leb b'a' c && leb c b'z' then c - 32 else c

abbrev pub lower_unit : ℕ → ℕ
lower_unit c = if leb b'A' c && leb c b'Z' then c + 32 else c

unfoldable pub to_upper : Text → Text
to_upper = map upper_unit

unfoldable pub to_lower : Text → Text
to_lower = map lower_unit

-- A string is falsy when it is null or empty.
abbrev pub truthy : Option Text → Bool
truthy none = false
truthy (some []) = false
truthy (some (c ∷ s)) = true

pub text_eq-false : (s t : Text) → (text_eq s t ≡ false) ↔ (s ≢ t)
text_eq-false s t = (
  λ h e. absurd (false≢true (sym h ∙ ap (text_eq s) (sym e) ∙ text_eq_refl s)),
  λ h. elim (Bool-cases (text_eq s t)) [ inl e ↦ absurd (h (text_eq→≡ s t e)) | inr e ↦ e ],
)

-- `path.startsWith(prefix)` and `path.endsWith(suffix)`.
unfoldable pub starts_with : Text → Text → Bool
starts_with path [] = true
starts_with [] (p ∷ prefix) = false
starts_with (c ∷ path) (p ∷ prefix) = c == p && starts_with path prefix

unfoldable pub ends_with : Text → Text → Bool
ends_with [] suffix = text_eq [] suffix
ends_with (c ∷ path) suffix = text_eq (c ∷ path) suffix || ends_with path suffix

-- The rest of the text behind the prefix.
unfoldable pub after_prefix : Text → Text → Option Text
after_prefix [] t = some t
after_prefix (p ∷ prefix) [] = none
after_prefix (p ∷ prefix) (c ∷ t) = if c == p then after_prefix prefix t else none

-- The text up to the first unit that stops it, and from there on.
unfoldable pub take_until : (ℕ → Bool) → Text → Text
take_until stop [] = []
take_until stop (c ∷ t) = if stop c then [] else c ∷ take_until stop t

unfoldable pub drop_until : (ℕ → Bool) → Text → Text
drop_until stop [] = []
drop_until stop (c ∷ t) = if stop c then c ∷ t else drop_until stop t

-- `s.split(c)` for one unit: the parts between, empty ones included.
abbrev pub onto_head : ℕ → List Text → List Text
onto_head c [] = (c ∷ []) ∷ []
onto_head c (t ∷ ts) = (c ∷ t) ∷ ts

unfoldable pub split_on : ℕ → Text → List Text
split_on by [] = [] ∷ []
split_on by (c ∷ t) = let rest = split_on by t in if c == by then [] ∷ rest else onto_head c rest

abbrev pub is_digit : ℕ → Bool
is_digit c = leb b'0' c && leb c b'9'

abbrev pub is_letter : ℕ → Bool
is_letter c = (leb b'a' c && leb c b'z') || (leb b'A' c && leb c b'Z')
