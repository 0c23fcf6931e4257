-- ===== src/RateLimit/Spoofing.antt =====
-- A client cannot choose its bucket by what it puts in front of the proxy's header.
use megacorps.Prelude.{
  ℕ, ◌≡◌, refl, ap, ◌∙◌, Bool, true, false, not, List, [], ◌∷◌, ◌++◌, keep, is_empty, ◌==◌, Text,
  text, trim, map, arith, Bool-cases, inl, inr,
}
use mathlib.Core.List.{map-append}
use megacorps.RateLimit.Policy.{
  Environment, is_on, onto_first, split_commas, hops_of, last_or, single, header_text, non_empty_or,
  client_key,
}

split_commas-cons : (t : Text) → (x : Text) × ((xs : List Text) × (split_commas t ≡ x ∷ xs))
unfolding split_commas
split_commas-cons [] = ([], ([], refl))
split_commas-cons (c ∷ s) = elim (Bool-cases (c == 44)) [
  | inl comma ↦ ([], (split_commas s, rw comma refl))
  | inr other ↦ let (x, (xs, e)) = split_commas-cons s in (c ∷ x, (xs, rw (other, e) refl))
]

onto_first-append :
    (c : ℕ) (ts us : List Text) (x : Text) (xs : List Text)
    → ts ≡ x ∷ xs
    → onto_first c (ts ++ us) ≡ onto_first c ts ++ us
onto_first-append c ts us x xs e = rw e refl

split_commas-append : (p t : Text) → split_commas (p ++ 44 ∷ t) ≡ split_commas p ++ split_commas t
unfolding split_commas
split_commas-append [] t = refl
split_commas-append (c ∷ p) t = elim (Bool-cases (c == 44)) [
  | inl comma ↦ rw (comma, split_commas-append p t) refl
  | inr other ↦
      let (x, (xs, e)) = split_commas-cons p in
      rw (other, split_commas-append p t)
        (onto_first-append c (split_commas p) (split_commas t) x xs e)
]

keep-append :
    {A : Type 0} (p : A → Bool) (xs ys : List A) → keep p (xs ++ ys) ≡ keep p xs ++ keep p ys
keep-append p [] ys = refl
keep-append p (x ∷ xs) ys = elim (Bool-cases (p x)) [
  | inl kept ↦ rw (kept, keep-append p xs ys) refl
  | inr dropped ↦ rw (dropped, keep-append p xs ys) refl
]

hops_of-append : (p t : Text) → hops_of (p ++ 44 ∷ t) ≡ hops_of p ++ hops_of t
unfolding hops_of
hops_of-append p t =
    ap (λ ts. keep (λ hop. not (is_empty hop)) (map trim ts)) (split_commas-append p t)
    ∙ ap (keep (λ hop. not (is_empty hop))) (map-append trim (split_commas p) (split_commas t))
    ∙ keep-append (λ hop. not (is_empty hop)) (map trim (split_commas p))
        (map trim (split_commas t))

last_or-append :
    (ts us : List Text) (d e : Text) → is_empty us ≡ false → last_or d (ts ++ us) ≡ last_or e us
last_or-append [] (u ∷ us) d e h = refl
last_or-append [] [] d e h = ground arith
last_or-append (t ∷ ts) us d e h = last_or-append ts us t e h

-- Behind a trusted proxy the client's bucket depends only on what the proxy appended to the
-- header: whatever stands before it, forged hops included, changes nothing, as long as the proxy
-- appended an address.
pub client_key-forged :
    (env : Environment) (forged appended ip : Text)
    → is_on env.trust_proxy ≡ true
    → is_empty (hops_of appended) ≡ false
    → client_key env (single (forged ++ 44 ∷ appended)) ip ≡ client_key env (single appended) ip
unfolding client_key header_text
client_key-forged env forged appended ip trusted present = rw trusted (
    ap (λ key. non_empty_or key (non_empty_or ip (text "unknown")))
      (ap (last_or []) (hops_of-append forged appended)
        ∙ last_or-append (hops_of forged) (hops_of appended) [] [] present))
