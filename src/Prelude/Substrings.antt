-- ===== src/Prelude/Substrings.antt =====
-- What `starts_with` and `contains` of `str` find, as parts of a text.
use gitzero.Prelude.Strings.{starts_with, contains_text}
use gitzero.Prelude.{
  ap, inl, inr, ℕ, Bool-cases, Text, [], arith, true, ◌++◌, ◌∷◌, ◌≡◌, nat_beq, nat_beq_iff, ap, inl,
  inr, ℕ, &&-true, refl, nat_key,
}

nat_beq_refl : (c : ℕ) → nat_beq c c ≡ true
nat_beq_refl c = ground arith

starts_with-append : (p after : Text) → starts_with (p ++ after) p ≡ true
unfolding starts_with
starts_with-append [] after = refl
starts_with-append (c ∷ p) after = ground (arith, starts_with-append p after)

prefixed : (s p : Text) → starts_with s p ≡ true → (after : Text) × (s ≡ p ++ after)
unfolding starts_with
prefixed s [] h = (s, refl)
prefixed [] (c ∷ p) h = cc
prefixed (d ∷ s) (c ∷ p) h =
    let (same, rest) = &&-true (nat_beq d c) (starts_with s p) h in
    let (after, e) = prefixed s p rest in (after, λ i. (nat_beq_iff d c).0 same i ∷ e i)

pub contains_text-append :
    (before needle after : Text) → contains_text (before ++ (needle ++ after)) needle ≡ true
unfolding contains_text starts_with
contains_text-append [] [] [] = refl
contains_text-append [] [] (c ∷ after) = refl
contains_text-append [] (c ∷ needle) after = ground (arith, starts_with-append needle after)
contains_text-append (c ∷ before) needle after =
    ground (arith, contains_text-append before needle after)

pub contained :
    (s needle : Text)
    → contains_text s needle ≡ true
    → (before : Text) × (after : Text) × (s ≡ before ++ (needle ++ after))
unfolding contains_text
contained [] needle h = let (after, e) = prefixed [] needle h in ([], after, e)
contained (c ∷ s) needle h = elim (Bool-cases (starts_with (c ∷ s) needle)) [
  | inl found ↦ let (after, e) = prefixed (c ∷ s) needle found in ([], after, e)
  | inr missing ↦
      let (before, after, e) = contained s needle (ground (arith, h, missing)) in
      (c ∷ before, after, ap (λ rest. c ∷ rest) e)
]
