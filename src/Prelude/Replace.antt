-- ===== src/Prelude/Replace.antt =====
-- `str::replace`.
use gitzero.Prelude.{
  &&-true, Bool, Bool-cases, Text, [], any, arith, codes, false, inl, inr, length, nat_beq, nat_key,
  not, refl, subst, suc, sym, text_key, true, zero, ℕ, ◌&&◌, ◌++◌, ◌-◌, ◌||◌, ◌∷◌, ◌≡◌,
}
use Prim.Native.Nat.{ℕ}
use gitzero.Prelude.Strings.{starts_with, contains_text}

-- Every position of an empty pattern.
unfoldable pub replace_empty : Text → Text → Text
replace_empty to [] = to
replace_empty to (c ∷ s) = to ++ c ∷ replace_empty to s

-- The first argument counts what is left of an occurrence that was replaced.
unfoldable pub replace_from : ℕ → Text → Text → Text → Text
unfolding starts_with
replace_from skip from to [] = []
replace_from zero from to (c ∷ s) = elim (starts_with (c ∷ s) from) [
  | true ↦ to ++ replace_from (length from - 1) from to s
  | false ↦ c ∷ replace_from zero from to s
]
replace_from (suc skip) from to (c ∷ s) = replace_from skip from to s

-- str::replace, the pattern and the replacement first
unfoldable pub replace : Text → Text → Text → Text
unfolding replace_from replace_empty
replace [] to s = replace_empty to s
replace (p ∷ from) to s = replace_from 0 (p ∷ from) to s

-- What a masked text is replaced by.
abbrev pub hidden : Text
hidden = codes "***"

-- Whether a text has none of a character.
abbrev pub avoids : ℕ → Text → Bool
avoids c s = not (any (λ d. nat_beq d c) s)

pub ||-false : (a b : Bool) → (a || b) ≡ false → (a ≡ false) × (b ≡ false)
||-false a b h = ground arith

||-false-intro : (a b : Bool) → a ≡ false → b ≡ false → (a || b) ≡ false
||-false-intro a b h k = ground arith

first_and : (a b : Bool) → (a && b) ≡ true → a ≡ true
first_and true b h = refl
first_and false b h = h

refute : (a b : Bool) → (a ≡ true → b ≡ true) → b ≡ false → a ≡ false
refute a b f h = ground (arith, f)

hidden-avoids :
    (b : ℕ) (q s : Text)
    → avoids b'*' (b ∷ q) ≡ true
    → contains_text s (b ∷ q) ≡ false
    → contains_text (hidden ++ s) (b ∷ q) ≡ false
unfolding contains_text starts_with
hidden-avoids b q s free h = ground arith

replace_from-found :
    (from to s : Text) (c : ℕ)
    → starts_with (c ∷ s) from ≡ true
    → replace_from 0 from to (c ∷ s) ≡ to ++ replace_from (length from - 1) from to s
unfolding replace_from
replace_from-found from to s c h = rw (h, replace_from) refl

pub replace_from-other :
    (from to s : Text) (c : ℕ)
    → starts_with (c ∷ s) from ≡ false
    → replace_from 0 from to (c ∷ s) ≡ c ∷ replace_from 0 from to s
unfolding replace_from
replace_from-other from to s c h = rw (h, replace_from) refl

module _ (from : Text) where
  -- What starts a text after the replacement, and has nothing of it, starts the text.
  starts_with-replace_from :
      (q s : Text)
      → avoids b'*' q ≡ true
      → starts_with (replace_from 0 from hidden s) q ≡ true
      → starts_with s q ≡ true
  unfolding starts_with replace_from
  starts_with-replace_from [] s free h = ground arith
  starts_with-replace_from (b ∷ q) [] free h = h
  starts_with-replace_from (b ∷ q) (c ∷ s) free h = elim (Bool-cases (starts_with (c ∷ s) from)) [
    | inl found ↦ absurd (starred (replaced found h))
    | inr other ↦
        let (same, rest) =
          &&-true (nat_beq c b) (starts_with (replace_from 0 from hidden s) q) (kept other h) in
        ground (arith, same, starts_with-replace_from q s (later free) rest)
  ]
    where
      replaced :
          starts_with (c ∷ s) from ≡ true
          → starts_with (replace_from 0 from hidden (c ∷ s)) (b ∷ q) ≡ true
          → nat_beq b'*' b ≡ true
      replaced found h =
          first_and (nat_beq b'*' b)
            (starts_with (b'*' ∷ b'*' ∷ replace_from (length from - 1) from hidden s) q)
            (subst (λ t. starts_with t (b ∷ q) ≡ true) (replace_from-found from hidden s c found) h)

      kept :
          starts_with (c ∷ s) from ≡ false
          → starts_with (replace_from 0 from hidden (c ∷ s)) (b ∷ q) ≡ true
          → (nat_beq c b && starts_with (replace_from 0 from hidden s) q) ≡ true
      kept other =
          subst (λ t. starts_with t (b ∷ q) ≡ true) (replace_from-other from hidden s c other)

      starred : nat_beq b'*' b ≡ true → ⊥
      starred h = ground arith

      later : avoids b'*' (b ∷ q) ≡ true → avoids b'*' q ≡ true
      later h = ground arith

  -- Replacing occurrences of one text by stars adds no occurrence of another.
  pub contains_text-replace_from :
      (skip b : ℕ) (q s : Text)
      → avoids b'*' (b ∷ q) ≡ true
      → contains_text s (b ∷ q) ≡ false
      → contains_text (replace_from skip from hidden s) (b ∷ q) ≡ false
  unfolding contains_text replace_from
  contains_text-replace_from skip b q [] free h = h
  contains_text-replace_from (suc skip) b q (c ∷ s) free h =
      contains_text-replace_from skip b q s free (||-false _ _ h).1
  contains_text-replace_from zero b q (c ∷ s) free h =
      let (start, rest) = ||-false _ _ h in
      elim (Bool-cases (starts_with (c ∷ s) from)) [
        | inl found ↦
            subst (λ t. contains_text t (b ∷ q) ≡ false)
              (sym (replace_from-found from hidden s c found))
              (hidden-avoids b q _ free
                (contains_text-replace_from (length from - 1) b q s free rest))
        | inr other ↦
            subst (λ t. contains_text t (b ∷ q) ≡ false)
              (sym (replace_from-other from hidden s c other))
              (||-false-intro _ _
                (not_started (starts_with-replace_from (b ∷ q) (c ∷ s) free) other start)
                (contains_text-replace_from zero b q s free rest))
      ]
    where
      not_started :
          (starts_with (replace_from 0 from hidden (c ∷ s)) (b ∷ q) ≡ true
            → starts_with (c ∷ s) (b ∷ q) ≡ true)
          → starts_with (c ∷ s) from ≡ false
          → starts_with (c ∷ s) (b ∷ q) ≡ false
          → starts_with (c ∷ replace_from 0 from hidden s) (b ∷ q) ≡ false
      not_started back other start =
          refute _ _
            (λ k. back (
              subst (λ t. starts_with t (b ∷ q) ≡ true)
                (sym (replace_from-other from hidden s c other)) k))
            start

-- A text whose occurrences are replaced by stars occurs no more, if it has no star itself.
pub contains_text-replaced :
    (skip b : ℕ) (q s : Text)
    → avoids b'*' (b ∷ q) ≡ true
    → contains_text (replace_from skip (b ∷ q) hidden s) (b ∷ q) ≡ false
unfolding contains_text replace_from starts_with
contains_text-replaced skip b q [] free = refl
contains_text-replaced (suc skip) b q (c ∷ s) free = contains_text-replaced skip b q s free
contains_text-replaced zero b q (c ∷ s) free = elim (Bool-cases (starts_with (c ∷ s) (b ∷ q))) [
  | inl found ↦
      subst (λ t. contains_text t (b ∷ q) ≡ false)
        (sym (replace_from-found (b ∷ q) hidden s c found))
        (hidden-avoids b q _ free (contains_text-replaced (length (b ∷ q) - 1) b q s free))
  | inr other ↦
      subst (λ t. contains_text t (b ∷ q) ≡ false)
        (sym (replace_from-other (b ∷ q) hidden s c other))
        (||-false-intro _ _
          (refute _ _
            (λ k. starts_with-replace_from (b ∷ q) (b ∷ q) (c ∷ s) free (
              subst (λ t. starts_with t (b ∷ q) ≡ true)
                (sym (replace_from-other (b ∷ q) hidden s c other)) k))
            other)
          (contains_text-replaced zero b q s free))
]
