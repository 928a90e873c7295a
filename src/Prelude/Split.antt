-- ===== src/Prelude/Split.antt =====
use Prim.Native.Nat.{ℕ}
use gitzero.Prelude.{
  Bool, Bool-cases, List, Option, Text, [], false, if◌then◌else◌, inl, inr, nat_beq, nat_key, none,
  refl, some, text_key, true, ℕ, ◌&&◌, ◌++◌, ◌∷◌, ◌≡◌,
}

-- The parts of `str` that take a text apart: prefixes, splitting, trimming and lines.

-- str::strip_prefix, the prefix first
unfoldable pub strip_prefix : Text → Text → Option Text
strip_prefix [] s = some s
strip_prefix (c ∷ p) [] = none
strip_prefix (c ∷ p) (d ∷ s) = if nat_beq c d then strip_prefix p s else none

abbrev pub cons_first : ℕ → Option (Text × Text) → Option (Text × Text)
cons_first c none = none
cons_first c (some (before, after)) = some (c ∷ before, after)

-- What `split_once` makes of the rest behind its separator, if it stands here.
abbrev pub split_here : Option Text → Option (Text × Text) → Option (Text × Text)
split_here none later = later
split_here (some after) later = some ([], after)

-- str::split_once, the separator first
unfoldable pub split_once : Text → Text → Option (Text × Text)
unfolding strip_prefix
split_once separator [] = split_here (strip_prefix separator []) none
split_once separator (c ∷ s) =
    split_here (strip_prefix separator (c ∷ s)) (cons_first c (split_once separator s))

abbrev pub cons_head : ℕ → List Text → List Text
cons_head c [] = (c ∷ []) ∷ []
cons_head c (part ∷ parts) = (c ∷ part) ∷ parts

-- str::split at each character of a kind
unfoldable pub split_at : (ℕ → Bool) → Text → List Text
split_at p [] = [] ∷ []
split_at p (c ∷ s) = let rest = split_at p s in if p c then [] ∷ rest else cons_head c rest

abbrev pub is_empty : Text → Bool
is_empty [] = true
is_empty _ = false

-- iter().filter
unfoldable pub filter {ℓ} : {A : Type ℓ} → (A → Bool) → List A → List A
filter p [] = []
filter p (x ∷ xs) = let rest = filter p xs in if p x then x ∷ rest else rest

-- split_inclusive('\n')
unfoldable pub split_lines : Text → List Text
split_lines [] = []
split_lines (c ∷ s) =
    let rest = split_lines s in if nat_beq c b'\n' then (c ∷ []) ∷ rest else cons_head c rest

-- str::trim_end_matches
unfoldable pub trim_end : (ℕ → Bool) → Text → Text
trim_end p [] = []
trim_end p (c ∷ s) = let rest = trim_end p s in if is_empty rest && p c then [] else c ∷ rest

abbrev pub concat : List Text → Text
concat [] = []
concat (part ∷ parts) = part ++ concat parts

concat-cons_head : (c : ℕ) (parts : List Text) → concat (cons_head c parts) ≡ c ∷ concat parts
concat-cons_head c [] = refl
concat-cons_head c (part ∷ parts) = refl

-- The lines of a text, each with its line break, are the text.
pub concat-split_lines : (s : Text) → concat (split_lines s) ≡ s
unfolding split_lines
concat-split_lines [] = refl
concat-split_lines (c ∷ s) = elim (Bool-cases (nat_beq c b'\n')) [
  | inl ends ↦ rw (ends, concat-split_lines s) refl
  | inr inside ↦ rw (inside, concat-cons_head c (split_lines s), concat-split_lines s) refl
]
