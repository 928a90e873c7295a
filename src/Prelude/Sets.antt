-- ===== src/Prelude/Sets.antt =====
-- `BTreeSet<String>` of the standard library: the list of its elements, ascending.
use gitzero.Prelude.{
  ==_iff, Bool, Bool-cases, List, Text, [], any, ap, arith, if◌then◌else◌, inl, inr, nat_key, refl,
  text_key, text_less, ◌&&◌, ◌==◌, ◌||◌, ◌∷◌, ◌≡◌,
}

abbrev pub Set : Type 0
Set = List Text

abbrev pub member : Text → Set → Bool
member x s = any (λ y. y == x) s

unfoldable pub insert_element : Text → Set → Set
insert_element x [] = x ∷ []
insert_element x (y ∷ s) =
    if y == x then y ∷ s else if text_less x y then x ∷ y ∷ s else y ∷ insert_element x s

unfoldable pub union : Set → Set → Set
unfolding insert_element
union s [] = s
union s (x ∷ t) = union (insert_element x s) t

unfoldable pub keep : (Text → Bool) → Set → Set
keep p [] = []
keep p (x ∷ s) = let rest = keep p s in if p x then x ∷ rest else rest

pub member-keep : (x : Text) (p : Text → Bool) (s : Set) → member x (keep p s) ≡ (member x s && p x)
unfolding keep
member-keep x p [] = refl
member-keep x p (y ∷ s) = elim (Bool-cases (y == x)) [
  | inl same ↦ let e : y ≡ x = (==_iff y x).0 same in ground (arith, member-keep x p s, ap p e)
  | inr other ↦ ground (arith, member-keep x p s)
]

pub member-insert_element :
    (x y : Text) (s : Set) → member x (insert_element y s) ≡ ((y == x) || member x s)
unfolding insert_element
member-insert_element x y [] = ground arith
member-insert_element x y (z ∷ s) =
    ground (arith, member-insert_element x y s, ==_iff z y, ==_iff y x, ==_iff z x)

pub member-union : (x : Text) (s t : Set) → member x (union s t) ≡ (member x s || member x t)
unfolding union
member-union x s [] = ground arith
member-union x s (y ∷ t) =
    ground (arith, member-union x (insert_element y s) t, member-insert_element x y s)
