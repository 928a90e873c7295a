-- ===== src/Prelude/Keys.antt =====
-- Keys that can be compared, and text as the list of its Unicode scalar values.
use Prim.Native.Nat.{ℕ, ◌+◌}
use Prim.Native.Char.{code}
use Prim.Native.String.{String}
use mathlib.Core.Path.{◌≡◌, refl}
use mathlib.Core.Logic.{◌↔◌}
use mathlib.Core.Bool.{Bool, true, false, ◌&&◌, ◌||◌}
use mathlib.Core.List.{List, [], ◌∷◌, map}
use native.Mathlib.Omega.{arith}
use gitzero.Prelude.Tests.{ltb, leb, nat_beq, nat_beq_iff, if◌then◌else◌}

-- `Eq` and `Ord` of Rust, as far as a map needs them.
pub record Key {ℓ} (A : Type ℓ) : Type ℓ where
  pub beq : A → A → Bool
  pub less : A → A → Bool
  pub beq_iff : (a b : A) → (beq a b ≡ true) ↔ (a ≡ b)

infix 50 ◌==◌
abbrev pub ◌==◌ {ℓ} : {A : Type ℓ} ⦃k : Key A⦄ → A → A → Bool
◌==◌ ⦃k⦄ = k.beq

pub ==_refl {ℓ} : {A : Type ℓ} ⦃k : Key A⦄ (a : A) → (a == a) ≡ true
==_refl ⦃k⦄ a = (k.beq_iff a a).1 refl

pub ==_iff {ℓ} : {A : Type ℓ} ⦃k : Key A⦄ (a b : A) → ((a == b) ≡ true) ↔ (a ≡ b)
==_iff ⦃k⦄ = k.beq_iff

instance abbrev pub nat_key : Key ℕ
nat_key = record { beq = nat_beq; less = ltb; beq_iff = nat_beq_iff }

-- A Rust `String` or `&str`: its `chars()`.
abbrev pub Text : Type 0
Text = List ℕ

unfoldable pub text_beq : Text → Text → Bool
text_beq [] [] = true
text_beq (a ∷ s) (b ∷ t) = nat_beq a b && text_beq s t
text_beq _ _ = false

-- The order of the UTF-8 bytes, which is that of the scalar values.
unfoldable pub text_less : Text → Text → Bool
text_less [] [] = false
text_less [] (b ∷ t) = true
text_less (a ∷ s) [] = false
text_less (a ∷ s) (b ∷ t) = ltb a b || (nat_beq a b && text_less s t)

pub text_beq_iff : (s t : Text) → (text_beq s t ≡ true) ↔ (s ≡ t)
unfolding text_beq
text_beq_iff (a ∷ s) (b ∷ t) = ground (arith, text_beq_iff s t)
text_beq_iff _ _ = ground arith

instance abbrev pub text_key : Key Text
text_key = record { beq = text_beq; less = text_less; beq_iff = text_beq_iff }

-- The scalar values of a literal.
abbrev pub codes : String → Text
codes String.[] = []
codes (String.◌∷◌ c s) = code c ∷ codes s

-- char::to_ascii_lowercase, str::to_ascii_lowercase
unfoldable pub ascii_lower : ℕ → ℕ
ascii_lower c = if leb b'A' c && leb c b'Z' then c + 32 else c

abbrev pub to_ascii_lowercase : Text → Text
to_ascii_lowercase = map ascii_lower

-- str::eq_ignore_ascii_case
abbrev pub eq_ignore_ascii_case : Text → Text → Bool
eq_ignore_ascii_case s t = text_beq (to_ascii_lowercase s) (to_ascii_lowercase t)

pub ascii_lower_idem : (c : ℕ) → ascii_lower (ascii_lower c) ≡ ascii_lower c
unfolding ascii_lower
ascii_lower_idem c = ground arith

-- The order of pairs is that of the first components, then of the second.
module _ {ℓ κ} {A : Type ℓ} {B : Type κ} ⦃first : Key A⦄ ⦃second : Key B⦄ where
  abbrev pair_beq : A × B → A × B → Bool
  pair_beq (a, b) (c, d) = first.beq a c && second.beq b d

  abbrev pair_less : A × B → A × B → Bool
  pair_less (a, b) (c, d) = first.less a c || (first.beq a c && second.less b d)

  pub pair_beq_iff : (x y : A × B) → (pair_beq x y ≡ true) ↔ (x ≡ y)
  pair_beq_iff x y = (to, from)
    where
      and_parts : (a b : Bool) → (a && b) ≡ true → (a ≡ true) × (b ≡ true)
      and_parts a b h = ground (arith, h)

      to : pair_beq x y ≡ true → x ≡ y
      to h =
          let p : (first.beq x.0 y.0 ≡ true) × (second.beq x.1 y.1 ≡ true) =
            and_parts (first.beq x.0 y.0) (second.beq x.1 y.1) h in
          λ i. ((first.beq_iff x.0 y.0).0 p.0 i, (second.beq_iff x.1 y.1).0 p.1 i)

      from : x ≡ y → pair_beq x y ≡ true
      from e = ground (
        arith,
        (first.beq_iff x.0 y.0).1 (λ i. (e i).0),
        (second.beq_iff x.1 y.1).1 (λ i. (e i).1),
      )

  instance abbrev pub pair_key : Key (A × B)
  pair_key = record { beq = pair_beq; less = pair_less; beq_iff = pair_beq_iff }
