-- ===== src/Prelude/Utf8.antt =====
-- UTF-8 lengths and character boundaries of a Rust string, and the loop that looks for the last
-- boundary at or below an index (crates/gitzero-agent/src/concurrency.rs, `bounded_unit_id`, and
-- crates/gitzero-agent/src/executor.rs, `truncate_utf8_bytes`).
use Prim.Native.Nat.{ℕ, zero, suc, ◌+◌, ◌-◌, ◌≤◌}
use mathlib.Core.Path.{◌≡◌, refl, sym, ap, ◌∙◌}
use mathlib.Core.Logic.{inl, inr}
use mathlib.Core.Bool.{Bool, true, false≢true, ◌&&◌, ◌||◌}
use mathlib.Core.List.{[], ◌∷◌, ◌++◌}
use native.Mathlib.Omega.{arith}
use gitzero.Prelude.Tests.{leb, ltb, nat_beq, if◌then◌else◌, Bool-cases}
use gitzero.Prelude.Keys.{Text}

-- char::len_utf8
abbrev pub len_utf8 : ℕ → ℕ
len_utf8 c = if ltb c 0x80 then 1 else if ltb c 0x800 then 2 else if ltb c 0x1_0000 then 3 else 4

-- str::len
abbrev pub byte_len : Text → ℕ
byte_len [] = 0
byte_len (c ∷ s) = len_utf8 c + byte_len s

-- str::is_char_boundary
unfoldable pub is_char_boundary : Text → ℕ → Bool
is_char_boundary [] index = nat_beq index 0
is_char_boundary (c ∷ s) index =
    nat_beq index 0 || (leb (len_utf8 c) index && is_char_boundary s (index - len_utf8 c))

-- `while !value.is_char_boundary(boundary) { boundary -= 1; }`
unfoldable pub floor_boundary : Text → ℕ → ℕ
unfolding is_char_boundary
floor_boundary s zero = 0
floor_boundary s (suc boundary) =
    let below = floor_boundary s boundary in
    if is_char_boundary s (suc boundary) then suc boundary else below

-- String::truncate at a boundary: the characters that end by the index.
unfoldable pub truncate : Text → ℕ → Text
truncate [] index = []
truncate (c ∷ s) index = if leb (len_utf8 c) index then c ∷ truncate s (index - len_utf8 c) else []

-- A truncated text has at most the bytes of the index, at most those of the text, and is a prefix.
pub truncate_le : (s : Text) (index : ℕ) → byte_len (truncate s index) ≤ index
unfolding truncate
truncate_le [] index = omega arith
truncate_le (c ∷ s) index = ground (arith, truncate_le s (index - len_utf8 c))

pub floor_boundary_le : (s : Text) (index : ℕ) → floor_boundary s index ≤ index
unfolding floor_boundary
floor_boundary_le s zero = omega arith
floor_boundary_le s (suc index) = ground (arith, floor_boundary_le s index)

-- The text splits at the cut.
pub truncate-IsPrefix : (s : Text) (index : ℕ) → (rest : Text) × (s ≡ truncate s index ++ rest)
unfolding truncate
truncate-IsPrefix [] index = ([], refl)
truncate-IsPrefix (c ∷ s) index = elim (Bool-cases (leb (len_utf8 c) index)) [
  | inl fits ↦
      let (rest, e) = truncate-IsPrefix s (index - len_utf8 c) in (rest, rw fits (ap (◌∷◌ c) e))
  | inr over ↦ (c ∷ s, rw over)
]

pub len_utf8_bounds : (c : ℕ) → (1 ≤ len_utf8 c) × (len_utf8 c ≤ 4)
len_utf8_bounds c = ground arith

pub is_char_boundary-append : (s rest : Text) → is_char_boundary (s ++ rest) (byte_len s) ≡ true
unfolding is_char_boundary
is_char_boundary-append [] [] = refl
is_char_boundary-append [] (c ∷ rest) = refl
is_char_boundary-append (c ∷ s) rest =
    let e : len_utf8 c + byte_len s - len_utf8 c ≡ byte_len s = omega arith in
    rw e (ground (arith, is_char_boundary-append s rest))

pub floor_boundary-IsGreatest :
    (s : Text) (boundary index : ℕ)
    → is_char_boundary s boundary ≡ true
    → boundary ≤ index
    → boundary ≤ floor_boundary s index
unfolding floor_boundary
floor_boundary-IsGreatest s boundary zero h le = le
floor_boundary-IsGreatest s boundary (suc index) h le =
    elim (Bool-cases (is_char_boundary s (suc index))) [
      | inl here ↦ rw here le
      | inr none ↦ rw none (
          floor_boundary-IsGreatest s boundary index h (
            omega (
              arith,
              λ (e : boundary ≡ suc index).
                  false≢true (sym none ∙ ap (is_char_boundary s) (sym e) ∙ h),
            )))
    ]

pub is_char_boundary-floor_boundary :
    (s : Text) (index : ℕ) → is_char_boundary s (floor_boundary s index) ≡ true
unfolding floor_boundary
is_char_boundary-floor_boundary [] zero = unfold is_char_boundary in refl
is_char_boundary-floor_boundary (c ∷ s) zero = unfold is_char_boundary in refl
is_char_boundary-floor_boundary s (suc index) = elim (Bool-cases (is_char_boundary s (suc index))) [
  | inl here ↦ rw here here
  | inr none ↦ rw none (is_char_boundary-floor_boundary s index)
]

pub byte_len-truncate :
    (s : Text) (index : ℕ) → is_char_boundary s index ≡ true → byte_len (truncate s index) ≡ index
unfolding truncate is_char_boundary
byte_len-truncate [] index h = ground arith
byte_len-truncate (c ∷ s) index h =
    ground (arith, len_utf8_bounds c, byte_len-truncate s (index - len_utf8 c))

pub byte_len-append : (s t : Text) → byte_len (s ++ t) ≡ byte_len s + byte_len t
byte_len-append [] t = omega arith
byte_len-append (c ∷ s) t = omega (arith, byte_len-append s t)
