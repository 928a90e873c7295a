-- ===== src/Prelude/Strings.antt =====
-- The parts of `str` that the program calls: prefixes, suffixes, substrings, joining, and
-- `parse::<usize>`.
use gitzero.Prelude.{
  Bool, List, Option, Text, [], arith, false, if◌then◌else◌, leb, nat_beq, nat_key, none, some,
  text_beq, text_key, true, ℕ, ◌&&◌, ◌*◌, ◌++◌, ◌+◌, ◌-◌, ◌||◌, ◌∷◌, ◌≡◌, ◌≤◌,
}

-- str::starts_with
unfoldable pub starts_with : Text → Text → Bool
starts_with s [] = true
starts_with [] (p ∷ ps) = false
starts_with (c ∷ s) (p ∷ ps) = nat_beq c p && starts_with s ps

-- str::ends_with
unfoldable pub ends_with : Text → Text → Bool
unfolding text_beq
ends_with [] suffix = text_beq [] suffix
ends_with (c ∷ s) suffix = text_beq (c ∷ s) suffix || ends_with s suffix

-- str::contains
unfoldable pub contains_text : Text → Text → Bool
unfolding starts_with
contains_text [] needle = starts_with [] needle
contains_text (c ∷ s) needle = starts_with (c ∷ s) needle || contains_text s needle

-- [String]::join
unfoldable pub join_text : Text → List Text → Text
join_text separator [] = []
join_text separator (s ∷ []) = s
join_text separator (s ∷ t ∷ rest) = s ++ (separator ++ join_text separator (t ∷ rest))

abbrev pub usize_max : ℕ
usize_max = 0xffff_ffff_ffff_ffff

-- The digits of `usize::from_str`, with its check for overflow.
usize_digits : ℕ → Text → Option ℕ
usize_digits n [] = some n
usize_digits n (c ∷ s) =
    let n' = n * 10 + (c - b'0') in
    let rest = usize_digits n' s in
    if leb b'0' c && leb c b'9' then (if leb n' usize_max then rest else none) else none

usize_unsigned : Text → Option ℕ
unfolding usize_digits
usize_unsigned [] = none
usize_unsigned (c ∷ s) = usize_digits 0 (c ∷ s)

unfoldable pub parse_usize : Text → Option ℕ
unfolding usize_unsigned
parse_usize [] = none
parse_usize (c ∷ s) = if nat_beq c b'+' then usize_unsigned s else usize_unsigned (c ∷ s)

-- `split(':').next()`
unfoldable pub before_colon : Text → Text
before_colon [] = []
before_colon (c ∷ s) = if nat_beq c b':' then [] else c ∷ before_colon s

usize_digits_le :
    (n : ℕ) (s : Text) (m : ℕ) → n ≤ usize_max → usize_digits n s ≡ some m → m ≤ usize_max
unfolding usize_digits
usize_digits_le n [] m h e = ground arith
usize_digits_le n (c ∷ s) m h e = ground (arith, usize_digits_le (n * 10 + (c - b'0')) s m)

usize_unsigned_le : (s : Text) (m : ℕ) → usize_unsigned s ≡ some m → m ≤ usize_max
unfolding usize_unsigned
usize_unsigned_le [] m e = cc
usize_unsigned_le (c ∷ s) m e = usize_digits_le 0 (c ∷ s) m (omega arith) e

-- A number that parses fits the machine word.
pub parse_usize_le : (s : Text) (m : ℕ) → parse_usize s ≡ some m → m ≤ usize_max
unfolding parse_usize
parse_usize_le [] m e = cc
parse_usize_le (c ∷ s) m e = ground (arith, usize_unsigned_le s m, usize_unsigned_le (c ∷ s) m)
