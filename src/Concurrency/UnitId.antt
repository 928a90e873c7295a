-- ===== src/Concurrency/UnitId.antt =====
-- `bounded_unit_id` of crates/gitzero-agent/src/concurrency.rs.
use gitzero.Prelude.{
  ℕ, ◌+◌, ◌-◌, ◌≤◌, ◌<◌, ◌≡◌, ◌⊎◌, inl, inr, [], ◌∷◌, ◌++◌, arith, leb, Text, if◌then◌else◌,
  Bool-cases,
}
use gitzero.Prelude.Utf8.{
  len_utf8, byte_len, byte_len-append, floor_boundary, truncate, truncate_le, truncate-IsPrefix,
  floor_boundary_le, is_char_boundary-append, is_char_boundary-floor_boundary, byte_len-truncate,
  floor_boundary-IsGreatest,
}

abbrev pub max_bytes : ℕ
max_bytes = 512

abbrev pub ellipsis : ℕ
ellipsis = 0x2026

unfoldable pub bounded_unit_id : Text → Text
unfolding floor_boundary truncate
bounded_unit_id value =
    if leb (byte_len value) max_bytes
    then value
    else truncate value (floor_boundary value (max_bytes - len_utf8 ellipsis)) ++ ellipsis ∷ []

-- What a text is cut to: `kept` is a prefix of at most 509 bytes, which leaves room for the ellipsis.
pub record IsCut (value kept : Text) : Type 0 where
  pub rest : Text
  pub splits : value ≡ kept ++ rest
  pub fits : byte_len kept ≤ max_bytes - len_utf8 ellipsis

truncate-IsCut :
    (value : Text)
    → IsCut value (truncate value (floor_boundary value (max_bytes - len_utf8 ellipsis)))
truncate-IsCut value =
    let limit : ℕ = 509 in
    let (rest, e) = truncate-IsPrefix value (floor_boundary value limit) in
    record {
      rest = rest;
      splits = e;
      fits =
          omega
            (arith, truncate_le value (floor_boundary value limit), floor_boundary_le value limit);
    }

-- A unit id of at most 512 bytes is sent unchanged. A longer one becomes a prefix of
-- whole characters of at most 509 bytes, with the ellipsis behind it.
pub bounded_unit_id_lem :
    (value : Text)
    → ((byte_len value ≤ max_bytes) × (bounded_unit_id value ≡ value))
      ⊎ ((kept : Text) × (max_bytes < byte_len value)
          × (bounded_unit_id value ≡ kept ++ ellipsis ∷ [])
          × IsCut value kept)
unfolding bounded_unit_id
bounded_unit_id_lem value = elim (Bool-cases (leb (byte_len value) max_bytes)) [
  | inl short ↦ inl (ground arith, rw short)
  | inr long ↦ inr (_, ground arith, rw long, truncate-IsCut value)
]

-- Whatever the text, the id that is sent has at most 512 bytes.
pub bounded_unit_id_le : (value : Text) → byte_len (bounded_unit_id value) ≤ max_bytes
bounded_unit_id_le value = elim (bounded_unit_id_lem value) [
  | inl (short, same) ↦ rw same short
  | inr (kept, long, cut, is_cut) ↦
      rw cut (omega (arith, is_cut.fits, byte_len-append kept (ellipsis ∷ [])))
]

bounded_unit_id_cut :
    (value : Text)
    → max_bytes < byte_len value
    → (bounded_unit_id value
        ≡ truncate value (floor_boundary value (max_bytes - len_utf8 ellipsis)) ++ ellipsis ∷ [])
      × (byte_len (truncate value (floor_boundary value 509)) ≡ floor_boundary value 509)
unfolding bounded_unit_id
bounded_unit_id_cut value long =
    (ground arith, byte_len-truncate value _ (is_char_boundary-floor_boundary value 509))

-- Of a text of more than 512 bytes, the part that is kept before the ellipsis has at least the
-- bytes of every prefix that leaves room for it: no cut at a later character would fit.
pub bounded_unit_id_longest :
    (value p q : Text)
    → max_bytes < byte_len value
    → value ≡ p ++ q
    → byte_len p ≤ max_bytes - len_utf8 ellipsis
    → byte_len p + len_utf8 ellipsis ≤ byte_len (bounded_unit_id value)
bounded_unit_id_longest value p q long s h =
    let (same, exact) = bounded_unit_id_cut value long in
    rw same (
      omega (
        arith,
        byte_len-append (truncate value (floor_boundary value 509)) (ellipsis ∷ []),
        exact,
        floor_boundary-IsGreatest value (byte_len p) 509 (rw s (is_char_boundary-append p q)) h,
      ))
