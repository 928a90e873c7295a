-- ===== src/Commands/MaskLists.antt =====
-- What is counted of the masks of a scope (crates/gitzero-agent/src/executor.rs).
use gitzero.Commands.Masks.{
  max_masks, max_mask_bytes, WorkflowCommandScope, insert_by_length, sort_by_length,
}
use gitzero.Prelude.Split.{is_empty}
use gitzero.Prelude.Utf8.{byte_len}
use gitzero.Prelude.{
  any-append, ==_iff, Bool, List, Text, [], all, any, arith, length, nat_key, not, refl, suc,
  text_key, true, ℕ, ◌&&◌, ◌++◌, ◌+◌, ◌==◌, ◌||◌, ◌∷◌, ◌≡◌, ◌≤◌,
}

abbrev pub total_bytes : List Text → ℕ
total_bytes [] = 0
total_bytes (mask ∷ masks) = byte_len mask + total_bytes masks

abbrev pub has_mask : Text → List Text → Bool
has_mask value masks = any (λ mask. mask == value) masks

abbrev pub distinct : List Text → Bool
distinct [] = true
distinct (mask ∷ masks) = not (has_mask mask masks) && distinct masks

abbrev pub none_empty : List Text → Bool
none_empty masks = all (λ mask. not (is_empty mask)) masks

-- What holds of a scope between two commands.
pub record IsScope (scope : WorkflowCommandScope) : Type 0 where
  pub counted : scope.mask_bytes ≡ total_bytes scope.masks
  pub bytes_capped : scope.mask_bytes ≤ max_mask_bytes
  pub masks_capped : length scope.masks ≤ max_masks
  pub not_empty : none_empty scope.masks ≡ true
  pub once : distinct scope.masks ≡ true

total_bytes-insert :
    (x : Text) (masks : List Text)
    → total_bytes (insert_by_length x masks) ≡ byte_len x + total_bytes masks
unfolding insert_by_length
total_bytes-insert x [] = omega arith
total_bytes-insert x (y ∷ masks) = ground (arith, total_bytes-insert x masks)

length-insert_by_length :
    (x : Text) (masks : List Text) → length (insert_by_length x masks) ≡ suc (length masks)
unfolding insert_by_length
length-insert_by_length x [] = omega arith
length-insert_by_length x (y ∷ masks) = ground (arith, length-insert_by_length x masks)

any-insert_by_length :
    (p : Text → Bool) (x : Text) (masks : List Text)
    → any p (insert_by_length x masks) ≡ (p x || any p masks)
unfolding insert_by_length
any-insert_by_length p x [] = refl
any-insert_by_length p x (y ∷ masks) = ground (arith, any-insert_by_length p x masks)

all-insert_by_length :
    (p : Text → Bool) (x : Text) (masks : List Text)
    → all p (insert_by_length x masks) ≡ (p x && all p masks)
unfolding insert_by_length
all-insert_by_length p x [] = refl
all-insert_by_length p x (y ∷ masks) = ground (arith, all-insert_by_length p x masks)

distinct-insert_by_length :
    (x : Text) (masks : List Text)
    → distinct (insert_by_length x masks) ≡ (not (has_mask x masks) && distinct masks)
unfolding insert_by_length
distinct-insert_by_length x [] = refl
distinct-insert_by_length x (y ∷ masks) = ground (
  arith,
  distinct-insert_by_length x masks,
  any-insert_by_length (λ m. m == y) x masks,
  ==_iff x y,
  ==_iff y x,
)

module _ (masks : List Text) where
  pub all_append : (p : Text → Bool) (x : Text) → all p (masks ++ x ∷ []) ≡ (all p masks && p x)
  all_append p x = go masks
    where
      go : (masks : List Text) → all p (masks ++ x ∷ []) ≡ (all p masks && p x)
      go [] = ground arith
      go (y ∷ masks) = ground (arith, go masks)

  pub total_bytes_append :
      (x : Text) → total_bytes (masks ++ x ∷ []) ≡ total_bytes masks + byte_len x
  total_bytes_append x = go masks
    where
      go : (masks : List Text) → total_bytes (masks ++ x ∷ []) ≡ total_bytes masks + byte_len x
      go [] = omega arith
      go (y ∷ masks) = omega (arith, go masks)

  pub distinct_append :
      (x : Text) → distinct (masks ++ x ∷ []) ≡ (distinct masks && not (has_mask x masks))
  distinct_append x = go masks
    where
      go :
          (masks : List Text)
          → distinct (masks ++ x ∷ []) ≡ (distinct masks && not (has_mask x masks))
      go [] = refl
      go (y ∷ masks) =
          ground (arith, go masks, any-append (λ m. m == y) masks (x ∷ []), ==_iff x y, ==_iff y x)

pub sorted_total : (masks : List Text) → total_bytes (sort_by_length masks) ≡ total_bytes masks
unfolding sort_by_length
sorted_total [] = refl
sorted_total (x ∷ masks) =
    omega (arith, total_bytes-insert x (sort_by_length masks), sorted_total masks)

pub sorted_length : (masks : List Text) → length (sort_by_length masks) ≡ length masks
unfolding sort_by_length
sorted_length [] = refl
sorted_length (x ∷ masks) =
    omega (arith, length-insert_by_length x (sort_by_length masks), sorted_length masks)

pub sorted_any : (p : Text → Bool) (masks : List Text) → any p (sort_by_length masks) ≡ any p masks
unfolding sort_by_length
sorted_any p [] = refl
sorted_any p (x ∷ masks) =
    rw (any-insert_by_length p x (sort_by_length masks), sorted_any p masks) refl

pub sorted_all : (p : Text → Bool) (masks : List Text) → all p (sort_by_length masks) ≡ all p masks
unfolding sort_by_length
sorted_all p [] = refl
sorted_all p (x ∷ masks) =
    rw (all-insert_by_length p x (sort_by_length masks), sorted_all p masks) refl

pub sorted_distinct : (masks : List Text) → distinct (sort_by_length masks) ≡ distinct masks
unfolding sort_by_length
sorted_distinct [] = refl
sorted_distinct (x ∷ masks) =
    rw
      (
        distinct-insert_by_length x (sort_by_length masks),
        sorted_any (λ m. m == x) masks,
        sorted_distinct masks,
      )
      refl
