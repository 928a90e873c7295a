-- ===== src/Commands/Hidden.antt =====
-- The masks that a step registers, and what masking leaves of a text
-- (crates/gitzero-agent/src/executor.rs).
use gitzero.Prelude.Split.{is_empty}
use gitzero.Prelude.Strings.{contains_text}
use gitzero.Prelude.Replace.{
  contains_text-replaced, hidden, contains_text-replace_from, avoids, replace,
}
use gitzero.Commands.MaskLists.{
  sorted_any, distinct_append, sorted_distinct, all_append, sorted_all, sorted_length, has_mask,
  sorted_total, total_bytes_append, none_empty, IsScope,
}
use gitzero.Commands.Masks.{
  add_mask, is_over, sort_masks, split_whitespace, is_skipped, WorkflowCommandScope, mask_text,
  register_candidates, register_mask,
}
use gitzero.Prelude.{
  any-append, length-append, ==_iff, ==_refl, Bool, Bool-cases, List, Text, [], arith, false,
  if◌then◌else◌, inl, inr, nat_key, not, refl, subst, sym, text_key, true, ℕ, ◌&&◌, ◌++◌, ◌==◌,
  ◌||◌, ◌∙◌, ◌∷◌, ◌≡◌,
}

add_mask-IsScope :
    (candidate : Text) (scope : WorkflowCommandScope)
    → is_skipped candidate scope ≡ false
    → is_over candidate scope ≡ false
    → IsScope scope
    → IsScope (add_mask candidate scope)
add_mask-IsScope candidate scope new room k = record {
  counted = omega (arith, k.counted, total_bytes_append scope.masks candidate);
  bytes_capped = ground (arith, room);
  masks_capped = ground (arith, room, length-append scope.masks (candidate ∷ []));
  not_empty =
      ground (arith, new, k.not_empty, all_append scope.masks (λ m. not (is_empty m)) candidate);
  once = ground (arith, new, k.once, distinct_append scope.masks candidate);
}

abbrev next_scope : Text → WorkflowCommandScope → WorkflowCommandScope
next_scope candidate scope = if is_skipped candidate scope then scope else add_mask candidate scope

next_scope-IsScope :
    (candidate : Text) (scope : WorkflowCommandScope)
    → (not (is_skipped candidate scope) && is_over candidate scope) ≡ false
    → IsScope scope
    → IsScope (next_scope candidate scope)
next_scope-IsScope candidate scope taken k = elim (Bool-cases (is_skipped candidate scope)) [
  | inl skipped ↦ rw skipped k
  | inr new ↦ rw new (add_mask-IsScope candidate scope new (ground (arith, new, taken)) k)
]

register_candidates-IsScope :
    (candidates : List Text) (scope : WorkflowCommandScope)
    → IsScope scope
    → IsScope (register_candidates candidates scope).0
unfolding register_candidates
register_candidates-IsScope [] scope k = k
register_candidates-IsScope (candidate ∷ candidates) scope k =
    elim (Bool-cases (not (is_skipped candidate scope) && is_over candidate scope)) [
      | inl over ↦ rw over k
      | inr taken ↦ rw taken (
          register_candidates-IsScope candidates (next_scope candidate scope)
            (next_scope-IsScope candidate scope taken k))
    ]

sort_masks-IsScope : (r : WorkflowCommandScope × Bool) → IsScope r.0 → IsScope (sort_masks r).0
sort_masks-IsScope (scope, false) k = k
sort_masks-IsScope (scope, true) k = record {
  counted = k.counted ∙ sym (sorted_total scope.masks);
  bytes_capped = k.bytes_capped;
  masks_capped = omega (arith, k.masks_capped, sorted_length scope.masks);
  not_empty = sorted_all (λ m. not (is_empty m)) scope.masks ∙ k.not_empty;
  once = sorted_distinct scope.masks ∙ k.once;
}

-- Registering a mask keeps the invariant of a scope, whether it succeeds or is refused: the
-- masks are distinct and not empty, at most 1024, and of at most 1 MiB as counted.
pub register_mask-IsScope :
    (value : Text) (scope : WorkflowCommandScope)
    → IsScope scope
    → IsScope (register_mask value scope).0
unfolding register_mask
register_mask-IsScope value scope k =
    sort_masks-IsScope (register_candidates (value ∷ split_whitespace value) scope)
      (register_candidates-IsScope (value ∷ split_whitespace value) scope k)

abbrev mask_once : Text → Text → Text
mask_once secret value = if contains_text value secret then replace secret hidden value else value

mask_once-keeps :
    (s b : ℕ) (secret q value : Text)
    → avoids b'*' (b ∷ q) ≡ true
    → contains_text value (b ∷ q) ≡ false
    → contains_text (mask_once (s ∷ secret) value) (b ∷ q) ≡ false
unfolding replace
mask_once-keeps s b secret q value free out = elim (Bool-cases (contains_text value (s ∷ secret))) [
  | inl found ↦ rw found (contains_text-replace_from (s ∷ secret) 0 b q value free out)
  | inr absent ↦ rw absent out
]

mask_once-hides :
    (b : ℕ) (q value : Text)
    → avoids b'*' (b ∷ q) ≡ true
    → contains_text (mask_once (b ∷ q) value) (b ∷ q) ≡ false
unfolding replace
mask_once-hides b q value free = elim (Bool-cases (contains_text value (b ∷ q))) [
  | inl found ↦ rw found (contains_text-replaced 0 b q value free)
  | inr absent ↦ rw absent absent
]

-- What masking leaves out stays out.
pub mask_text-keeps :
    (secrets : List Text) (b : ℕ) (q value : Text)
    → none_empty secrets ≡ true
    → avoids b'*' (b ∷ q) ≡ true
    → contains_text value (b ∷ q) ≡ false
    → contains_text (mask_text value secrets) (b ∷ q) ≡ false
unfolding mask_text
mask_text-keeps [] b q value full free out = out
mask_text-keeps ([] ∷ secrets) b q value full free out = cc
mask_text-keeps ((s ∷ secret) ∷ secrets) b q value full free out =
    mask_text-keeps secrets b q (mask_once (s ∷ secret) value) full free
      (mask_once-keeps s b secret q value free out)

-- Masking leaves no mask in a text, whatever the text and the other masks are, if no mask is
-- empty and the mask in question has no star.
pub mask_text-hides :
    (secrets : List Text) (value secret : Text)
    → none_empty secrets ≡ true
    → has_mask secret secrets ≡ true
    → avoids b'*' secret ≡ true
    → contains_text (mask_text value secrets) secret ≡ false
unfolding mask_text
mask_text-hides [] value secret full there free = cc
mask_text-hides ([] ∷ secrets) value secret full there free = cc
mask_text-hides ((s ∷ mask) ∷ secrets) value secret full there free =
    elim (Bool-cases ((s ∷ mask) == secret)) [
      | inl same ↦
          subst (λ t. contains_text (mask_text (mask_once (s ∷ mask) value) secrets) t ≡ false)
            ((==_iff (s ∷ mask) secret).0 same)
            (mask_text-keeps secrets s mask (mask_once (s ∷ mask) value) full
              (subst (λ t. avoids b'*' t ≡ true) (sym ((==_iff (s ∷ mask) secret).0 same)) free)
              (mask_once-hides s mask value
                (subst (λ t. avoids b'*' t ≡ true) (sym ((==_iff (s ∷ mask) secret).0 same)) free)))
      | inr other ↦
          mask_text-hides secrets (mask_once (s ∷ mask) value) secret full
            (ground (arith, there, other)) free
    ]

has_mask-append :
    (x value : Text) (masks : List Text)
    → has_mask value (masks ++ x ∷ []) ≡ (has_mask value masks || x == value)
has_mask-append x value masks = any-append (λ m. m == value) masks (x ∷ []) ∙ ground arith

-- A candidate that is taken, and what was a mask before, are masks afterwards.
pub register_candidates-keeps :
    (candidates : List Text) (scope : WorkflowCommandScope) (value : Text)
    → has_mask value scope.masks ≡ true
    → has_mask value (register_candidates candidates scope).0.masks ≡ true
unfolding register_candidates
register_candidates-keeps [] scope value h = h
register_candidates-keeps (candidate ∷ candidates) scope value h =
    elim (Bool-cases (not (is_skipped candidate scope) && is_over candidate scope)) [
      | inl over ↦ rw over h
      | inr taken ↦ rw taken (
          register_candidates-keeps candidates (next_scope candidate scope) value
            (ground (arith, h, has_mask-append candidate value scope.masks)))
    ]

registered :
    (candidates : List Text) (scope : WorkflowCommandScope) (value : Text)
    → is_empty value ≡ false
    → (register_candidates (value ∷ candidates) scope).1 ≡ true
    → has_mask value (register_candidates (value ∷ candidates) scope).0.masks ≡ true
unfolding register_candidates
registered candidates scope value full h =
    elim (Bool-cases (not (is_skipped value scope) && is_over value scope)) [
      | inl over ↦ absurd (refused over h)
      | inr taken ↦ rw taken (
          register_candidates-keeps candidates (next_scope value scope) value
            (ground (arith, full, has_mask-append value value scope.masks, ==_refl value)))
    ]
  where
    refused :
        (not (is_skipped value scope) && is_over value scope) ≡ true
        → (register_candidates (value ∷ candidates) scope).1 ≡ true
        → ⊥
    refused over h = ground (arith, over, h)

sort_masks-has_mask :
    (r : WorkflowCommandScope × Bool) (value : Text)
    → has_mask value (sort_masks r).0.masks ≡ has_mask value r.0.masks
sort_masks-has_mask (scope, false) value = refl
sort_masks-has_mask (scope, true) value = sorted_any (λ m. m == value) scope.masks

sort_masks-taken : (r : WorkflowCommandScope × Bool) → (sort_masks r).1 ≡ r.1
sort_masks-taken (scope, false) = refl
sort_masks-taken (scope, true) = refl

pub is_registered :
    (value : Text) (scope : WorkflowCommandScope)
    → is_empty value ≡ false
    → (register_mask value scope).1 ≡ true
    → has_mask value (register_mask value scope).0.masks ≡ true
unfolding register_mask
is_registered value scope full taken =
    let r = register_candidates (value ∷ split_whitespace value) scope in
    sort_masks-has_mask r value
    ∙ registered (split_whitespace value) scope value full (sym (sort_masks-taken r) ∙ taken)

-- Once a value that is not empty and has no star is registered as a mask without an error, no
-- text that is masked in the scope shows it.
pub register_mask-hides :
    (value text : Text) (scope : WorkflowCommandScope)
    → IsScope scope
    → is_empty value ≡ false
    → avoids b'*' value ≡ true
    → (register_mask value scope).1 ≡ true
    → contains_text (mask_text text (register_mask value scope).0.masks) value ≡ false
register_mask-hides value text scope k full free taken =
    mask_text-hides (register_mask value scope).0.masks text value
      (register_mask-IsScope value scope k).not_empty (is_registered value scope full taken) free
