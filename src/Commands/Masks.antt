-- ===== src/Commands/Masks.antt =====
-- `mask_text`, and `WorkflowCommandScope::register_mask` of crates/gitzero-agent/src/executor.rs.
use gitzero.Expression.Template.{is_whitespace}
use gitzero.Prelude.Replace.{hidden, replace}
use gitzero.Prelude.Utf8.{byte_len}
use gitzero.Prelude.Split.{filter, is_empty, split_at}
use gitzero.Prelude.Strings.{contains_text}
use gitzero.Prelude.{
  Bool, List, Option, Text, [], any, false, if◌then◌else◌, leb, length, ltb, nat_key, not, text_key,
  true, ℕ, ◌&&◌, ◌*◌, ◌++◌, ◌+◌, ◌==◌, ◌||◌, ◌∷◌,
}

unfoldable pub mask_text : Text → List Text → Text
unfolding contains_text replace
mask_text value [] = value
mask_text value (secret ∷ secrets) =
    mask_text (if contains_text value secret then replace secret hidden value else value) secrets

-- A scope's masks and how many bytes they have together.
pub record WorkflowCommandScope : Type 0 where
  pub masks : List Text
  pub mask_bytes : ℕ
  pub stop_token : Option Text

abbrev pub max_masks : ℕ
max_masks = 1024

abbrev pub max_mask_bytes : ℕ
max_mask_bytes = 1024 * 1024

-- str::split_whitespace
unfoldable pub split_whitespace : Text → List Text
unfolding split_at filter is_whitespace
split_whitespace s = filter (λ part. not (is_empty part)) (split_at is_whitespace s)

-- A stable insertion: before the masks that are not longer.
unfoldable pub insert_by_length : Text → List Text → List Text
insert_by_length x [] = x ∷ []
insert_by_length x (y ∷ masks) =
    let rest = insert_by_length x masks in
    if leb (byte_len y) (byte_len x) then x ∷ y ∷ masks else y ∷ rest

-- `sort_by_key` by the reversed length, which is stable.
unfoldable pub sort_by_length : List Text → List Text
unfolding insert_by_length
sort_by_length [] = []
sort_by_length (x ∷ masks) = insert_by_length x (sort_by_length masks)

-- Whether a candidate is passed over, and whether it is one too many.
abbrev pub is_skipped : Text → WorkflowCommandScope → Bool
is_skipped candidate scope = is_empty candidate || any (λ mask. mask == candidate) scope.masks

abbrev pub is_over : Text → WorkflowCommandScope → Bool
is_over candidate scope =
    leb max_masks (length scope.masks) || ltb max_mask_bytes (scope.mask_bytes + byte_len candidate)

abbrev pub add_mask : Text → WorkflowCommandScope → WorkflowCommandScope
add_mask candidate scope = record scope {
  masks = scope.masks ++ candidate ∷ [];
  mask_bytes = scope.mask_bytes + byte_len candidate;
}

-- The candidates one after another: the scope afterwards, and whether all were taken.
unfoldable pub register_candidates : List Text → WorkflowCommandScope → WorkflowCommandScope × Bool
register_candidates [] scope = (scope, true)
register_candidates (candidate ∷ candidates) scope =
    let skipped = is_skipped candidate scope in
    let rest =
      register_candidates candidates (if skipped then scope else add_mask candidate scope) in
    if not skipped && is_over candidate scope then (scope, false) else rest

-- The masks are sorted only if every candidate was taken.
abbrev pub sort_masks : WorkflowCommandScope × Bool → WorkflowCommandScope × Bool
sort_masks (scope, false) = (scope, false)
sort_masks (scope, true) = (record scope { masks = sort_by_length scope.masks }, true)

unfoldable pub register_mask : Text → WorkflowCommandScope → WorkflowCommandScope × Bool
unfolding register_candidates sort_by_length split_whitespace
register_mask value scope = sort_masks (register_candidates (value ∷ split_whitespace value) scope)
