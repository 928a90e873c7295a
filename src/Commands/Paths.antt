-- ===== src/Commands/Paths.antt =====
-- `normalize_annotation_path` of crates/gitzero-agent/src/executor.rs, and of `std::path::Path` what
-- it uses, as on Unix.
use gitzero.Protocol.{max_path_bytes}
use gitzero.Commands.Syntax.{invalid_path, CommandError}
use gitzero.Prelude.Result.{ok, err, Result}
use gitzero.Prelude.Strings.{join_text}
use gitzero.Prelude.Utf8.{byte_len, len_utf8}
use gitzero.Prelude.Split.{is_empty, split_at}
use gitzero.Prelude.{
  Bool, List, Option, Text, [], any, codes, false, if◌then◌else◌, ltb, nat_beq, nat_key, none, some,
  text_key, true, ℕ, ◌&&◌, ◌++◌, ◌==◌, ◌||◌, ◌∷◌,
}

-- Path::components; the components for the current directory are dropped, as every caller drops
-- them.
pub data Component : Type 0 where
  root_dir parent_dir : Component
  normal : Text → Component

abbrev pub is_slash : ℕ → Bool
is_slash c = nat_beq c b'/'

abbrev component_of : Text → List Component → List Component
component_of part rest =
    if is_empty part || part == codes "."
    then rest
    else (if part == codes ".." then parent_dir else normal part) ∷ rest

unfoldable pub components_of : List Text → List Component
components_of [] = []
components_of (part ∷ parts) = component_of part (components_of parts)

abbrev pub is_absolute : Text → Bool
is_absolute [] = false
is_absolute (c ∷ s) = is_slash c

unfoldable pub components : Text → List Component
unfolding components_of split_at
components s =
    let parts = components_of (split_at is_slash s) in
    if is_absolute s then root_dir ∷ parts else parts

abbrev pub same_component : Component → Component → Bool
same_component root_dir root_dir = true
same_component parent_dir parent_dir = true
same_component (normal a) (normal b) = a == b
same_component _ _ = false

-- Path::strip_prefix, the prefix first
unfoldable pub strip_components : List Component → List Component → Option (List Component)
strip_components [] path = some path
strip_components (c ∷ prefix) [] = none
strip_components (c ∷ prefix) (d ∷ path) =
    let rest = strip_components prefix path in if same_component c d then rest else none

abbrev pub outside : List Text
outside = codes ".github" ∷ []

-- The loop over the components, with what was kept so far.
unfoldable pub normalized : List Text → List Component → List Text
normalized kept [] = kept
normalized kept (normal part ∷ rest) = normalized (kept ++ part ∷ []) rest
normalized kept (parent_dir ∷ rest) = outside
normalized kept (root_dir ∷ rest) = outside

-- The components below the workspace of an absolute path.
abbrev pub below_workspace : Option Text → Text → List Component
below_workspace none path = normal (codes ".github") ∷ []
below_workspace (some workspace) path =
    elim (strip_components (components workspace) (components path)) [
      | none ↦ normal (codes ".github") ∷ []
      | some relative ↦ relative
    ]

-- `value.as_bytes().get(1) == Some(&b':')`
abbrev pub has_drive : Text → Bool
has_drive (c ∷ d ∷ s) = nat_beq (len_utf8 c) 1 && nat_beq d b':'
has_drive _ = false

unfoldable pub slashes : Text → Text
slashes [] = []
slashes (c ∷ s) = (if nat_beq c b'\\' then b'/' else c) ∷ slashes s

abbrev pub relative_components : Option Text → Text → List Component
relative_components workspace value =
    if is_absolute value
    then below_workspace workspace value
    else if has_drive value
    then normal (codes ".github") ∷ []
    else components value

abbrev pub join_kept : List Text → Text
join_kept [] = codes ".github"
join_kept (part ∷ kept) = join_text (codes "/") (part ∷ kept)

abbrev pub is_break : ℕ → Bool
is_break c = nat_beq c 0 || nat_beq c 13 || nat_beq c 10

abbrev pub checked_path : Text → Result CommandError Text
checked_path path =
    if ltb max_path_bytes (byte_len path) || any is_break path then err invalid_path else ok path

unfoldable pub normalize_annotation_path : Text → Option Text → Result CommandError Text
unfolding components strip_components normalized slashes join_text
normalize_annotation_path value workspace =
    checked_path (join_kept (normalized [] (relative_components workspace (slashes value))))
