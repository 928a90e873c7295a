-- ===== src/Matcher/Report.antt =====
-- From a matched issue to the annotation of a check (crates/gitzero-agent/src/problem_matcher.rs).
use gitzero.Matcher.Lines.{MatchedIssue}
use gitzero.Expression.Template.{trim}
use gitzero.Matcher.Patterns.{CapturedIssue}
use gitzero.Prelude.Split.{is_empty}
use gitzero.Protocol.{
  notice, max_title_bytes, warning, CheckAnnotation, failed_check, CheckAnnotationLevel,
}
use gitzero.Prelude.Strings.{parse_usize}
use gitzero.Prelude.Utf8.{floor_boundary, truncate, byte_len}
use gitzero.Prelude.{
  Option, Text, [], codes, if◌then◌else◌, leb, ltb, nat_key, none, some, text_key,
  to_ascii_lowercase, ℕ, ◌&&◌, ◌+◌, ◌-◌, ◌==◌, ◌∷◌,
}

abbrev pub max_matcher_units : ℕ
max_matcher_units = 4096

abbrev pub len_utf16 : ℕ → ℕ
len_utf16 c = if ltb c 0x1_0000 then 1 else 2

unfoldable pub utf16_len : Text → ℕ
utf16_len [] = 0
utf16_len (c ∷ s) = len_utf16 c + utf16_len s

-- The loop over the characters, with the units that are left.
unfoldable pub take_utf16 : ℕ → Text → Text
take_utf16 units [] = []
take_utf16 units (c ∷ s) =
    let rest = take_utf16 (units - len_utf16 c) s in
    if ltb units (len_utf16 c) then [] else c ∷ rest

unfoldable pub truncate_utf16 : Text → ℕ → Text
unfolding utf16_len take_utf16
truncate_utf16 value maximum =
    if leb (utf16_len value) maximum then value else take_utf16 maximum value

abbrev pub truncate_utf8 : Text → ℕ → Text
truncate_utf8 value maximum =
    if leb (byte_len value) maximum then value else truncate value (floor_boundary value maximum)

abbrev pub i32_max : ℕ
i32_max = 0x7fff_ffff

-- A `u32` is at most twice `i32_max` and one, so the last test covers its range.
unfoldable pub coordinate : Option Text → Option ℕ
unfolding parse_usize
coordinate none = none
coordinate (some value) = elim (parse_usize value) [
  | none ↦ none
  | some n ↦ if ltb 0 n && leb n i32_max then some n else none
]

abbrev pub severity_level : Text → Option CheckAnnotationLevel
severity_level severity =
    let lower = to_ascii_lowercase severity in
    if lower == codes "error"
    then some failed_check
    else if lower == codes "warning"
    then some warning
    else if lower == codes "notice"
    then some notice
    else none

abbrev pub get_or {ℓ} : {A : Type ℓ} → Option A → A → A
get_or none default = default
get_or (some value) default = value

-- The code, trimmed, or the owner.
abbrev pub title_of : Option Text → Text → Text
title_of none owner = owner
title_of (some code) owner = if is_empty (trim code) then owner else trim code

-- `matcher_path` asks the file system for the file that an issue names; here it is a parameter.
module _ (matcher_path : Option Text → Option Text → Option Text → Option Text) where
  abbrev pub annotation_of :
      Text → CapturedIssue → Option Text → CheckAnnotationLevel → Text → CheckAnnotation
  annotation_of owner issue workspace level message =
      let start_line = get_or (coordinate issue.line) 1 in
      let start_column = coordinate issue.column in
      record {
        path = get_or (matcher_path issue.file issue.from_path workspace) (codes ".github");
        start_line = start_line;
        end_line = start_line;
        start_column = start_column;
        end_column = start_column;
        annotation_level = level;
        message = truncate_utf16 message max_matcher_units;
        title = some (truncate_utf8 (title_of issue.code owner) max_title_bytes);
      }

  abbrev pub reported :
      Text
      → CapturedIssue
      → Option Text
      → Option CheckAnnotationLevel
      → Option Text
      → Option CheckAnnotation
  reported owner issue workspace none message = none
  reported owner issue workspace (some level) none = none
  reported owner issue workspace (some level) (some message) =
      if is_empty (trim message)
      then none
      else some (annotation_of owner issue workspace level message)

  unfoldable pub into_annotation : MatchedIssue → Option Text → Option CheckAnnotation
  unfolding trim truncate_utf16 coordinate truncate floor_boundary
  into_annotation matched workspace =
      reported matched.owner matched.captured workspace
        (severity_level (get_or matched.captured.severity (codes "error"))) matched.captured.message
