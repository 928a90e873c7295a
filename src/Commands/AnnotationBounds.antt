-- ===== src/Commands/AnnotationBounds.antt =====
-- What an annotation that is read satisfies (crates/gitzero-agent/src/executor.rs).
use gitzero.Prelude.Split.{split_once, strip_prefix}
use gitzero.Commands.Syntax.{
  CommandError, missing_delimiter, invalid_path, invalid_title, keep_full, invalid_coordinate,
  end_line_first, invalid_message, optional,
}
use gitzero.Prelude.Map.{get, Map}
use gitzero.Prelude.Result.{Result, ok-injective, ok_or, >>=-eq-ok, guard-eq-ok, ok}
use gitzero.Prelude.Utf8.{byte_len}
use gitzero.Commands.Paths.{
  is_break, slashes, relative_components, normalized, join_kept, normalize_annotation_path,
}
use gitzero.Commands.Annotation.{
  body_level, is_some, read_body, header_parts, level_of, read_parts,
  is_annotation_workflow_command, read_properties, get_or, parse_workflow_annotation, read_leveled,
  read_line, columns, parse_u32, is_bad_title, or_value, annotation_coordinate, checked_coordinate,
  i32_max, is_bad_message, read_annotation,
}
use gitzero.Protocol.{max_message_bytes, max_path_bytes, CheckAnnotationLevel, CheckAnnotation}
use gitzero.Prelude.{
  refl, inl, inr, Bool-cases, Bool, Option, Text, [], any, ap, arith, codes, false, if◌then◌else◌,
  length, ltb, nat_beq, nat_key, none, not, some, some-injective, subst, text_key, true, ℕ, ◌||◌,
  ◌∷◌, ◌≡◌, ◌≤◌,
}

-- The limits of an annotation, of those of crates/gitzero-protocol/src/lib.rs.
pub record IsBounded (a : CheckAnnotation) : Type 0 where
  pub first_line : 1 ≤ a.start_line
  pub ordered : a.start_line ≤ a.end_line
  pub last_line : a.end_line ≤ i32_max
  pub path_capped : byte_len a.path ≤ max_path_bytes
  pub message_full : 1 ≤ length a.message
  pub message_capped : byte_len a.message ≤ max_message_bytes
  pub title_good : is_bad_title a.title ≡ false

InRange : Option ℕ → Type 0
InRange none = Unit {0}
InRange (some n) = (1 ≤ n) × (n ≤ i32_max)

coordinate_ok : (value : Text) (n : ℕ) → checked_coordinate value ≡ ok n → (1 ≤ n) × (n ≤ i32_max)
coordinate_ok value n h =
    let (m, parsed, chain) = >>=-eq-ok (ok_or (parse_u32 value) invalid_coordinate) _ h in
    let (good, done) = guard-eq-ok (nat_beq m 0 || ltb i32_max m) invalid_coordinate (ok m) chain in
    let e = ok-injective done in (ground (arith, good, e), ground (arith, good, e))

annotation_coordinate_ok :
    (properties : Map Text Text) (name : Text) (o : Option ℕ)
    → annotation_coordinate properties name ≡ ok o
    → InRange o
unfolding annotation_coordinate InRange
annotation_coordinate_ok properties name o h = read (get name properties) h
  where
    read : (value : Option Text) → optional value checked_coordinate ≡ ok o → InRange o
    read none e = subst InRange (ok-injective e) tt
    read (some value) e =
        let (n, checked, done) = >>=-eq-ok (checked_coordinate value) (λ b. ok (some b)) e in
        subst InRange (ok-injective done) (coordinate_ok value n checked)

or_value_ok :
    (o : Option ℕ) (n : ℕ)
    → InRange o
    → (1 ≤ n) × (n ≤ i32_max)
    → (1 ≤ or_value o n) × (or_value o n ≤ i32_max)
unfolding InRange
or_value_ok none n h k = k
or_value_ok (some m) n h k = h

path_ok :
    (value path : Text) (workspace : Option Text)
    → normalize_annotation_path value workspace ≡ ok path
    → byte_len path ≤ max_path_bytes
unfolding normalize_annotation_path
path_ok value path workspace h =
    let joined = join_kept (normalized [] (relative_components workspace (slashes value))) in
    let (good, done) =
      guard-eq-ok (ltb max_path_bytes (byte_len joined) || any is_break joined) invalid_path
        (ok joined) h in
    ground (arith, good, ap byte_len (ok-injective done))

message_ok :
    (message : Text)
    → is_bad_message message ≡ false
    → (1 ≤ length message) × (byte_len message ≤ max_message_bytes)
message_ok [] h = cc
message_ok (c ∷ message) h = (omega arith, ground (arith, h))

read_annotation-IsBounded :
    (level : CheckAnnotationLevel) (properties : Map Text Text) (message : Text)
    (workspace : Option Text) (annotation : CheckAnnotation)
    → read_annotation level properties message workspace ≡ ok annotation
    → IsBounded annotation
unfolding read_annotation
read_annotation-IsBounded level properties message workspace annotation h =
    let (good, chain) = guard-eq-ok (is_bad_message message) invalid_message _ h in
    let (path, normal, chain2) =
      >>=-eq-ok
        (normalize_annotation_path (get_or (get (codes "file") properties) (codes ".github"))
          workspace)
        _ chain in
    let (line, lined, chain3) =
      >>=-eq-ok (annotation_coordinate properties (codes "line")) _ chain2 in
    let start =
      or_value_ok line 1 (annotation_coordinate_ok properties _ line lined)
        (omega arith, omega arith) in
    let (endline, ended, chain4) =
      >>=-eq-ok (annotation_coordinate properties (codes "endline")) _ chain3 in
    let end =
      or_value_ok endline (or_value line 1) (annotation_coordinate_ok properties _ endline ended)
        start in
    let (ordered, chain5) =
      guard-eq-ok (ltb (or_value endline (or_value line 1)) (or_value line 1)) end_line_first _
        chain4 in
    let (col, cols, chain6) = >>=-eq-ok (annotation_coordinate properties (codes "col")) _ chain5 in
    let (endcolumn, endcols, chain7) =
      >>=-eq-ok (annotation_coordinate properties (codes "endcolumn")) _ chain6 in
    let (both_columns, columned, chain8) =
      >>=-eq-ok
        (columns (nat_beq (or_value line 1) (or_value endline (or_value line 1))) col endcolumn) _
        chain7 in
    let (titled_good, done) =
      guard-eq-ok (is_bad_title (keep_full (get (codes "title") properties))) invalid_title _
        chain8 in
    let text = message_ok message good in
    subst IsBounded (ok-injective done) (record {
      first_line = start.0;
      ordered = ground (arith, ordered);
      last_line = end.1;
      path_capped =
          path_ok (get_or (get (codes "file") properties) (codes ".github")) path workspace normal;
      message_full = text.0;
      message_capped = text.1;
      title_good = titled_good;
    })

read_leveled_ok :
    (workspace : Option Text) (property_text data' : Text) (level : Option CheckAnnotationLevel)
    (annotation : CheckAnnotation)
    → read_leveled workspace property_text data' level ≡ ok (some annotation)
    → IsBounded annotation
read_leveled_ok workspace property_text data' none annotation h = cc
read_leveled_ok workspace property_text data' (some level) annotation h =
    let (properties, listed, chain) = >>=-eq-ok (read_properties _ []) _ h in
    let (found, read, done) = >>=-eq-ok (read_annotation level properties _ workspace) _ chain in
    subst IsBounded (some-injective (ok-injective done))
      (read_annotation-IsBounded level properties _ workspace found read)

read_body_ok :
    (workspace : Option Text) (body : Text) (annotation : CheckAnnotation)
    → read_body workspace body ≡ ok (some annotation)
    → IsBounded annotation
read_body_ok workspace body annotation h =
    let (parts, split, read) =
      >>=-eq-ok (ok_or (split_once (codes "::") body) missing_delimiter) (read_parts workspace) h in
    read_leveled_ok workspace _ parts.1 (level_of (header_parts parts.0).0) annotation read

read_line_ok :
    (workspace body : Option Text) (annotation : CheckAnnotation)
    → read_line workspace body ≡ some (ok (some annotation))
    → IsBounded annotation
read_line_ok workspace none annotation h = cc
read_line_ok workspace (some body) annotation h =
    read_body_ok workspace body annotation (some-injective h)

-- A line that is read as an annotation gives one with 1 ≤ start_line ≤ end_line ≤ 2147483647, a
-- path of at most 4096 bytes, a message of 1 to 65536 bytes, and no title that is over 255 bytes
-- or has a NUL.
pub parse_workflow_annotation-IsBounded :
    (line : Text) (workspace : Option Text) (annotation : CheckAnnotation)
    → parse_workflow_annotation line workspace ≡ some (ok (some annotation))
    → IsBounded annotation
unfolding parse_workflow_annotation
parse_workflow_annotation-IsBounded line workspace annotation h =
    read_line_ok workspace (strip_prefix (codes "::") line) annotation
      (is_read (is_annotation_workflow_command line) h)
  where
    is_read :
        (is_command : Bool)
        → (if not is_command
            then some (ok none)
            else read_line workspace (strip_prefix (codes "::") line))
          ≡ some (ok (some annotation))
        → read_line workspace (strip_prefix (codes "::") line) ≡ some (ok (some annotation))
    is_read true h = h
    is_read false h = cc

-- Whether the line has the prefix where it is told to be an annotation.
read_line_total :
    (workspace body : Option Text)
    → is_some (body_level body) ≡ true
    → (r : Result CommandError (Option CheckAnnotation)) × (read_line workspace body ≡ some r)
read_line_total workspace none h = cc
read_line_total workspace (some body) h = (read_body workspace body, refl)

-- No line makes the expectation of the prefix panic.
pub parse_workflow_annotation_total :
    (line : Text) (workspace : Option Text)
    → (r : Result CommandError (Option CheckAnnotation)) × (parse_workflow_annotation line workspace
        ≡ some r)
unfolding parse_workflow_annotation is_annotation_workflow_command
parse_workflow_annotation_total line workspace =
    elim (Bool-cases (is_annotation_workflow_command line)) [
      | inl told ↦
          rw (told, parse_workflow_annotation)
            (read_line_total workspace (strip_prefix (codes "::") line) told)
      | inr other ↦ rw (other, parse_workflow_annotation) (ok none, refl)
    ]
