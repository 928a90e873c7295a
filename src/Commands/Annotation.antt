-- ===== src/Commands/Annotation.antt =====
-- `parse_workflow_annotation` of crates/gitzero-agent/src/executor.rs.
use gitzero.Protocol.{
  max_path_bytes, failed_check, warning, notice, CheckAnnotation, CheckAnnotationLevel,
  max_message_bytes, max_title_bytes,
}
use gitzero.Commands.Paths.{normalize_annotation_path}
use gitzero.Commands.Syntax.{
  invalid_title, is_comma, invalid_coordinate, keep_full, missing_delimiter, property_without_value,
  end_line_first, decode_workflow_command_data, decode_workflow_command_property, end_column_first,
  invalid_message, optional, CommandError,
}
use gitzero.Expression.Template.{trim}
use gitzero.Prelude.Utf8.{truncate, byte_len, floor_boundary}
use gitzero.Prelude.Map.{insert, Map, get}
use gitzero.Prelude.Result.{ok_or, ◌>>=◌, err, ok, Result}
use gitzero.Prelude.Strings.{parse_usize}
use gitzero.Prelude.Split.{split_at, filter, is_empty, split_once, strip_prefix}
use gitzero.Prelude.{
  Bool, List, Option, Text, [], any, codes, false, if◌then◌else◌, leb, ltb, nat_beq, nat_key, none,
  not, some, text_key, to_ascii_lowercase, true, ℕ, ◌++◌, ◌==◌, ◌||◌, ◌∷◌,
}

-- The command before the first space, and the properties behind it.
abbrev pub header_parts : Text → Text × Text
header_parts header = elim (split_once (codes " ") header) [
  | none ↦ (header, [])
  | some parts ↦ parts
]

abbrev pub level_of : Text → Option CheckAnnotationLevel
level_of command =
    let lower = to_ascii_lowercase command in
    if lower == codes "notice"
    then some notice
    else if lower == codes "warning"
    then some warning
    else if lower == codes "error"
    then some failed_check
    else none

abbrev pub header_of : Text → Text
header_of body = elim (split_once (codes "::") body) [ none ↦ body | some (header, data') ↦ header ]

abbrev pub body_level : Option Text → Option CheckAnnotationLevel
body_level none = none
body_level (some body) = level_of (header_parts (header_of body)).0

abbrev pub is_some {ℓ} : {A : Type ℓ} → Option A → Bool
is_some none = false
is_some (some a) = true

unfoldable pub is_annotation_workflow_command : Text → Bool
unfolding strip_prefix split_once
is_annotation_workflow_command line = is_some (body_level (strip_prefix (codes "::") line))

-- The properties of a command, of which none is empty, into a `BTreeMap`.
unfoldable pub read_properties : List Text → Map Text Text → Result CommandError (Map Text Text)
unfolding split_once trim insert decode_workflow_command_property
read_properties [] properties = ok properties
read_properties (property ∷ rest) properties = do
  (key, value) ← ok_or (split_once (codes "=") property) property_without_value
  read_properties rest
      (insert (to_ascii_lowercase (trim key)) (decode_workflow_command_property value) properties)

abbrev pub i32_max : ℕ
i32_max = 0x7fff_ffff

abbrev pub u32_max : ℕ
u32_max = 0xffff_ffff

-- `parse::<u32>`: a number of a machine word that fits.
abbrev pub parse_u32 : Text → Option ℕ
parse_u32 value = elim (parse_usize value) [
  | none ↦ none
  | some n ↦ if leb n u32_max then some n else none
]

abbrev pub checked_coordinate : Text → Result CommandError ℕ
checked_coordinate value = do
  coordinate ← ok_or (parse_u32 value) invalid_coordinate
  if nat_beq coordinate 0 || ltb i32_max coordinate then err invalid_coordinate else ok coordinate

unfoldable pub annotation_coordinate : Map Text Text → Text → Result CommandError (Option ℕ)
unfolding get parse_usize
annotation_coordinate properties name = optional (get name properties) checked_coordinate

abbrev pub or_value : Option ℕ → ℕ → ℕ
or_value none n = n
or_value (some m) n = m

-- The columns count only within one line.
abbrev pub columns : Bool → Option ℕ → Option ℕ → Result CommandError (Option ℕ × Option ℕ)
columns false start end = ok (none, none)
columns true none none = ok (none, none)
columns true (some start) none = ok (some start, some start)
columns true none (some end) = ok (some end, some end)
columns true (some start) (some end) =
    if leb start end then ok (some start, some end) else err end_column_first

abbrev pub is_nul : ℕ → Bool
is_nul c = nat_beq c 0

abbrev pub is_bad_title : Option Text → Bool
is_bad_title none = false
is_bad_title (some title) = ltb max_title_bytes (byte_len title) || any is_nul title

abbrev pub is_bad_message : Text → Bool
is_bad_message message =
    is_empty message || ltb max_message_bytes (byte_len message) || any is_nul message

abbrev pub get_or : Option Text → Text → Text
get_or none default = default
get_or (some value) default = value

-- What is read once the level and the properties are known.
unfoldable pub read_annotation :
    CheckAnnotationLevel → Map Text Text → Text → Option Text → Result CommandError CheckAnnotation
unfolding get annotation_coordinate normalize_annotation_path
read_annotation level properties message workspace =
    if is_bad_message message then err invalid_message else do
      path ←
          normalize_annotation_path (get_or (get (codes "file") properties) (codes ".github"))
            workspace
      line ← annotation_coordinate properties (codes "line")
      let start_line = or_value line 1
      endline ← annotation_coordinate properties (codes "endline")
      let end_line = or_value endline start_line
      if ltb end_line start_line then err end_line_first else do
        col ← annotation_coordinate properties (codes "col")
        endcolumn ← annotation_coordinate properties (codes "endcolumn")
        (start_column, end_column) ← columns (nat_beq start_line end_line) col endcolumn
        let title = keep_full (get (codes "title") properties)
        if is_bad_title title
            then err invalid_title
            else ok (record {
              path = path;
              start_line = start_line;
              end_line = end_line;
              start_column = start_column;
              end_column = end_column;
              annotation_level = level;
              message = message;
              title = title;
            })

-- What follows the header, if its command is an annotation.
abbrev pub read_leveled :
    Option Text
    → Text
    → Text
    → Option CheckAnnotationLevel
    → Result CommandError (Option CheckAnnotation)
read_leveled workspace property_text data' none = ok none
read_leveled workspace property_text data' (some level) = do
  properties ←
      read_properties
        (filter (λ property. not (is_empty property)) (split_at is_comma property_text)) []
  annotation ← read_annotation level properties (decode_workflow_command_data data') workspace
  ok (some annotation)

abbrev pub read_parts : Option Text → Text × Text → Result CommandError (Option CheckAnnotation)
read_parts workspace (header, data') =
    let (command, property_text) = header_parts header in
    read_leveled workspace property_text data' (level_of command)

abbrev pub read_body : Option Text → Text → Result CommandError (Option CheckAnnotation)
read_body workspace body =
    ok_or (split_once (codes "::") body) missing_delimiter >>= read_parts workspace

-- A line that is told to be an annotation is expected to have the prefix: a panic is none.
abbrev pub read_line :
    Option Text → Option Text → Option (Result CommandError (Option CheckAnnotation))
read_line workspace none = none
read_line workspace (some body) = some (read_body workspace body)

unfoldable pub parse_workflow_annotation :
    Text → Option Text → Option (Result CommandError (Option CheckAnnotation))
unfolding is_annotation_workflow_command strip_prefix split_once filter split_at read_properties
    read_annotation decode_workflow_command_data
parse_workflow_annotation line workspace =
    if not (is_annotation_workflow_command line)
    then some (ok none)
    else read_line workspace (strip_prefix (codes "::") line)

abbrev pub level_name : CheckAnnotationLevel → Text
level_name notice = codes "notice"
level_name warning = codes "warning"
level_name failed_check = codes "error"

abbrev pub titled : Text → Option Text → Text → Text
titled level none message = level ++ codes ": " ++ message
titled level (some title) message = level ++ codes ": " ++ title ++ codes ": " ++ message

unfoldable pub annotation_log_line : CheckAnnotation → Text
annotation_log_line annotation =
    titled (level_name annotation.annotation_level) annotation.title annotation.message

abbrev pub truncate_utf8_bytes : Text → ℕ → Text
truncate_utf8_bytes value maximum =
    if leb (byte_len value) maximum then value else truncate value (floor_boundary value maximum)

abbrev pub bound_title : Option Text → Option Text
bound_title none = none
bound_title (some title) = some (truncate_utf8_bytes title max_title_bytes)

unfoldable pub bound_masked_annotation : CheckAnnotation → CheckAnnotation
unfolding floor_boundary truncate
bound_masked_annotation annotation = record annotation {
  path = if ltb max_path_bytes (byte_len annotation.path) then codes ".github" else annotation.path;
  message = truncate_utf8_bytes annotation.message max_message_bytes;
  title = bound_title annotation.title;
}
