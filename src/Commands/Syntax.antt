-- ===== src/Commands/Syntax.antt =====
-- How a line of a log reads as a workflow command (crates/gitzero-agent/src/executor.rs).
use gitzero.Expression.Template.{trim}
use gitzero.Prelude.Result.{ok_or, err, ◌>>=◌, ok, Result}
use gitzero.Prelude.Split.{split_at, strip_prefix, split_once}
use gitzero.Prelude.Replace.{replace}
use gitzero.Prelude.{
  Bool, List, Option, Text, [], ascii_lower, codes, eq_ignore_ascii_case, false, if◌then◌else◌,
  nat_beq, nat_key, none, some, text_key, true, ℕ, ◌++◌, ◌||◌, ◌∷◌,
}

-- The prefix is ASCII, so that it is as many characters as bytes.
unfoldable pub strip_prefix_ignore_ascii_case : Text → Text → Option Text
strip_prefix_ignore_ascii_case value [] = some value
strip_prefix_ignore_ascii_case [] (p ∷ prefix) = none
strip_prefix_ignore_ascii_case (c ∷ value) (p ∷ prefix) =
    let rest = strip_prefix_ignore_ascii_case value prefix in
    if nat_beq (ascii_lower c) (ascii_lower p) then rest else none

unfoldable pub decode_workflow_command_data : Text → Text
unfolding replace
decode_workflow_command_data value = replace (codes "%25") (codes "%") (
    replace (codes "%0a") (codes "\n") (
      replace (codes "%0A") (codes "\n")
        (replace (codes "%0d") (codes "\r") (replace (codes "%0D") (codes "\r") value))))

unfoldable pub decode_workflow_command_property : Text → Text
unfolding replace
decode_workflow_command_property value =
    let lines = replace (codes "%0a") (codes "\n") (
      replace (codes "%0A") (codes "\n")
        (replace (codes "%0d") (codes "\r") (replace (codes "%0D") (codes "\r") value))) in
    replace (codes "%25") (codes "%") (
      replace (codes "%2c") (codes ",") (
        replace (codes "%2C") (codes ",")
          (replace (codes "%3a") (codes ":") (replace (codes "%3A") (codes ":") lines))))

pub data CommandError : Type 0 where
  missing_delimiter missing_name owner_and_file owner_or_file property_without_value : CommandError
  invalid_message invalid_path invalid_title invalid_coordinate end_line_first : CommandError
  end_column_first : CommandError

abbrev pub is_comma : ℕ → Bool
is_comma c = nat_beq c b','

-- `find_map` over the properties: the value of the first one of a name.
unfoldable pub find_property : Text → List Text → Option Text
unfolding split_once trim decode_workflow_command_property
find_property name [] = none
find_property name (property ∷ properties) =
    let later = find_property name properties in
    elim (split_once (codes "=") property) [
      | none ↦ later
      | some (key, value) ↦
          if eq_ignore_ascii_case (trim key) name
          then some (decode_workflow_command_property value)
          else later
    ]

-- What follows the prefix of a named command.
abbrev pub named_body : Text → Result CommandError (Text × Text)
named_body body = do
  (properties, data') ← ok_or (split_once (codes "::") body) missing_delimiter
  name ← ok_or (find_property (codes "name") (split_at is_comma properties)) missing_name
  ok (name, decode_workflow_command_data data')

abbrev pub optional : {A B E : Type 0} → Option A → (A → Result E B) → Result E (Option B)
optional none f = ok none
optional (some a) f = f a >>= λ b. ok (some b)

unfoldable pub parse_named_workflow_command :
    Text → Text → Result CommandError (Option (Text × Text))
unfolding strip_prefix_ignore_ascii_case find_property split_once split_at
    decode_workflow_command_data
parse_named_workflow_command line command =
    optional (strip_prefix_ignore_ascii_case line (codes "::" ++ command ++ codes " ")) named_body

pub data ProblemMatcherRemoval : Type 0 where
  owner_removal file_removal : Text → ProblemMatcherRemoval

abbrev pub keep_full : Option Text → Option Text
keep_full (some (c ∷ s)) = some (c ∷ s)
keep_full _ = none

abbrev pub removal : Option Text → Text → Result CommandError ProblemMatcherRemoval
removal (some owner) [] = ok (owner_removal owner)
removal none (c ∷ data') = ok (file_removal (c ∷ data'))
removal (some owner) (c ∷ data') = err owner_and_file
removal none [] = err owner_or_file

abbrev pub removal_of : Text × Text → Result CommandError ProblemMatcherRemoval
removal_of (properties, data') =
    removal (keep_full (find_property (codes "owner") (split_at is_comma properties)))
      (decode_workflow_command_data data')

abbrev pub removal_body : Text → Result CommandError (Option ProblemMatcherRemoval)
removal_body body = elim (strip_prefix (codes "::") body) [
  | some data' ↦ removal_of ([], data') >>= λ r. ok (some r)
  | none ↦
      optional (strip_prefix (codes " ") body)
        λ properties. ok_or (split_once (codes "::") properties) missing_delimiter >>= removal_of
]

unfoldable pub parse_remove_matcher_command :
    Text → Result CommandError (Option ProblemMatcherRemoval)
unfolding strip_prefix_ignore_ascii_case find_property split_once split_at
    decode_workflow_command_data strip_prefix
parse_remove_matcher_command line =
    elim (strip_prefix_ignore_ascii_case line (codes "::remove-matcher")) [
      | none ↦ ok none
      | some body ↦ removal_body body
    ]

abbrev pub begins_ignoring_case : Text → Text → Bool
begins_ignoring_case line prefix = elim (strip_prefix_ignore_ascii_case line prefix) [
  | none ↦ false
  | some rest ↦ true
]

unfoldable pub is_problem_matcher_workflow_command : Text → Bool
unfolding strip_prefix_ignore_ascii_case
is_problem_matcher_workflow_command line =
    begins_ignoring_case line (codes "::add-matcher::")
    || begins_ignoring_case line (codes "::remove-matcher::")
    || begins_ignoring_case line (codes "::remove-matcher ")

-- `splitn(3, '/')`: the plan and the job of a step id.
unfoldable pub workflow_command_scope : Text → Text
unfolding split_once
workflow_command_scope step_id = elim (split_once (codes "/") step_id) [
  | none ↦ step_id
  | some (plan, rest) ↦ elim (split_once (codes "/") rest) [
    | none ↦ plan ++ codes "/" ++ rest
    | some (job, step) ↦ plan ++ codes "/" ++ job
  ]
]
