-- ===== src/Expression/Functions.antt =====
-- The functions of an expression, and the access to the parts of a value
-- (crates/gitzero-expression/src/lib.rs).
use Prim.Native.String.{String}
use gitzero.Prelude.Strings.{ends_with, contains_text, join_text, parse_usize, starts_with}
use gitzero.Expression.{
  no_elements, no_fields, null_literal, null, boolean_literal, array_of, field, field_values,
  invalid_access, number, number_literal, array, boolean, element, elements, invalid_function,
  json_conversion, object, string, string_literal, Elements, Evaluated, Evaluation, Fields, Literal,
  Package,
}
use gitzero.Prelude.{
  eq_ignore_ascii_case, Bool, List, Text, [], codes, false, get_elem?, if◌then◌else◌, length, ltb,
  nat_key, none, some, text_key, true, ℕ, ◌++◌, ◌||◌, ◌∷◌,
}
use gitzero.Prelude.Result.{ok, err, ◌>>=◌, ok_or}

pub data Selection (N : Type 0) : Type 0 where
  one : Evaluation N → Selection N
  many : List (Evaluation N) → Selection N

module _ {N : Type 0} where
  unfoldable pub evaluation_type : Evaluation N → Text
  evaluation_type (string s) = codes "a string"
  evaluation_type (number n) = codes "a number"
  evaluation_type (boolean b) = codes "a boolean"
  evaluation_type null = codes "null"
  evaluation_type (array vs) = codes "an array"
  evaluation_type (object fs) = codes "an object"

  -- The first field whose name is the index, up to ASCII case; the empty string if there is none.
  unfoldable pub find_field : Text → Fields N → Evaluation N
  find_field name no_fields = string []
  find_field name (field k v fs) = if eq_ignore_ascii_case k name then v else find_field name fs

  unfoldable pub evaluate_literal : Literal N → Evaluation N
  evaluate_literal (string_literal s) = string s
  evaluate_literal (number_literal n) = number n
  evaluate_literal (boolean_literal b) = boolean b
  evaluate_literal null_literal = null

  abbrev nth_element : Elements N → ℕ → Evaluation N
  nth_element vs i = elim (get_elem? (elements vs) i) [ none ↦ string [] | some v ↦ v ]

  -- `Evaluation::Array(values) => Ok(values)`, `Evaluation::Object(values) => ..values..`
  unfoldable pub expand : Evaluation N → Evaluated (List (Evaluation N))
  unfolding evaluation_type
  expand (array vs) = ok (elements vs)
  expand (object fs) = ok (field_values fs)
  expand other = err (invalid_access (codes "*") (evaluation_type other))

  -- `values.into_iter().map(expand).collect::<Result<Vec<_>, _>>()`, flattened
  unfoldable pub expand_all : List (Evaluation N) → Evaluated (List (Evaluation N))
  unfolding expand
  expand_all [] = ok []
  expand_all (v ∷ vs) = do items ← expand v; rest ← expand_all vs; ok (items ++ rest)

  unfoldable pub wildcard : Selection N → Evaluated (Selection N)
  unfolding expand expand_all
  wildcard (one v) = do items ← expand v; ok (many items)
  wildcard (many vs) = do items ← expand_all vs; ok (many items)

  unfoldable pub finish : Selection N → Evaluation N
  finish (one v) = v
  finish (many vs) = array (array_of vs)

  abbrev invalid : String → Evaluated (Evaluation N)
  invalid name = err (invalid_function (codes name))

module _ {N : Type 0} (p : Package N) where
  -- The index of an array access.
  array_index : Evaluation N → Evaluated ℕ
  unfolding parse_usize
  array_index (number n) =
      ok_or (p.number_index n) (invalid_access (p.display (number n)) (codes "an array"))
  array_index (string s) = ok_or (parse_usize s) (invalid_access s (codes "an array"))
  array_index other = err (invalid_access (p.display other) (codes "an array"))

  unfoldable pub access_value : Evaluation N → Evaluation N → Evaluated (Evaluation N)
  unfolding find_field array_index evaluation_type
  access_value (object fs) i = ok (find_field (p.display i) fs)
  access_value (array vs) i = do n ← array_index i; ok (nth_element vs n)
  access_value null i = ok null
  access_value (string []) i = ok (string [])
  access_value other i = err (invalid_access (p.display i) (evaluation_type other))

  access_all : List (Evaluation N) → Evaluation N → Evaluated (List (Evaluation N))
  unfolding access_value
  access_all [] i = ok []
  access_all (v ∷ vs) i = do w ← access_value v i; ws ← access_all vs i; ok (w ∷ ws)

  unfoldable pub access : Selection N → Evaluation N → Evaluated (Selection N)
  unfolding access_value access_all
  access (one v) i = do w ← access_value v i; ok (one w)
  access (many vs) i = do ws ← access_all vs i; ok (many ws)

  any_equal : Elements N → Evaluation N → Bool
  any_equal no_elements needle = false
  any_equal (element v vs) needle = p.sema_eq v needle || any_equal vs needle

  abbrev upper : Evaluation N → Text
  upper v = p.to_uppercase (p.display v)

  contains_in : Evaluation N → Evaluation N → Evaluated (Evaluation N)
  unfolding any_equal contains_text
  contains_in (array vs) needle = ok (boolean (any_equal vs needle))
  contains_in (object fs) needle = invalid "contains"
  contains_in haystack needle = ok (boolean (contains_text (upper haystack) (upper needle)))

  unfoldable pub contains : List (Evaluation N) → Evaluated (Evaluation N)
  unfolding contains_in
  contains (haystack ∷ needle ∷ []) = contains_in haystack needle
  contains _ = invalid "contains"

  -- `Evaluation::Array(_) | Evaluation::Object(_)`
  abbrev is_collection : Evaluation N → Bool
  is_collection (array vs) = true
  is_collection (object fs) = true
  is_collection _ = false

  unfoldable pub starts_or_ends_with : List (Evaluation N) → Bool → Evaluated (Evaluation N)
  unfolding starts_with ends_with
  starts_or_ends_with (haystack ∷ needle ∷ []) starts =
      if is_collection haystack || is_collection needle
      then ok (boolean false)
      else ok (
          boolean (
            if starts
            then starts_with (upper haystack) (upper needle)
            else ends_with (upper haystack) (upper needle)))
  starts_or_ends_with _ starts = if starts then invalid "startsWith" else invalid "endsWith"

  displays : Elements N → List Text
  displays no_elements = []
  displays (element v vs) = p.display v ∷ displays vs

  join_value : Evaluation N → Text → Text
  unfolding displays join_text
  join_value (array vs) separator = join_text separator (displays vs)
  join_value (object fs) separator = []
  join_value v separator = p.display v

  unfoldable pub join : List (Evaluation N) → Evaluated (Evaluation N)
  unfolding join_value
  join (v ∷ []) = ok (string (join_value v (codes ",")))
  join (v ∷ separator ∷ []) = ok (string (join_value v (p.display separator)))
  join _ = invalid "join"

  unfoldable pub to_json_value : List (Evaluation N) → Evaluated (Evaluation N)
  to_json_value (v ∷ []) = do text ← ok_or (p.to_json v) json_conversion; ok (string text)
  to_json_value _ = invalid "toJSON"

  unfoldable pub from_json_value : List (Evaluation N) → Evaluated (Evaluation N)
  from_json_value (v ∷ []) = do
    json ← ok_or (p.from_json (p.display v)) (invalid_function (codes "fromJSON"))
    ok_or json json_conversion
  from_json_value _ = invalid "fromJSON"

  -- The pairs of `case` and the default behind them; `none` is a list of the wrong length.
  unfoldable pub case_pairs : List (Evaluation N) → Evaluated (Evaluation N)
  case_pairs [] = invalid "case"
  case_pairs (d ∷ []) = ok d
  case_pairs (boolean true ∷ value ∷ rest) = ok value
  case_pairs (boolean false ∷ value ∷ rest) = case_pairs rest
  case_pairs (_ ∷ value ∷ rest) = invalid "case"

  -- `arguments.len().is_multiple_of(2)`
  unfoldable pub is_even_length : List (Evaluation N) → Bool
  is_even_length [] = true
  is_even_length (v ∷ []) = false
  is_even_length (v ∷ w ∷ rest) = is_even_length rest

  unfoldable pub case_value : List (Evaluation N) → Evaluated (Evaluation N)
  unfolding case_pairs is_even_length
  case_value arguments =
      if ltb (length arguments) 3 || is_even_length arguments
      then invalid "case"
      else case_pairs arguments
