-- ===== src/Workflow/Globs.antt =====
-- `compile_glob` and the pattern lists of the pull_request filters
-- (crates/gitzero-workflow/src/lib.rs). The regex package is a parameter.
use gitzero.Prelude.Split.{is_empty}
use gitzero.Prelude.Result.{ok_or, err, ok, ◌>>=◌, Result}
use gitzero.Prelude.{
  Bool, List, Option, Text, [], all, any, codes, false, if◌then◌else◌, leb, nat_beq, nat_key, none,
  not, some, text_key, true, ℕ, ◌&&◌, ◌++◌, ◌||◌, ◌∷◌,
}
use gitzero.Workflow.Yaml.{Value, Values, string, sequence, no_values, value}

pub record Patterns (Regex : Type 0) : Type 0 where
  pub escape_char : ℕ → Text
  pub build : Text → Option Regex
  pub is_match : Regex → Text → Bool

pub data TriggerError : Type 0 where
  unsupported_filter both_branches both_paths no_changed_paths not_a_mapping : TriggerError
  entry_not_string not_string_or_list empty_filter no_positive empty_pattern : TriggerError
  negative_pattern ends_with_escape misplaced_quantifier unclosed_range invalid_range : TriggerError
  invalid_pattern : TriggerError

-- A piece of the regular expression, and whether a quantifier may follow.
pub record Atom : Type 0 where
  pub source : Text
  pub quantifiable : Bool

abbrev pub is_range_char : ℕ → Bool
is_range_char c =
    (leb b'0' c && leb c b'9')
    || (leb b'a' c && leb c b'z')
    || (leb b'A' c && leb c b'Z')
    || nat_beq c b'-'

-- The last atom, which stands first, with a quantifier.
abbrev pub quantify : ℕ → List Atom → Result TriggerError (List Atom)
quantify q [] = err misplaced_quantifier
quantify q (atom ∷ atoms) =
    if atom.quantifiable
    then ok (
        record { source = codes "(?:" ++ atom.source ++ codes ")" ++ q ∷ []; quantifiable = false }
        ∷ atoms)
    else err misplaced_quantifier

abbrev pub close_range : Text → List Atom → Result TriggerError (List Atom)
close_range range atoms =
    if is_empty range || not (all is_range_char range)
    then err invalid_range
    else ok (record { source = codes "[" ++ range ++ codes "]"; quantifiable = true } ∷ atoms)

module _ {Regex : Type 0} (p : Patterns Regex) where
  abbrev pub literal_atom : ℕ → Atom
  literal_atom c = record { source = p.escape_char c; quantifiable = true }

  abbrev pub any_atom : Text → Atom
  any_atom source = record { source = source; quantifiable = false }

  -- The loop over the characters, with the range that is open, if any, and the atoms so far, the
  -- last one first.
  unfoldable pub read_glob : Option Text → List Atom → Text → Result TriggerError (List Atom)
  read_glob none atoms [] = ok atoms
  read_glob (some range) atoms [] = err unclosed_range
  read_glob (some range) atoms (c ∷ s) =
      let more = read_glob (some (range ++ c ∷ [])) atoms s in
      let closed = close_range range atoms >>= λ atoms. read_glob none atoms s in
      if nat_beq c b']' then closed else more
  read_glob none atoms (c ∷ []) =
      if nat_beq c b'\\'
      then err ends_with_escape
      else if nat_beq c b'*'
      then ok (any_atom (codes "[^/]*") ∷ atoms)
      else if nat_beq c b'?' || nat_beq c b'+'
      then quantify c atoms
      else if nat_beq c b'['
      then err unclosed_range
      else ok (literal_atom c ∷ atoms)
  read_glob none atoms (c ∷ d ∷ s) =
      let escaped = read_glob none (literal_atom d ∷ atoms) s in
      let anything = read_glob none (any_atom (codes ".*") ∷ atoms) s in
      let segment = read_glob none (any_atom (codes "[^/]*") ∷ atoms) (d ∷ s) in
      let quantified = quantify c atoms >>= λ atoms. read_glob none atoms (d ∷ s) in
      let range = read_glob (some []) atoms (d ∷ s) in
      let literal = read_glob none (literal_atom c ∷ atoms) (d ∷ s) in
      if nat_beq c b'\\'
      then escaped
      else if nat_beq c b'*' && nat_beq d b'*'
      then anything
      else if nat_beq c b'*'
      then segment
      else if nat_beq c b'?' || nat_beq c b'+'
      then quantified
      else if nat_beq c b'['
      then range
      else literal

  abbrev pub join_sources : List Atom → Text → Text
  join_sources [] tail = tail
  join_sources (atom ∷ atoms) tail = join_sources atoms (atom.source ++ tail)

  unfoldable pub compile_glob : Text → Result TriggerError Regex
  unfolding read_glob
  compile_glob pattern = do
    atoms ← read_glob none [] pattern
    ok_or (p.build (codes "^(?:" ++ join_sources atoms (codes ")$"))) invalid_pattern

  -- `Value::as_str` is a parameter of what reads values.
  module _ {N : Type 0} (as_str : Value N → Option Text) where
    unfoldable pub entry_strings : Values N → Result TriggerError (List Text)
    entry_strings no_values = ok []
    entry_strings (value v vs) = do
      s ← ok_or (as_str v) entry_not_string
      rest ← entry_strings vs
      ok (s ∷ rest)

    abbrev pub listed_strings : Value N → Result TriggerError (List Text)
    listed_strings (string s) = ok (s ∷ [])
    listed_strings (sequence vs) = entry_strings vs
    listed_strings _ = err not_string_or_list

    abbrev pub full_list : List Text → Result TriggerError (List Text)
    full_list [] = err empty_filter
    full_list (s ∷ strings) = ok (s ∷ strings)

    unfoldable pub string_values : Value N → Result TriggerError (List Text)
    unfolding entry_strings
    string_values v = listed_strings v >>= full_list

    -- Whether a pattern starts with an exclamation mark, and what follows it.
    abbrev pub sign_of : Text → Bool × Text
    sign_of [] = (false, [])
    sign_of (c ∷ s) = if nat_beq c b'!' then (true, s) else (false, c ∷ s)

    unfoldable pub compile_signed : List Text → Result TriggerError (List (Bool × Regex))
    unfolding compile_glob
    compile_signed [] = ok []
    compile_signed (s ∷ patterns) = if is_empty (sign_of s).1 then err empty_pattern else do
      regex ← compile_glob (sign_of s).1
      rest ← compile_signed patterns
      ok (((sign_of s).0, regex) ∷ rest)

    unfoldable pub compile_ordered_patterns : Value N → Result TriggerError (List (Bool × Regex))
    unfolding string_values compile_signed
    compile_ordered_patterns v = do
      patterns ← string_values v
      if any (λ s. not (sign_of s).0) patterns then compile_signed patterns else err no_positive

    unfoldable pub matches_compiled_ordered_patterns : Bool → List (Bool × Regex) → Text → Bool
    matches_compiled_ordered_patterns included [] candidate = included
    matches_compiled_ordered_patterns included ((negative, regex) ∷ patterns) candidate =
        matches_compiled_ordered_patterns
          (if p.is_match regex candidate then not negative else included) patterns candidate

    unfoldable pub compile_unsigned : List Text → Result TriggerError (List Regex)
    unfolding compile_glob
    compile_unsigned [] = ok []
    compile_unsigned (s ∷ patterns) =
        if (sign_of s).0
        then err negative_pattern
        else do regex ← compile_glob s; rest ← compile_unsigned patterns; ok (regex ∷ rest)

    unfoldable pub compile_ignored_patterns : Value N → Result TriggerError (List Regex)
    unfolding string_values compile_unsigned
    compile_ignored_patterns v = string_values v >>= compile_unsigned
