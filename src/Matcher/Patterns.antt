-- ===== src/Matcher/Patterns.antt =====
-- The patterns of a problem matcher and how they are compiled
-- (crates/gitzero-agent/src/problem_matcher.rs).
use gitzero.Prelude.Split.{is_empty}
use gitzero.Prelude.Utf8.{byte_len}
use gitzero.Prelude.Sets.{member, Set, insert_element}
use gitzero.Prelude.Result.{ok_or, ◌>>=◌, err, ok, Result}
use gitzero.Prelude.{
  Bool, List, Option, Text, [], any, codes, false, if◌then◌else◌, leb, length, ltb, nat_beq,
  nat_key, none, not, some, suc, text_key, to_ascii_lowercase, true, zero, ℕ, ◌&&◌, ◌*◌, ◌+◌, ◌-◌,
  ◌==◌, ◌||◌, ◌∷◌,
}

-- What is used of the regex package: building, how many groups there are, and what they capture.
pub record Regexes (Regex Captures : Type 0) : Type 0 where
  pub build : Text → Option Regex
  pub captures_len : Regex → ℕ
  pub captures : Regex → Text → Option Captures
  pub group : Captures → ℕ → Option Text

pub data MatcherError : Type 0 where
  invalid_owner unsupported_severity pattern_count invalid_from_path loop_not_last : MatcherError
  loop_without_message invalid_regex capture_range assigned_twice no_message : MatcherError
  too_many_in_file duplicate_owner too_many_in_job invalid_file_path unavailable : MatcherError

abbrev pub max_owner_bytes : ℕ
max_owner_bytes = 256

abbrev pub max_patterns : ℕ
max_patterns = 10

abbrev pub max_regex_bytes : ℕ
max_regex_bytes = 16 * 1024

-- ProblemPatternConfig and ProblemMatcherConfig.
pub record ProblemPatternConfig : Type 0 where
  pub regexp : Text
  pub file : Option ℕ
  pub line : Option ℕ
  pub column : Option ℕ
  pub severity : Option ℕ
  pub code : Option ℕ
  pub message : Option ℕ
  pub from_path : Option ℕ
  pub loops : Bool

pub record ProblemMatcherConfig : Type 0 where
  pub owner : Text
  pub default_severity : Text
  pub default_from_path : Text
  pub pattern : List ProblemPatternConfig

pub record CapturedIssue : Type 0 where
  pub file : Option Text
  pub line : Option Text
  pub column : Option Text
  pub severity : Option Text
  pub code : Option Text
  pub message : Option Text
  pub from_path : Option Text

-- A compiled pattern: its regex and its configuration.
pub record ProblemPattern (Regex : Type 0) : Type 0 where
  pub regex : Regex
  pub config : ProblemPatternConfig

pub record ProblemMatcher (Regex : Type 0) : Type 0 where
  pub owner : Text
  pub default_severity : Text
  pub default_from_path : Text
  pub patterns : List (ProblemPattern Regex)
  pub state : List (Option CapturedIssue)

abbrev pub is_break : ℕ → Bool
is_break c = nat_beq c 0 || nat_beq c 13 || nat_beq c 10

unfoldable pub validate_owner : Text → Result MatcherError (Unit {0})
validate_owner owner =
    if is_empty owner || ltb max_owner_bytes (byte_len owner) || any is_break owner
    then err invalid_owner
    else ok tt

unfoldable pub validate_severity : Text → Result MatcherError (Unit {0})
validate_severity severity =
    let lower = to_ascii_lowercase severity in
    if is_empty lower
      || lower == codes "error"
      || lower == codes "warning"
      || lower == codes "notice"
    then ok tt
    else err unsupported_severity

-- The captures of a pattern by name, in the order of the check.
abbrev pub named_captures : ProblemPatternConfig → List (Text × Option ℕ)
named_captures p =
    (codes "file", p.file)
    ∷ (codes "line", p.line)
    ∷ (codes "column", p.column)
    ∷ (codes "severity", p.severity)
    ∷ (codes "code", p.code)
    ∷ (codes "message", p.message)
    ∷ (codes "fromPath", p.from_path)
    ∷ []

unfoldable pub assign_captures : ℕ → List (Text × Option ℕ) → Set → Result MatcherError Set
unfolding insert_element
assign_captures groups [] assigned = ok assigned
assign_captures groups ((name, none) ∷ captures) assigned = assign_captures groups captures assigned
assign_captures groups ((name, some capture) ∷ captures) assigned =
    let rest = assign_captures groups captures (insert_element name assigned) in
    if leb groups capture
    then err capture_range
    else if member name assigned
    then err assigned_twice
    else rest

abbrev pub is_given : Option ℕ → Bool
is_given none = false
is_given (some n) = true

-- The checks of one pattern before its regex is built.
abbrev pub pattern_error : ℕ → ℕ → ProblemPatternConfig → Option MatcherError
pattern_error index count p =
    if p.loops && (nat_beq index 0 || not (nat_beq (index + 1) count))
    then some loop_not_last
    else if p.loops && not (is_given p.message)
    then some loop_without_message
    else if ltb max_regex_bytes (byte_len p.regexp) || any (λ c. nat_beq c 0) p.regexp
    then some invalid_regex
    else none

abbrev pub checked {ℓ} :
    {A : Type ℓ} → Option MatcherError → Result MatcherError A → Result MatcherError A
checked (some e) r = err e
checked none r = r

module _ {Regex Captures : Type 0} (p : Regexes Regex Captures) where
  unfoldable pub compile_patterns :
      ℕ
      → ℕ
      → List ProblemPatternConfig
      → Set
      → Result MatcherError (List (ProblemPattern Regex) × Set)
  unfolding assign_captures
  compile_patterns index count [] assigned = ok ([], assigned)
  compile_patterns index count (config ∷ configs) assigned =
      checked (pattern_error index count config) (do
        regex ← ok_or (p.build config.regexp) invalid_regex
        next ← assign_captures (p.captures_len regex) (named_captures config) assigned
        (patterns, all_assigned) ← compile_patterns (index + 1) count configs next
        ok (record { regex = regex; config = config } ∷ patterns, all_assigned))

  -- A fresh state, of `length` slots.
  unfoldable pub empty_state : ℕ → List (Option CapturedIssue)
  empty_state zero = []
  empty_state (suc n) = none ∷ empty_state n

  abbrev pub finish_compile :
      ProblemMatcherConfig
      → List (ProblemPattern Regex) × Set
      → Result MatcherError (ProblemMatcher Regex)
  finish_compile config (patterns, assigned) =
      if not (member (codes "message") assigned)
      then err no_message
      else ok (record {
        owner = config.owner;
        default_severity = config.default_severity;
        default_from_path = config.default_from_path;
        patterns = patterns;
        state = empty_state (length patterns - 1);
      })

  abbrev pub is_bad_count : ℕ → Bool
  is_bad_count count = nat_beq count 0 || ltb max_patterns count

  abbrev pub is_bad_from_path : Text → Bool
  is_bad_from_path path = ltb 4096 (byte_len path) || any (λ c. nat_beq c 0) path

  unfoldable pub compile : ProblemMatcherConfig → Result MatcherError (ProblemMatcher Regex)
  unfolding validate_owner validate_severity compile_patterns empty_state
  compile config = do
    owned ← validate_owner config.owner
    supported ← validate_severity config.default_severity
    if is_bad_count (length config.pattern)
        then err pattern_count
        else if is_bad_from_path config.default_from_path
        then err invalid_from_path
        else compile_patterns 0 (length config.pattern) config.pattern [] >>= finish_compile config
