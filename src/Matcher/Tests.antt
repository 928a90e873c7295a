-- ===== src/Matcher/Tests.antt =====
-- A matcher of one pattern, and the theorems at it.
use mathlib.Core.Option
use gitzero.Prelude.Sets.{insert_element}
use gitzero.Prelude.Map.{insert, get}
use gitzero.Prelude.Split.{strip_prefix, filter}
use gitzero.Matcher.Scan.{scan}
use gitzero.Protocol.{CheckAnnotation}
use gitzero.Matcher.Active.{IsRegistry}
use gitzero.Matcher.Steps.{
  file_added, scan_total, started, Reachable-IsRegistry, stepped, Reachable,
}
use gitzero.Matcher.Registry.{
  workspace, read_config, compile_all, add_matchers, ProblemMatcherRegistry, add_from_file,
}
use gitzero.Prelude.Result.{ok, Result}
use gitzero.Matcher.Compiled.{compile-IsCompiled, IsCompiled}
use gitzero.Matcher.Patterns.{
  assign_captures, validate_severity, validate_owner, empty_state, MatcherError, compile_patterns,
  ProblemMatcher, ProblemMatcherConfig, ProblemPatternConfig, Regexes, compile,
}
use gitzero.Prelude.{
  List, Option, Text, [], ascii_lower, codes, false, nat_key, none, refl, some, suc, text_beq,
  text_key, text_less, zero, ℕ, ◌∷◌, ◌≡◌,
}

-- A pattern that is a prefix, with the whole line and what follows as its groups.
abbrev prefix_group : Text × Text → ℕ → Option Text
prefix_group (line, rest) zero = some line
prefix_group (line, rest) (suc zero) = some rest
prefix_group (line, rest) (suc (suc i)) = none

abbrev prefix_regexes : Regexes Text (Text × Text)
prefix_regexes = record {
  build = λ t. some t;
  captures_len = λ t. 2;
  captures = λ regex line. Option.map (λ rest. (line, rest)) (strip_prefix regex line);
  group = prefix_group;
}

abbrev error_pattern : ProblemPatternConfig
error_pattern = record {
  regexp = codes "error: ";
  file = none;
  line = none;
  column = none;
  severity = none;
  code = none;
  message = some 1;
  from_path = none;
  loops = false;
}

abbrev error_config : ProblemMatcherConfig
error_config = record {
  owner = codes "cc";
  default_severity = codes "error";
  default_from_path = [];
  pattern = error_pattern ∷ [];
}

abbrev error_matcher : ProblemMatcher Text
error_matcher = record {
  owner = codes "cc";
  default_severity = codes "error";
  default_from_path = [];
  patterns = record { regex = codes "error: "; config = error_pattern } ∷ [];
  state = [];
}

compiled : compile prefix_regexes error_config ≡ ok error_matcher
unfolding compile text_beq text_less ascii_lower compile_patterns empty_state validate_owner
    validate_severity assign_captures insert_element
compiled = refl

compile-IsCompiled_example : IsCompiled prefix_regexes error_matcher
compile-IsCompiled_example = compile-IsCompiled prefix_regexes error_config error_matcher compiled

abbrev one_config : Text → Text → Text → Result MatcherError (List ProblemMatcherConfig)
one_config folder root path = ok (error_config ∷ [])

abbrev no_path : Option Text → Option Text → Option Text → Option Text
no_path from_path folder file = none

abbrev empty_registry : ProblemMatcherRegistry Text
empty_registry = record {
  fallback_workspace = some (codes "/w");
  workspaces = [];
  matcher_root = some (codes "/m");
  scopes = [];
}

abbrev filled_registry : ProblemMatcherRegistry Text
filled_registry =
    (add_from_file prefix_regexes one_config (codes "p/j") (codes "/m/cc.json") empty_registry).0

filled_reached :
    Reachable prefix_regexes one_config no_path
      (some (codes "/m"))
      (some (codes "/w"))
      filled_registry
filled_reached = stepped started (file_added (codes "p/j") (codes "/m/cc.json") empty_registry)

added : filled_registry ≡ record empty_registry { scopes = (codes "p/j", error_matcher ∷ []) ∷ [] }
unfolding add_from_file text_beq text_less ascii_lower add_matchers compile_all read_config filter
    get insert compile insert_element workspace compile_patterns empty_state validate_owner
    validate_severity assign_captures
added = refl

Reachable-IsRegistry_example : IsRegistry filled_registry
Reachable-IsRegistry_example =
    Reachable-IsRegistry prefix_regexes one_config no_path (some (codes "/m")) (some (codes "/w"))
      filled_registry filled_reached

scan_total_example :
    (next : ProblemMatcherRegistry Text) × (annotation : Option CheckAnnotation) × (scan
        prefix_regexes no_path
        (codes "p/j")
        (codes "error: bad")
        filled_registry
      ≡ some (next, annotation))
    × IsRegistry next
scan_total_example =
    scan_total prefix_regexes one_config no_path (some (codes "/m")) (some (codes "/w"))
      (codes "p/j") (codes "error: bad") filled_registry filled_reached
