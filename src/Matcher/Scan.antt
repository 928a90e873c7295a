-- ===== src/Matcher/Scan.antt =====
-- `ProblemMatcherRegistry::scan` and `reset_scope` of crates/gitzero-agent/src/problem_matcher.rs.
-- A panic of a matcher is none.
use gitzero.Matcher.Report.{into_annotation}
use gitzero.Protocol.{CheckAnnotation}
use gitzero.Prelude.Map.{insert, get}
use gitzero.Matcher.Registry.{strip_ansi_color, ProblemMatcherRegistry, workspace}
use gitzero.Matcher.Lines.{MatchedIssue, State, reset, matches}
use gitzero.Matcher.Patterns.{ProblemMatcher, Regexes}
use gitzero.Prelude.{
  List, Option, Text, [], length, map, nat_key, none, some, suc, text_key, zero, ℕ, ◌++◌, ◌∷◌,
}

module _ {Regex Captures : Type 0} (p : Regexes Regex Captures)
    (matcher_path : Option Text → Option Text → Option Text → Option Text) where
  abbrev pub reset_matcher : ProblemMatcher Regex → ProblemMatcher Regex
  reset_matcher m = record m { state = reset m.state }

  abbrev pub Scanned : Type 0
  Scanned = Option (List (ProblemMatcher Regex) × Option CheckAnnotation)

  -- What follows a matched issue: an annotation ends the scan.
  abbrev pub after_issue :
      List (ProblemMatcher Regex)
      → List (ProblemMatcher Regex)
      → Option CheckAnnotation
      → Scanned
      → Scanned
  after_issue visited rest (some annotation) later = some (visited ++ rest, some annotation)
  after_issue visited rest none later = later

  -- What follows the turn of a matcher, by what it gave.
  abbrev pub after_turn :
      Option Text
      → List (ProblemMatcher Regex)
      → ProblemMatcher Regex
      → List (ProblemMatcher Regex)
      → (List (ProblemMatcher Regex) → List (ProblemMatcher Regex) → Scanned)
      → Option (State × Option MatchedIssue)
      → Scanned
  after_turn folder visited m rest next none = none
  after_turn folder visited m rest next (some (state, none)) =
      next (visited ++ record m { state = state } ∷ []) rest
  after_turn folder visited m rest next (some (state, some issue)) =
      let others = map reset_matcher rest in
      let tried = map reset_matcher visited ++ record m { state = state } ∷ [] in
      after_issue tried others (into_annotation matcher_path issue folder) (next tried others)

  -- The loop over the matchers: those that were tried, and those that are left.
  unfoldable pub scan_from :
      ℕ → Text → Option Text → List (ProblemMatcher Regex) → List (ProblemMatcher Regex) → Scanned
  unfolding matches reset into_annotation
  scan_from fuel line folder visited [] = some (visited, none)
  scan_from zero line folder visited (m ∷ rest) = none
  scan_from (suc fuel) line folder visited (m ∷ rest) =
      after_turn folder visited m rest (scan_from fuel line folder) (matches p m line)

  abbrev pub store_scanned :
      Text
      → ProblemMatcherRegistry Regex
      → Scanned
      → Option (ProblemMatcherRegistry Regex × Option CheckAnnotation)
  store_scanned scope registry none = none
  store_scanned scope registry (some (ms, annotation)) =
      some (record registry { scopes = insert scope ms registry.scopes }, annotation)

  abbrev pub scan_scope :
      Text
      → Text
      → ProblemMatcherRegistry Regex
      → Option (List (ProblemMatcher Regex))
      → Option (ProblemMatcherRegistry Regex × Option CheckAnnotation)
  scan_scope scope line registry none = some (registry, none)
  scan_scope scope line registry (some ms) =
      store_scanned scope registry
        (scan_from (length ms) (strip_ansi_color line) (workspace p scope registry) [] ms)

  unfoldable pub scan :
      Text
      → Text
      → ProblemMatcherRegistry Regex
      → Option (ProblemMatcherRegistry Regex × Option CheckAnnotation)
  unfolding scan_from workspace get insert strip_ansi_color
  scan scope line registry = scan_scope scope line registry (get scope registry.scopes)

  unfoldable pub reset_scope : Text → ProblemMatcherRegistry Regex → ProblemMatcherRegistry Regex
  unfolding get insert reset
  reset_scope scope registry = elim (get scope registry.scopes) [
    | none ↦ registry
    | some ms ↦ record registry { scopes = insert scope (map reset_matcher ms) registry.scopes }
  ]
