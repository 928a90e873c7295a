-- ===== src/Matcher/Lines.antt =====
-- How a matcher reads a line (crates/gitzero-agent/src/problem_matcher.rs). An index out of range
-- is a panic, which is none.
use mathlib.Core.Option
use gitzero.Matcher.Patterns.{
  ProblemPattern, ProblemMatcher, ProblemPatternConfig, CapturedIssue, Regexes,
}
use gitzero.Prelude.{
  Bool, List, Option, Text, [], get_elem?, if◌then◌else◌, length, nat_beq, nat_key, none, some, suc,
  text_key, zero, ℕ, ◌+◌, ◌-◌, ◌∷◌,
}

abbrev pub State : Type 0
State = List (Option CapturedIssue)

pub record MatchedIssue : Type 0 where
  pub owner : Text
  pub captured : CapturedIssue

-- Option::or
abbrev pub or {ℓ} : {A : Type ℓ} → Option A → Option A → Option A
or none b = b
or (some a) b = some a

unfoldable pub merge : CapturedIssue → CapturedIssue → CapturedIssue
merge issue newer = record {
  file = or issue.file newer.file;
  line = or issue.line newer.line;
  column = or issue.column newer.column;
  severity = or issue.severity newer.severity;
  code = or issue.code newer.code;
  message = or issue.message newer.message;
  from_path = or issue.from_path newer.from_path;
}

abbrev pub no_issue : CapturedIssue
no_issue = record {
  file = none;
  line = none;
  column = none;
  severity = none;
  code = none;
  message = none;
  from_path = none;
}

-- A value that is missing or empty takes the default, unless that is empty.
abbrev pub or_default : Option Text → Text → Option Text
or_default none [] = none
or_default none (c ∷ default) = some (c ∷ default)
or_default (some []) [] = some []
or_default (some []) (c ∷ default) = some (c ∷ default)
or_default (some (c ∷ value)) default = some (c ∷ value)

unfoldable pub finish : CapturedIssue → Text → Text → Text → MatchedIssue
finish issue owner default_severity default_from_path = record {
  owner = owner;
  captured = record issue {
    severity = or_default issue.severity default_severity;
    from_path = or_default issue.from_path default_from_path;
  };
}

-- `unwrap_or_default`
abbrev pub or_no_issue : Option CapturedIssue → CapturedIssue
or_no_issue none = no_issue
or_no_issue (some issue) = issue

-- Writing to an index, which panics out of range.
unfoldable pub set_slot : ℕ → Option CapturedIssue → State → Option State
set_slot i slot [] = none
set_slot zero slot (s ∷ state) = some (slot ∷ state)
set_slot (suc i) slot (s ∷ state) = Option.map (λ t. s ∷ t) (set_slot i slot state)

unfoldable pub reset : State → State
reset [] = []
reset (s ∷ state) = none ∷ reset state

-- The outcome of a line: the state afterwards and what was found.
abbrev pub Outcome : Type 0
Outcome = Option (State × Option MatchedIssue)

abbrev pub then_continue : Option State → (State → Outcome) → Outcome
then_continue none next = none
then_continue (some state) next = next state

abbrev pub then_return : Option State → MatchedIssue → Outcome
then_return none issue = none
then_return (some state) issue = some (state, some issue)

-- The slot before a pattern: the first pattern has none.
abbrev pub running_slot : ℕ → State → Option (Option CapturedIssue)
running_slot zero state = some none
running_slot (suc i) state = get_elem? state i

module _ {Regex Captures : Type 0} (p : Regexes Regex Captures) where
  -- A group that takes no part in the match captures the empty text.
  abbrev pub capture : Captures → Option ℕ → Option Text
  capture captures none = none
  capture captures (some index) = elim (p.group captures index) [ none ↦ some [] | some s ↦ some s ]

  unfoldable pub from_captures : ProblemPatternConfig → Captures → CapturedIssue
  from_captures config captures = record {
    file = capture captures config.file;
    line = capture captures config.line;
    column = capture captures config.column;
    severity = capture captures config.severity;
    code = capture captures config.code;
    message = capture captures config.message;
    from_path = capture captures config.from_path;
  }

  module _ (m : ProblemMatcher Regex) (text : Text) where
    abbrev pub finished : CapturedIssue → MatchedIssue
    finished issue = finish issue m.owner m.default_severity m.default_from_path

    abbrev pub is_last : ℕ → Bool
    is_last index = nat_beq (index + 1) (length m.patterns)

    -- After the last pattern: only a loop keeps the issue that it extends.
    unfoldable pub after_match : ℕ → State → Option CapturedIssue → Bool → MatchedIssue → Outcome
    unfolding reset set_slot
    after_match index state running loops issue =
        then_return
          (if loops then set_slot (index - 1) running (reset state) else some (reset state)) issue

    -- The turn of one pattern whose regex was tried.
    unfoldable pub react :
        ℕ
        → (State → Outcome)
        → State
        → Option CapturedIssue
        → ProblemPatternConfig
        → Option Captures
        → Outcome
    unfolding set_slot merge from_captures finish after_match
    react index next state running config none =
        then_continue
          (if is_last index then set_slot (index - 1) none state else set_slot index none state)
          next
    react index next state running config (some captures) =
        let issue = merge (or_no_issue running) (from_captures config captures) in
        if is_last index
        then after_match index state running config.loops (finished issue)
        else then_continue (set_slot index (some issue) state) next

    abbrev pub attempt :
        ℕ
        → (State → Outcome)
        → State
        → Option CapturedIssue
        → Option (ProblemPattern Regex)
        → Outcome
    attempt index next state running none = none
    attempt index next state running (some pattern) =
        react index next state running pattern.config (p.captures pattern.regex text)

    -- A pattern behind the first is tried only if the one before it is running.
    abbrev pub turn : ℕ → (State → Outcome) → State → Option (Option CapturedIssue) → Outcome
    turn index next state none = none
    turn zero next state (some running) =
        attempt zero next state running (get_elem? m.patterns zero)
    turn (suc i) next state (some none) = next state
    turn (suc i) next state (some (some running)) =
        attempt (suc i) next state (some running) (get_elem? m.patterns (suc i))

    -- The loop, from the last pattern to the first: the number of patterns that are left.
    unfoldable pub match_from : ℕ → State → Outcome
    unfolding react
    match_from zero state = some (state, none)
    match_from (suc index) state = turn index (match_from index) state (running_slot index state)

    -- The only pattern, with what its regex captured.
    abbrev pub match_single : ProblemPattern Regex → Option Captures → Outcome
    match_single pattern none = some (m.state, none)
    match_single pattern (some captures) =
        some (m.state, some (finished (from_captures pattern.config captures)))

    -- The branch on the number of patterns.
    abbrev pub match_patterns : List (ProblemPattern Regex) → Outcome
    match_patterns [] = match_from 0 m.state
    match_patterns (pattern ∷ []) = match_single pattern (p.captures pattern.regex text)
    match_patterns (pattern ∷ second ∷ rest) = match_from (length m.patterns) m.state

    unfoldable pub matches : Outcome
    unfolding match_from from_captures finish
    matches = match_patterns m.patterns
