-- ===== src/Matcher/Total.antt =====
-- The state of a matcher from line to line (crates/gitzero-agent/src/problem_matcher.rs).
use mathlib.Core.Option
use gitzero.Matcher.Patterns.{
  ProblemPattern, ProblemPatternConfig, ProblemMatcher, CapturedIssue, Regexes,
}
use gitzero.Matcher.Lines.{
  match_patterns, match_single, finished, from_captures, or_no_issue, running_slot, MatchedIssue,
  attempt, match_from, matches, merge, turn, is_last, after_match, react, then_continue, State,
  Outcome, reset, set_slot,
}
use gitzero.Prelude.{
  Bool, Bool-cases, List, Option, Text, [], all, ap, arith, false, get_elem?, inl, inr, length,
  nat_key, none, refl, some, subst, suc, sym, text_key, true, zero, ℕ, ◌-◌, ◌<◌, ◌∙◌, ◌∷◌, ◌≡◌, ◌≤◌,
}

-- An outcome that is no panic and leaves as many slots as there were.
unfoldable Keeps : ℕ → Outcome → Type 0
Keeps n none = ⊥
Keeps n (some (state, issue)) = length state ≡ n

pub length-reset : (state : State) → length (reset state) ≡ length state
unfolding reset
length-reset [] = refl
length-reset (s ∷ state) = omega (arith, length-reset state)

-- Writing within the state succeeds and keeps its length.
set_slot-some :
    (i : ℕ) (slot : Option CapturedIssue) (state : State)
    → i < length state
    → (t : State) × (set_slot i slot state ≡ some t) × (length t ≡ length state)
unfolding set_slot
set_slot-some i slot [] h = absurd (omega arith)
set_slot-some zero slot (s ∷ state) h = (slot ∷ state, refl, refl)
set_slot-some (suc i) slot (s ∷ state) h =
    let (t, written, same) = set_slot-some i slot state (omega arith) in
    (s ∷ t, ap (Option.map (λ t. s ∷ t)) written, omega (arith, same))

get_elem?-some :
    {A : Type 0} (i : ℕ) (xs : List A) → i < length xs → (x : A) × (get_elem? xs i ≡ some x)
get_elem?-some i [] h = absurd (omega arith)
get_elem?-some zero (x ∷ xs) h = (x, refl)
get_elem?-some (suc i) (x ∷ xs) h = get_elem?-some i xs (omega arith)

then_continue-Keeps :
    (n i : ℕ) (slot : Option CapturedIssue) (state : State) (next : State → Outcome)
    → i < length state
    → length state ≡ n
    → ((t : State) → length t ≡ n → Keeps n (next t))
    → Keeps n (then_continue (set_slot i slot state) next)
then_continue-Keeps n i slot state next h e k =
    let (t, written, same) = set_slot-some i slot state h in rw written (k t (same ∙ e))

module _ {Regex Captures : Type 0} (p : Regexes Regex Captures) (m : ProblemMatcher Regex)
    (text : Text) where
  after_match-Keeps :
      (index n : ℕ) (state : State) (running : Option CapturedIssue) (loops : Bool)
      (issue : MatchedIssue)
      → 0 < n
      → index < suc n
      → length state ≡ n
      → Keeps n (after_match p m text index state running loops issue)
  unfolding after_match Keeps
  after_match-Keeps index n state running false issue more h e = length-reset state ∙ e
  after_match-Keeps index n state running true issue more h e =
      let (t, written, same) =
        set_slot-some (index - 1) running (reset state) (omega (arith, length-reset state)) in
      rw written (same ∙ length-reset state ∙ e)

  react-Keeps :
      (index n : ℕ) (next : State → Outcome) (state : State) (running : Option CapturedIssue)
      (config : ProblemPatternConfig) (captured : Option Captures)
      → suc n ≡ length m.patterns
      → 0 < n
      → index < suc n
      → length state ≡ n
      → ((t : State) → length t ≡ n → Keeps n (next t))
      → Keeps n (react p m text index next state running config captured)
  unfolding react
  react-Keeps index n next state running config none count more h e k =
      elim (Bool-cases (is_last p m text index)) [
        | inl last ↦
            rw (last, react) (then_continue-Keeps n (index - 1) none state next (omega arith) e k)
        | inr before ↦
            rw (before, react)
              (then_continue-Keeps n index none state next (ground (arith, before)) e k)
      ]
  react-Keeps index n next state running config (some captures) count more h e k =
      let issue = merge (or_no_issue running) (from_captures p config captures) in
      elim (Bool-cases (is_last p m text index)) [
        | inl last ↦
            rw (last, react)
              (after_match-Keeps index n state running config.loops (finished p m text issue) more h
                e)
        | inr before ↦
            rw (before, react)
              (then_continue-Keeps n index (some issue) state next (ground (arith, before)) e k)
      ]

  attempt-Keeps :
      (index n : ℕ) (next : State → Outcome) (state : State) (running : Option CapturedIssue)
      → suc n ≡ length m.patterns
      → 0 < n
      → index < suc n
      → length state ≡ n
      → ((t : State) → length t ≡ n → Keeps n (next t))
      → Keeps n (attempt p m text index next state running (get_elem? m.patterns index))
  attempt-Keeps index n next state running count more h e k =
      let (pattern, found) = get_elem?-some index m.patterns (omega arith) in
      rw found (
        react-Keeps index n next state running pattern.config (p.captures pattern.regex text) count
          more h e k)

  turn-Keeps :
      (index n : ℕ) (next : State → Outcome) (state : State)
      → suc n ≡ length m.patterns
      → 0 < n
      → index < suc n
      → length state ≡ n
      → ((t : State) → length t ≡ n → Keeps n (next t))
      → Keeps n (turn p m text index next state (running_slot index state))
  turn-Keeps zero n next state count more h e k =
      attempt-Keeps zero n next state none count more h e k
  turn-Keeps (suc i) n next state count more h e k =
      let (slot, found) = get_elem?-some i state (omega arith) in
      subst (λ o. Keeps n (turn p m text (suc i) next state o)) (sym found) (tried slot)
    where
      tried : (slot : Option CapturedIssue) → Keeps n (turn p m text (suc i) next state (some slot))
      tried none = k state e
      tried (some running) = attempt-Keeps (suc i) n next state (some running) count more h e k

  match_from-Keeps :
      (count n : ℕ) (state : State)
      → suc n ≡ length m.patterns
      → 0 < n
      → count ≤ suc n
      → length state ≡ n
      → Keeps n (match_from p m text count state)
  unfolding match_from Keeps
  match_from-Keeps zero n state all more h e = e
  match_from-Keeps (suc index) n state all more h e =
      turn-Keeps index n (match_from p m text index) state all more (omega arith) e
        (λ t same. match_from-Keeps index n t all more (omega arith) same)

  Keeps-some :
      (n : ℕ) (o : Outcome)
      → Keeps n o
      → (state : State) × (issue : Option MatchedIssue) × (o ≡ some (state, issue))
        × (length state ≡ n)
  unfolding Keeps
  Keeps-some n (some (state, issue)) h = (state, issue, refl, h)
  Keeps-some n none h = elim h [ ]

  match_single-Keeps :
      (pattern : ProblemPattern Regex) (captured : Option Captures)
      → Keeps (length m.state) (match_single p m text pattern captured)
  unfolding Keeps
  match_single-Keeps pattern none = refl
  match_single-Keeps pattern (some captures) = refl

  match_patterns-Keeps :
      (patterns : List (ProblemPattern Regex))
      → m.patterns ≡ patterns
      → suc (length m.state) ≡ length m.patterns
      → Keeps (length m.state) (match_patterns p m text patterns)
  match_patterns-Keeps [] e count =
      match_from-Keeps 0 (length m.state) m.state count (two_more count (ap length e)) (omega arith)
        refl
    where
      two_more :
          suc (length m.state) ≡ length m.patterns → length m.patterns ≡ 0 → 0 < length m.state
      two_more count empty = absurd (omega (arith, count, empty))
  match_patterns-Keeps (pattern ∷ []) e count =
      match_single-Keeps pattern (p.captures pattern.regex text)
  match_patterns-Keeps (pattern ∷ second ∷ rest) e count =
      match_from-Keeps (length m.patterns) (length m.state) m.state count
        (omega (arith, count, ap length e)) (omega (arith, count)) refl

  -- On a matcher whose state has one slot less than it has patterns, whatever the line and whatever
  -- the regexes capture, no index is out of range, and the state keeps its length.
  pub matches_total :
      suc (length m.state) ≡ length m.patterns
      → (state : State) × (issue : Option MatchedIssue) × (matches p m text ≡ some (state, issue))
        × (length state ≡ length m.state)
  unfolding matches
  matches_total count =
      Keeps-some (length m.state) (matches p m text) (match_patterns-Keeps m.patterns refl count)
