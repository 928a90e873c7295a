-- ===== src/Matcher/Compiled.antt =====
-- What a compiled matcher satisfies (crates/gitzero-agent/src/problem_matcher.rs).
use gitzero.Prelude.Result.{ok_or, >>=-eq-ok, guard-eq-ok, ok-injective, ok, Result}
use gitzero.Prelude.Sets.{insert_element, member, Set}
use gitzero.Matcher.Patterns.{
  no_message, invalid_from_path, is_bad_from_path, pattern_count, is_bad_count, validate_severity,
  validate_owner, ProblemMatcherConfig, compile, empty_state, assigned_twice, invalid_regex,
  capture_range, checked, is_given, max_patterns, named_captures, ProblemMatcher, ProblemPattern,
  compile_patterns, pattern_error, MatcherError, ProblemPatternConfig, Regexes, assign_captures,
}
use gitzero.Prelude.{
  Bool, List, Option, Text, [], all, arith, codes, false, leb, length, ltb, nat_beq, nat_key, none,
  not, refl, some, subst, suc, sym, text_key, true, zero, ℕ, ◌&&◌, ◌+◌, ◌-◌, ◌||◌, ◌∷◌, ◌≡◌, ◌≤◌,
}

-- Every group that a pattern names exists.
abbrev pub in_range : ℕ → List (Text × Option ℕ) → Bool
in_range groups captures = all (λ e. elim e.1 [ none ↦ true | some i ↦ ltb i groups ]) captures

-- The patterns from an index on, of `count` in all: only the last may loop, and not the first.
unfoldable pub AreSound :
    {Regex Captures : Type 0}
    → Regexes Regex Captures
    → ℕ
    → ℕ
    → List (ProblemPattern Regex)
    → Type 0
AreSound p index count [] = Unit
AreSound p index count (pattern ∷ patterns) =
    (in_range (p.captures_len pattern.regex) (named_captures pattern.config) ≡ true)
    × ((pattern.config.loops && (nat_beq index 0 || not (nat_beq (index + 1) count))) ≡ false)
    × ((pattern.config.loops && not (is_given pattern.config.message)) ≡ false)
    × AreSound p (index + 1) count patterns

pub record IsCompiled {Regex Captures : Type 0} (p : Regexes Regex Captures)
    (m : ProblemMatcher Regex) : Type 0 where
  pub state_length : suc (length m.state) ≡ length m.patterns
  pub pattern_count : length m.patterns ≤ max_patterns
  pub patterns_sound : AreSound p 0 (length m.patterns) m.patterns
  pub idle : all (λ slot. not (elim slot [ none ↦ false | some issue ↦ true ])) m.state ≡ true

assign_captures_ok :
    (groups : ℕ) (captures : List (Text × Option ℕ)) (assigned result : Set)
    → assign_captures groups captures assigned ≡ ok result
    → in_range groups captures ≡ true
unfolding assign_captures
assign_captures_ok groups [] assigned result h = refl
assign_captures_ok groups ((name, none) ∷ captures) assigned result h =
    assign_captures_ok groups captures assigned result h
assign_captures_ok groups ((name, some capture) ∷ captures) assigned result h =
    let (ranged, fresh) = guard-eq-ok (leb groups capture) capture_range _ h in
    let (once, rest) = guard-eq-ok (member name assigned) assigned_twice _ fresh in
    ground
      (arith, ranged, assign_captures_ok groups captures (insert_element name assigned) result rest)

pattern_error-none :
    (index count : ℕ) (c : ProblemPatternConfig)
    → pattern_error index count c ≡ none
    → ((c.loops && (nat_beq index 0 || not (nat_beq (index + 1) count))) ≡ false)
      × ((c.loops && not (is_given c.message)) ≡ false)
pattern_error-none index count c h = ground (arith, h)

checked_ok :
    {A : Type 0} (e : Option MatcherError) (r : Result MatcherError A) (a : A)
    → checked e r ≡ ok a
    → (e ≡ none) × (r ≡ ok a)
checked_ok none r a h = (refl, h)
checked_ok (some e) r a h = cc

module _ {Regex Captures : Type 0} (p : Regexes Regex Captures) where
  compile_patterns_ok :
      (index count : ℕ) (configs : List ProblemPatternConfig) (assigned : Set)
      (patterns : List (ProblemPattern Regex)) (all_assigned : Set)
      → compile_patterns p index count configs assigned ≡ ok (patterns, all_assigned)
      → (length patterns ≡ length configs) × AreSound p index count patterns
  unfolding compile_patterns AreSound
  compile_patterns_ok index count [] assigned patterns all_assigned h =
      subst (λ r. (length r.0 ≡ 0) × AreSound p index count r.0) (ok-injective h) (refl, tt)
  compile_patterns_ok index count (config ∷ configs) assigned patterns all_assigned h =
      let (fine, chain) = checked_ok (pattern_error index count config) _ _ h in
      let (regex, built, chain2) =
        >>=-eq-ok (ok_or (p.build config.regexp) invalid_regex) _ chain in
      let (next, assigned_now, chain3) =
        >>=-eq-ok (assign_captures (p.captures_len regex) (named_captures config) assigned) _
          chain2 in
      let (rest, compiled, done) =
        >>=-eq-ok (compile_patterns p (index + 1) count configs next) _ chain3 in
      let (same, sound) =
        compile_patterns_ok (index + 1) count configs next rest.0 rest.1 compiled in
      let (loops, message) = pattern_error-none index count config fine in
      subst (λ r. (length r.0 ≡ suc (length configs)) × AreSound p index count r.0)
        (ok-injective done)
        (
          omega (arith, same),
          (
            assign_captures_ok (p.captures_len regex) (named_captures config) assigned next
                assigned_now,
            loops,
            message,
            sound,
          ),
        )

  length-empty_state : (n : ℕ) → length (empty_state p n) ≡ n
  unfolding empty_state
  length-empty_state zero = refl
  length-empty_state (suc n) = omega (arith, length-empty_state n)

  empty_state_idle :
      (n : ℕ)
      → all (λ slot. not (elim slot [ none ↦ false | some issue ↦ true ])) (empty_state p n) ≡ true
  unfolding empty_state
  empty_state_idle zero = refl
  empty_state_idle (suc n) = empty_state_idle n

  -- A configuration that compiles gives a matcher of one to ten patterns whose state has one slot
  -- less, none of them taken. Every group that a pattern names exists, only the last of several
  -- patterns loops, and a looping pattern captures a message.
  pub compile-IsCompiled :
      (config : ProblemMatcherConfig) (m : ProblemMatcher Regex)
      → compile p config ≡ ok m
      → IsCompiled p m
  unfolding compile
  compile-IsCompiled config m h =
      let (owned, valid, chain) = >>=-eq-ok (validate_owner config.owner) _ h in
      let (supported, known, chain2) =
        >>=-eq-ok (validate_severity config.default_severity) _ chain in
      let (counted, chain3) =
        guard-eq-ok (is_bad_count p (length config.pattern)) pattern_count _ chain2 in
      let (pathed, chain4) =
        guard-eq-ok (is_bad_from_path p config.default_from_path) invalid_from_path _ chain3 in
      let (compiled, all_sound, chain5) =
        >>=-eq-ok (compile_patterns p 0 (length config.pattern) config.pattern []) _ chain4 in
      let (same, sound) =
        compile_patterns_ok 0 (length config.pattern) config.pattern [] compiled.0 compiled.1
          all_sound in
      let (captured, done) =
        guard-eq-ok (not (member (codes "message") compiled.1)) no_message _ chain5 in
      subst (IsCompiled p) (ok-injective done) (record {
        state_length = ground (arith, counted, same, length-empty_state (length compiled.0 - 1));
        pattern_count = ground (arith, counted, same);
        patterns_sound = subst (λ n. AreSound p 0 n compiled.0) (sym same) sound;
        idle = empty_state_idle (length compiled.0 - 1);
      })
