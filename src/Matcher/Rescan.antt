-- ===== src/Matcher/Rescan.antt =====
-- The matchers after a scan (crates/gitzero-agent/src/problem_matcher.rs).
use gitzero.Matcher.Report.{into_annotation}
use gitzero.Matcher.Lines.{MatchedIssue, State}
use gitzero.Matcher.Total.{length-reset, matches_total}
use gitzero.Protocol.{CheckAnnotation}
use gitzero.Matcher.Scan.{after_turn, after_issue, Scanned, reset_matcher, scan_from}
use gitzero.Matcher.Active.{All-append, IsActive, HasState, distinct_owners, owned}
use gitzero.Matcher.Registry.{owner_of}
use gitzero.Matcher.Patterns.{ProblemMatcher, Regexes}
use gitzero.Prelude.{
  All, Bool, List, Option, Text, [], any, ap, append-nil, append_assoc, arith, length, map, nat_key,
  none, not, refl, some, subst, suc, sym, text_key, true, zero, ℕ, ◌&&◌, ◌++◌, ◌==◌, ◌∙◌, ◌∷◌, ◌≡◌,
  ◌≤◌,
}

abbrev distinct_texts : List Text → Bool
distinct_texts [] = true
distinct_texts (t ∷ ts) = not (any (λ u. u == t) ts) && distinct_texts ts

module _ {Regex : Type 0} where
  abbrev pub owners : List (ProblemMatcher Regex) → List Text
  owners ms = map owner_of ms

  owned_by_owners :
      (owner : Text) (ms : List (ProblemMatcher Regex))
      → owned owner ms ≡ any (λ u. u == owner) (owners ms)
  owned_by_owners owner [] = refl
  owned_by_owners owner (m ∷ ms) = rw (owned_by_owners owner ms) refl

  distinct_by_owners :
      (ms : List (ProblemMatcher Regex)) → distinct_owners ms ≡ distinct_texts (owners ms)
  distinct_by_owners [] = refl
  distinct_by_owners (m ∷ ms) = rw (owned_by_owners (owner_of m) ms, distinct_by_owners ms) refl

  length-owners : (ms : List (ProblemMatcher Regex)) → length (owners ms) ≡ length ms
  length-owners [] = refl
  length-owners (m ∷ ms) = omega (arith, length-owners ms)

  -- Matchers with the same owners in the same order are as good, if they have their states.
  pub same_owners-IsActive :
      (ms ns : List (ProblemMatcher Regex))
      → owners ns ≡ owners ms
      → All HasState ns
      → IsActive ms
      → IsActive ns
  same_owners-IsActive ms ns same held a = record {
    owners_distinct =
        distinct_by_owners ns
        ∙ ap distinct_texts same
        ∙ sym (distinct_by_owners ms)
        ∙ a.owners_distinct;
    capped = omega (arith, a.capped, length-owners ms, length-owners ns, ap length same);
    states = held;
  }

  owners-append : (ms ns : List (ProblemMatcher Regex)) → owners (ms ++ ns) ≡ owners ms ++ owners ns
  owners-append [] ns = refl
  owners-append (m ∷ ms) ns = ap (λ os. owner_of m ∷ os) (owners-append ms ns)

module _ {Regex Captures : Type 0} (p : Regexes Regex Captures)
    (matcher_path : Option Text → Option Text → Option Text → Option Text) where
  pub owners-reset :
      (ms : List (ProblemMatcher Regex))
      → owners (map (reset_matcher p matcher_path) ms) ≡ owners ms
  owners-reset [] = refl
  owners-reset (m ∷ ms) = ap (λ os. owner_of m ∷ os) (owners-reset ms)

  pub reset-HasState :
      (ms : List (ProblemMatcher Regex))
      → All HasState ms
      → All HasState (map (reset_matcher p matcher_path) ms)
  reset-HasState [] h = tt
  reset-HasState (m ∷ ms) (here, rest) =
      (omega (arith, length-reset m.state, here), reset-HasState ms rest)

  length-reset_all :
      (ms : List (ProblemMatcher Regex))
      → length (map (reset_matcher p matcher_path) ms) ≡ length ms
  length-reset_all [] = refl
  length-reset_all (m ∷ ms) = omega (arith, length-reset_all ms)

  -- One matcher, and those behind it, replaced by matchers of the same owners.
  owners_replaced :
      (tried visited : List (ProblemMatcher Regex)) (changed m : ProblemMatcher Regex)
      (others rest : List (ProblemMatcher Regex))
      → owners tried ≡ owners visited
      → owner_of changed ≡ owner_of m
      → owners others ≡ owners rest
      → owners ((tried ++ changed ∷ []) ++ others) ≡ owners (visited ++ m ∷ rest)
  owners_replaced tried visited changed m others rest before here behind =
      rw (append_assoc tried (changed ∷ []) others) rw
        (owners-append tried (changed ∷ others), owners-append visited (m ∷ rest)) rw
        (before, here, behind) refl

  abbrev Rescanned : List (ProblemMatcher Regex) → Scanned p matcher_path → Type 0
  Rescanned ms scanned =
      (out : List (ProblemMatcher Regex)) × (annotation : Option CheckAnnotation) × (scanned
        ≡ some (out, annotation))
      × (owners out ≡ owners ms)
      × All HasState out

  after_issue-Rescanned :
      (ms tried others : List (ProblemMatcher Regex)) (annotation : Option CheckAnnotation)
      (later : Scanned p matcher_path)
      → owners (tried ++ others) ≡ owners ms
      → All HasState tried
      → All HasState others
      → Rescanned (tried ++ others) later
      → Rescanned ms (after_issue p matcher_path tried others annotation later)
  after_issue-Rescanned ms tried others (some annotation) later same t o r =
      (tried ++ others, some annotation, refl, same, All-append HasState tried others t o)
  after_issue-Rescanned ms tried others none later same t o (out, annotation, done, owned, held) =
      (out, annotation, done, owned ∙ same, held)

  -- The loop ends within its fuel, and keeps the owners and the states.
  pub scan_from_total :
      (fuel : ℕ) (line : Text) (folder : Option Text) (visited rest : List (ProblemMatcher Regex))
      → length rest ≤ fuel
      → All HasState visited
      → All HasState rest
      → Rescanned (visited ++ rest) (scan_from p matcher_path fuel line folder visited rest)
  unfolding scan_from
  scan_from_total fuel line folder visited [] h v r =
      (visited, none, refl, ap owners (sym (append-nil visited)), v)
  scan_from_total zero line folder visited (m ∷ rest) h v r = absurd (omega arith)
  scan_from_total (suc fuel) line folder visited (m ∷ rest) h v (here, r) =
      let (state, issue, matched, kept) = matches_total p m line here in
      subst (λ o. Rescanned (visited ++ m ∷ rest) (turn_scanned o)) (sym matched)
        (elim issue
          as (λ issue. Rescanned (visited ++ m ∷ rest) (turn_scanned (some (state, issue)))) [
            | none ↦
                let (out, annotation, done, same, held) =
                  scan_from_total fuel line folder (visited ++ record m { state = state } ∷ []) rest
                    (omega (arith, h))
                    (All-append HasState visited _ v (omega (arith, here, kept), tt)) r in
                (
                  out,
                  annotation,
                  done,
                  same
                      ∙ owners_replaced visited visited (record m { state = state }) m rest rest
                          refl refl refl,
                  held,
                )
            | some issue ↦
                let tried =
                  map (reset_matcher p matcher_path) visited ++ record m { state = state } ∷ [] in
                let others = map (reset_matcher p matcher_path) rest in
                let held =
                  All-append HasState (map (reset_matcher p matcher_path) visited) _
                    (reset-HasState visited v) (omega (arith, here, kept), tt) in
                after_issue-Rescanned (visited ++ m ∷ rest) tried others
                  (into_annotation matcher_path issue folder)
                  (scan_from p matcher_path fuel line folder tried others)
                  (owners_replaced (map (reset_matcher p matcher_path) visited) visited
                    (record m { state = state }) m others rest (owners-reset visited) refl
                    (owners-reset rest))
                  held (reset-HasState rest r)
                  (scan_from_total fuel line folder tried others
                    (omega (arith, h, length-reset_all rest)) held (reset-HasState rest r))
          ])
    where
      turn_scanned : Option (State × Option MatchedIssue) → Scanned p matcher_path
      turn_scanned =
          after_turn p matcher_path folder visited m rest
            (scan_from p matcher_path fuel line folder)
