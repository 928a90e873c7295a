-- ===== src/Matcher/Active.antt =====
-- What holds of the matchers of every scope (crates/gitzero-agent/src/problem_matcher.rs).
use gitzero.Prelude.Split.{filter}
use gitzero.Matcher.Registry.{max_per_job, owner_of, ProblemMatcherRegistry}
use gitzero.Matcher.Patterns.{ProblemMatcher}
use gitzero.Prelude.{
  any-append, ==_iff, ==_refl, All, Bool, Bool-cases, List, Text, [], all, any, arith, false, inl,
  inr, length, nat_key, not, refl, suc, text_key, true, ◌&&◌, ◌++◌, ◌==◌, ◌∷◌, ◌≡◌, ◌≤◌,
}

module _ {Regex : Type 0} where
  abbrev pub owned : Text → List (ProblemMatcher Regex) → Bool
  owned owner ms = any (λ m. owner_of m == owner) ms

  abbrev pub distinct_owners : List (ProblemMatcher Regex) → Bool
  distinct_owners [] = true
  distinct_owners (m ∷ ms) = not (owned (owner_of m) ms) && distinct_owners ms

  -- The state has one slot less than there are patterns.
  abbrev pub HasState : ProblemMatcher Regex → Type 0
  HasState m = suc (length m.state) ≡ length m.patterns

  -- The owners are distinct in any ASCII case, there are at most 128 matchers, and each has its state.
  pub record IsActive (ms : List (ProblemMatcher Regex)) : Type 0 where
    pub owners_distinct : distinct_owners ms ≡ true
    pub capped : length ms ≤ max_per_job
    pub states : All HasState ms

  unfoldable pub IsRegistry : ProblemMatcherRegistry Regex → Type 0
  IsRegistry registry = All (λ e. IsActive e.1) registry.scopes

  owned-filter :
      (owner : Text) (test : ProblemMatcher Regex → Bool) (ms : List (ProblemMatcher Regex))
      → owned owner ms ≡ false
      → owned owner (filter test ms) ≡ false
  unfolding filter
  owned-filter owner test [] h = refl
  owned-filter owner test (m ∷ ms) h = ground (arith, h, owned-filter owner test ms)

  distinct_owners-filter :
      (test : ProblemMatcher Regex → Bool) (ms : List (ProblemMatcher Regex))
      → distinct_owners ms ≡ true
      → distinct_owners (filter test ms) ≡ true
  unfolding filter
  distinct_owners-filter test [] h = refl
  distinct_owners-filter test (m ∷ ms) h =
      ground (arith, h, distinct_owners-filter test ms, owned-filter (owner_of m) test ms)

  length-filter :
      (test : ProblemMatcher Regex → Bool) (ms : List (ProblemMatcher Regex))
      → length (filter test ms) ≤ length ms
  unfolding filter
  length-filter test [] = omega arith
  length-filter test (m ∷ ms) = ground (arith, length-filter test ms)

  states-filter :
      (test : ProblemMatcher Regex → Bool) (ms : List (ProblemMatcher Regex))
      → All HasState ms
      → All HasState (filter test ms)
  unfolding filter
  states-filter test [] h = tt
  states-filter test (m ∷ ms) (here, rest) = elim (Bool-cases (test m)) [
    | inl kept ↦ rw (kept, filter) (here, states-filter test ms rest)
    | inr left ↦ rw (left, filter) (states-filter test ms rest)
  ]

  pub filter-IsActive :
      (test : ProblemMatcher Regex → Bool) (ms : List (ProblemMatcher Regex))
      → IsActive ms
      → IsActive (filter test ms)
  filter-IsActive test ms a = record {
    owners_distinct = distinct_owners-filter test ms a.owners_distinct;
    capped = omega (arith, length-filter test ms, a.capped);
    states = states-filter test ms a.states;
  }

  pub All-append :
      (P : ProblemMatcher Regex → Type 0) (ms ns : List (ProblemMatcher Regex))
      → All P ms
      → All P ns
      → All P (ms ++ ns)
  All-append P [] ns h k = k
  All-append P (m ∷ ms) ns (h, rest) k = (h, All-append P ms ns rest k)

  -- No matcher of the second list has an owner of the first.
  abbrev pub disjoint : List (ProblemMatcher Regex) → List (ProblemMatcher Regex) → Bool
  disjoint ms ns = all (λ m. not (owned (owner_of m) ns)) ms

  pub distinct_owners-append :
      (ms ns : List (ProblemMatcher Regex))
      → distinct_owners ms ≡ true
      → distinct_owners ns ≡ true
      → disjoint ms ns ≡ true
      → distinct_owners (ms ++ ns) ≡ true
  distinct_owners-append [] ns h k d = k
  distinct_owners-append (m ∷ ms) ns h k d = ground (
    arith,
    h,
    k,
    d,
    distinct_owners-append ms ns,
    any-append (λ n. owner_of n == owner_of m) ms ns,
  )

  -- What is retained beside new matchers has none of their owners.
  owned-retained :
      (owner : Text) (ms ns : List (ProblemMatcher Regex))
      → owned owner ms ≡ true
      → owned owner (filter (λ n. not (owned (owner_of n) ms)) ns) ≡ false
  unfolding filter
  owned-retained owner ms [] h = refl
  owned-retained owner ms (n ∷ ns) h =
      ground (arith, h, owned-retained owner ms ns, ==_iff (owner_of n) owner)

  pub disjoint-retained :
      (ms all_ms ns : List (ProblemMatcher Regex))
      → ((owner : Text) → owned owner ms ≡ true → owned owner all_ms ≡ true)
      → disjoint ms (filter (λ n. not (owned (owner_of n) all_ms)) ns) ≡ true
  disjoint-retained [] all_ms ns h = refl
  disjoint-retained (m ∷ ms) all_ms ns h =
      both (owned-retained (owner_of m) all_ms ns (h (owner_of m) (here_owned m ms)))
        (disjoint-retained ms all_ms ns λ owner o. h owner (owned-later owner m ms o))
    where
      both : {a b : Bool} → a ≡ false → b ≡ true → (not a && b) ≡ true
      both h k = ground (arith, h, k)

      here_owned :
          (m : ProblemMatcher Regex) (ms : List (ProblemMatcher Regex))
          → owned (owner_of m) (m ∷ ms) ≡ true
      here_owned m ms = ground (arith, ==_refl (owner_of m))

      owned-later :
          (owner : Text) (m : ProblemMatcher Regex) (ms : List (ProblemMatcher Regex))
          → owned owner ms ≡ true
          → owned owner (m ∷ ms) ≡ true
      owned-later owner m ms o = ground (arith, o)
