-- ===== src/Matcher/Invariant.antt =====
-- The registry from operation to operation (crates/gitzero-agent/src/problem_matcher.rs).
use gitzero.Prelude.Split.{filter}
use gitzero.Prelude.Map.{get-All, All-insert, get}
use gitzero.Matcher.Compiled.{compile-IsCompiled}
use gitzero.Matcher.Active.{
  All-append, disjoint-retained, distinct_owners-append, filter-IsActive, owned, IsActive,
  IsRegistry, HasState, distinct_owners,
}
use gitzero.Matcher.Registry.{
  remove_valid, checked_count, read_config, add_compiled, add_from_file, remove_from_file,
  remove_owner, remove_owners, retain_matchers, max_per_job, is_owned_by, active_of, add_matchers,
  set_active, ProblemMatcherRegistry, compile_all, owner_of,
}
use gitzero.Prelude.Result.{◌>>=◌, err, guard-eq-ok, >>=-eq-ok, ok-injective, ok, Result}
use gitzero.Prelude.Sets.{member-insert_element, insert_element, member, Set}
use gitzero.Matcher.Patterns.{
  validate_owner, duplicate_owner, compile, ProblemMatcherConfig, MatcherError, ProblemMatcher,
  Regexes,
}
use gitzero.Prelude.{
  length-append, &&-true, ==_iff, All, Bool, Bool-cases, List, Option-cases, Text, [], all, arith,
  false, inl, inr, length, ltb, nat_key, not, refl, subst, text_key, true, ◌++◌, ◌+◌, ◌∷◌, ◌≡◌,
}

unfoldable fresh : {Regex : Type 0} → Set → List (ProblemMatcher Regex) → Bool
fresh before ms = all (λ m. not (member (owner_of m) before)) ms

-- What is new after an owner is inserted is new before, and is not owned by it.
fresh-insert_element :
    {Regex : Type 0} (owner : Text) (before : Set) (ms : List (ProblemMatcher Regex))
    → fresh (insert_element owner before) ms ≡ true
    → (owned owner ms ≡ false) × (fresh before ms ≡ true)
unfolding fresh
fresh-insert_element owner before [] h = (refl, refl)
fresh-insert_element owner before (m ∷ ms) h =
    let (here, rest) = &&-true (not (member (owner_of m) (insert_element owner before))) _ h in
    let (apart, new) = fresh-insert_element owner before ms rest in
    (
      ground (
        arith,
        here,
        apart,
        member-insert_element (owner_of m) owner before,
        ==_iff owner (owner_of m),
        ==_iff (owner_of m) owner,
      ),
      ground (arith, here, new, member-insert_element (owner_of m) owner before),
    )

module _ {Regex Captures : Type 0} (p : Regexes Regex Captures)
    (load : Text → Text → Text → Result MatcherError (List ProblemMatcherConfig)) where
  -- The owners of compiled matchers are distinct, and none is among those before.
  compile_all_ok :
      (configs : List ProblemMatcherConfig) (before : Set) (matchers : List (ProblemMatcher Regex))
      → compile_all p load configs before ≡ ok matchers
      → (distinct_owners matchers ≡ true) × (fresh before matchers ≡ true) × All HasState matchers
  unfolding compile_all fresh
  compile_all_ok [] before matchers h =
      subst (λ ms. (distinct_owners ms ≡ true) × (fresh before ms ≡ true) × All HasState ms)
        (ok-injective h) (refl, refl, tt)
  compile_all_ok (config ∷ configs) before matchers h =
      let (m, compiled, chain) = >>=-eq-ok (compile p config) _ h in
      let (new, chain2) = guard-eq-ok (member (owner_of m) before) duplicate_owner _ chain in
      let (rest, all_compiled, done) =
        >>=-eq-ok (compile_all p load configs (insert_element (owner_of m) before)) _ chain2 in
      let (once, once_more, held) =
        compile_all_ok configs (insert_element (owner_of m) before) rest all_compiled in
      let (apart, unseen) = fresh-insert_element (owner_of m) before rest once_more in
      subst (λ ms. (distinct_owners ms ≡ true) × (fresh before ms ≡ true) × All HasState ms)
        (ok-injective done)
        (
          ground (arith, apart, once),
          ground (arith, new, unseen),
          ((compile-IsCompiled p config m compiled).state_length, held),
        )

  abbrev none_active : List (ProblemMatcher Regex)
  none_active = []

  none_active-IsActive : IsActive none_active
  none_active-IsActive = record { owners_distinct = refl; capped = omega arith; states = tt }

  active_of-IsActive :
      (scope : Text) (registry : ProblemMatcherRegistry Regex)
      → IsRegistry registry
      → IsActive (active_of p load scope registry)
  unfolding IsRegistry
  active_of-IsActive scope registry h = elim (Option-cases (get scope registry.scopes)) [
    | inl absent ↦ rw (absent, active_of) none_active-IsActive
    | inr (ms, present) ↦
        rw (present, active_of) (get-All IsActive scope registry.scopes ms present h)
  ]

  set_active-IsRegistry :
      (scope : Text) (ms : List (ProblemMatcher Regex)) (registry : ProblemMatcherRegistry Regex)
      → IsActive ms
      → IsRegistry registry
      → IsRegistry (set_active p load scope ms registry)
  unfolding IsRegistry
  set_active-IsRegistry scope ms registry a h =
      All-insert (λ e. IsActive e.1) scope ms registry.scopes a h

  add_matchers-IsRegistry :
      (scope : Text) (ms : List (ProblemMatcher Regex)) (registry : ProblemMatcherRegistry Regex)
      → distinct_owners ms ≡ true
      → All HasState ms
      → IsRegistry registry
      → IsRegistry (add_matchers p load scope ms registry).0
  unfolding add_matchers
  add_matchers-IsRegistry scope ms registry once held h =
      elim (Bool-cases (ltb max_per_job (length ms + length retained))) [
        | inl over ↦
            rw (over, add_matchers) (set_active-IsRegistry scope [] registry none_active-IsActive h)
        | inr within ↦
            rw (within, add_matchers)
              (set_active-IsRegistry scope (ms ++ retained) registry (joined within) h)
      ]
    where
      retained : List (ProblemMatcher Regex)
      retained = filter (λ m. not (is_owned_by p load ms m)) (active_of p load scope registry)

      kept : IsActive retained
      kept =
          filter-IsActive _ (active_of p load scope registry) (active_of-IsActive scope registry h)

      joined : ltb max_per_job (length ms + length retained) ≡ false → IsActive (ms ++ retained)
      joined within = record {
        owners_distinct =
            distinct_owners-append ms retained once kept.owners_distinct
              (disjoint-retained ms ms (active_of p load scope registry) (λ owner o. o));
        capped = ground (arith, within, length-append ms retained);
        states = All-append HasState ms retained held kept.states;
      }

  retain_matchers-IsRegistry :
      (scope : Text) (test : ProblemMatcher Regex → Bool) (registry : ProblemMatcherRegistry Regex)
      → IsRegistry registry
      → IsRegistry (retain_matchers p load scope test registry)
  unfolding retain_matchers IsRegistry
  retain_matchers-IsRegistry scope test registry h =
      elim (Option-cases (get scope registry.scopes)) [
        | inl absent ↦ rw (absent, retain_matchers) h
        | inr (ms, present) ↦
            rw (present, retain_matchers)
              (set_active-IsRegistry scope (filter test ms) registry
                (filter-IsActive test ms (get-All IsActive scope registry.scopes ms present h)) h)
      ]

  add_compiled-IsRegistry :
      (scope : Text) (registry : ProblemMatcherRegistry Regex)
      (compiled : Result MatcherError (List (ProblemMatcher Regex)))
      → ((ms : List (ProblemMatcher Regex))
          → compiled ≡ ok ms
          → (distinct_owners ms ≡ true) × All HasState ms)
      → IsRegistry registry
      → IsRegistry (add_compiled p load scope registry compiled).0
  add_compiled-IsRegistry scope registry (err e) good h = h
  add_compiled-IsRegistry scope registry (ok []) good h = h
  add_compiled-IsRegistry scope registry (ok (m ∷ ms)) good h =
      let (once, held) = good (m ∷ ms) refl in
      add_matchers-IsRegistry scope (m ∷ ms) registry once held h

  pub add_from_file-IsRegistry :
      (scope path : Text) (registry : ProblemMatcherRegistry Regex)
      → IsRegistry registry
      → IsRegistry (add_from_file p load scope path registry).0
  unfolding add_from_file
  add_from_file-IsRegistry scope path registry h = add_compiled-IsRegistry scope registry _ good h
    where
      good :
          (ms : List (ProblemMatcher Regex))
          → (read_config p load scope path registry >>= λ configs.
              checked_count p load configs >>= λ configs. compile_all p load configs [])
            ≡ ok ms
          → (distinct_owners ms ≡ true) × All HasState ms
      good ms e =
          let (configs, read, chain) = >>=-eq-ok (read_config p load scope path registry) _ e in
          let (counted, fine, compiled) = >>=-eq-ok (checked_count p load configs) _ chain in
          let (once, new, held) = compile_all_ok counted [] ms compiled in (once, held)

  remove_valid-IsRegistry :
      (scope owner : Text) (registry : ProblemMatcherRegistry Regex)
      (valid : Result MatcherError (Unit {0}))
      → IsRegistry registry
      → IsRegistry (remove_valid p load scope owner registry valid).0
  remove_valid-IsRegistry scope owner registry (err e) h = h
  remove_valid-IsRegistry scope owner registry (ok u) h =
      retain_matchers-IsRegistry scope _ registry h

  pub remove_owner-IsRegistry :
      (scope owner : Text) (registry : ProblemMatcherRegistry Regex)
      → IsRegistry registry
      → IsRegistry (remove_owner p load scope owner registry).0
  unfolding remove_owner
  remove_owner-IsRegistry scope owner registry h =
      remove_valid-IsRegistry scope owner registry (validate_owner owner) h

  remove_owners-IsRegistry :
      (scope : Text) (registry : ProblemMatcherRegistry Regex) (owners : Result MatcherError Set)
      → IsRegistry registry
      → IsRegistry (remove_owners p load scope registry owners).0
  remove_owners-IsRegistry scope registry (err e) h = h
  remove_owners-IsRegistry scope registry (ok owners) h =
      retain_matchers-IsRegistry scope _ registry h

  pub remove_from_file-IsRegistry :
      (scope path : Text) (registry : ProblemMatcherRegistry Regex)
      → IsRegistry registry
      → IsRegistry (remove_from_file p load scope path registry).0
  unfolding remove_from_file
  remove_from_file-IsRegistry scope path registry h = remove_owners-IsRegistry scope registry _ h
