-- ===== src/Matcher/Steps.antt =====
-- The operations of the registry as steps (crates/gitzero-agent/src/problem_matcher.rs).
use gitzero.Matcher.Rescan.{reset-HasState, owners-reset, same_owners-IsActive, scan_from_total}
use gitzero.Matcher.Invariant.{
  remove_from_file-IsRegistry, remove_owner-IsRegistry, add_from_file-IsRegistry,
}
use gitzero.Protocol.{CheckAnnotation}
use gitzero.Prelude.Map.{get-All, insert, All-insert, get}
use gitzero.Matcher.Active.{IsActive, IsRegistry}
use gitzero.Matcher.Scan.{store_scanned, reset_matcher, scan_scope, reset_scope, scan}
use gitzero.Matcher.Registry.{
  workspace, remove_from_file, strip_ansi_color, remove_owner, add_from_file, register_workspace,
  ProblemMatcherRegistry,
}
use gitzero.Prelude.Result.{Result}
use gitzero.Matcher.Patterns.{ProblemMatcher, ProblemMatcherConfig, MatcherError, Regexes}
use gitzero.Prelude.{
  List, Option, Option-cases, Text, [], ap, arith, inl, inr, length, map, nat_key, none, some,
  some-injective, subst, sym, text_key, ◌∙◌, ◌≡◌,
}

module _ {Regex Captures : Type 0} (p : Regexes Regex Captures)
    (load : Text → Text → Text → Result MatcherError (List ProblemMatcherConfig))
    (matcher_path : Option Text → Option Text → Option Text → Option Text) where
  -- What the workflow commands, the log and the end of a step do to the registry.
  pub data RegistryStep : ProblemMatcherRegistry Regex → ProblemMatcherRegistry Regex → Type 0 where
    workspace_registered :
        (scope folder : Text) (registry : ProblemMatcherRegistry Regex)
        → RegistryStep registry (register_workspace p scope folder registry)
    file_added :
        (scope path : Text) (registry : ProblemMatcherRegistry Regex)
        → RegistryStep registry (add_from_file p load scope path registry).0
    owner_removed :
        (scope owner : Text) (registry : ProblemMatcherRegistry Regex)
        → RegistryStep registry (remove_owner p load scope owner registry).0
    file_removed :
        (scope path : Text) (registry : ProblemMatcherRegistry Regex)
        → RegistryStep registry (remove_from_file p load scope path registry).0
    scope_reset :
        (scope : Text) (registry : ProblemMatcherRegistry Regex)
        → RegistryStep registry (reset_scope p matcher_path scope registry)
    line_scanned :
        (scope line : Text) (registry next : ProblemMatcherRegistry Regex)
        (annotation : Option CheckAnnotation)
        → scan p matcher_path scope line registry ≡ some (next, annotation)
        → RegistryStep registry next

  pub data Reachable (root folder : Option Text) : ProblemMatcherRegistry Regex → Type 0 where
    started :
        Reachable root folder (record {
          fallback_workspace = folder;
          workspaces = [];
          matcher_root = root;
          scopes = [];
        })
    stepped :
        {registry next : ProblemMatcherRegistry Regex}
        → Reachable root folder registry
        → RegistryStep registry next
        → Reachable root folder next

  pub reset_scope-IsRegistry :
      (scope : Text) (registry : ProblemMatcherRegistry Regex)
      → IsRegistry registry
      → IsRegistry (reset_scope p matcher_path scope registry)
  unfolding reset_scope IsRegistry
  reset_scope-IsRegistry scope registry h = elim (Option-cases (get scope registry.scopes)) [
    | inl absent ↦ rw (absent, reset_scope) h
    | inr (ms, present) ↦
        let a = get-All IsActive scope registry.scopes ms present h in
        rw (present, reset_scope)
          (All-insert (λ e. IsActive e.1) scope (map (reset_matcher p matcher_path) ms)
            registry.scopes
            (same_owners-IsActive ms (map (reset_matcher p matcher_path) ms)
              (owners-reset p matcher_path ms) (reset-HasState p matcher_path ms a.states) a)
            h)
  ]

  scan_scope-IsRegistry :
      (scope line : Text) (registry : ProblemMatcherRegistry Regex)
      (ms : List (ProblemMatcher Regex))
      → IsActive ms
      → IsRegistry registry
      → (next : ProblemMatcherRegistry Regex) × (annotation : Option CheckAnnotation) × (scan_scope
            p matcher_path scope line registry
            (some ms)
          ≡ some (next, annotation))
        × IsRegistry next
  unfolding IsRegistry
  scan_scope-IsRegistry scope line registry ms a h =
      let (out, annotation, done, same, held) =
        scan_from_total p matcher_path (length ms) (strip_ansi_color line)
          (workspace p scope registry) [] ms (omega arith) tt a.states in
      (
        record registry { scopes = insert scope out registry.scopes },
        annotation,
        ap (store_scanned p matcher_path scope registry) done,
        All-insert (λ e. IsActive e.1) scope out registry.scopes
            (same_owners-IsActive ms out same held a) h,
      )

  pub scan-IsRegistry :
      (scope line : Text) (registry : ProblemMatcherRegistry Regex)
      → IsRegistry registry
      → (next : ProblemMatcherRegistry Regex) × (annotation : Option CheckAnnotation) × (scan p
            matcher_path scope line registry
          ≡ some (next, annotation))
        × IsRegistry next
  unfolding scan IsRegistry
  scan-IsRegistry scope line registry h = elim (Option-cases (get scope registry.scopes)) [
    | inl absent ↦ (registry, none, ap (scan_scope p matcher_path scope line registry) absent, h)
    | inr (ms, present) ↦
        let (next, annotation, done, kept) =
          scan_scope-IsRegistry scope line registry ms
            (get-All IsActive scope registry.scopes ms present h) h in
        (next, annotation, ap (scan_scope p matcher_path scope line registry) present ∙ done, kept)
  ]

  pub step-IsRegistry :
      (registry next : ProblemMatcherRegistry Regex)
      → IsRegistry registry
      → RegistryStep registry next
      → IsRegistry next
  unfolding IsRegistry register_workspace
  step-IsRegistry registry next h (workspace_registered scope folder r) = h
  step-IsRegistry registry next h (file_added scope path r) =
      add_from_file-IsRegistry p load scope path r h
  step-IsRegistry registry next h (owner_removed scope owner r) =
      remove_owner-IsRegistry p load scope owner r h
  step-IsRegistry registry next h (file_removed scope path r) =
      remove_from_file-IsRegistry p load scope path r h
  step-IsRegistry registry next h (scope_reset scope r) = reset_scope-IsRegistry scope r h
  step-IsRegistry registry next h (line_scanned scope line r n annotation e) =
      let (out, found, done, kept) = scan-IsRegistry scope line r h in
      subst IsRegistry (ap (λ o. o.0) (some-injective (sym done ∙ e))) kept

  -- In every registry that is reached from an empty one by the operations, whatever they give, the
  -- owners of a scope's matchers are distinct in any ASCII case, a scope has at most 128 matchers,
  -- and every matcher has its state of one slot less than it has patterns.
  pub Reachable-IsRegistry :
      (root folder : Option Text) (registry : ProblemMatcherRegistry Regex)
      → Reachable root folder registry
      → IsRegistry registry
  unfolding IsRegistry
  Reachable-IsRegistry root folder registry started = tt
  Reachable-IsRegistry root folder registry
        (stepped {registry = before} {next = next} reached step) =
      step-IsRegistry before next (Reachable-IsRegistry root folder before reached) step

  -- In a registry that is reached by the operations, the scan of a line of any scope comes to its end
  -- without a panic, and the registry it leaves is well-formed again.
  pub scan_total :
      (root folder : Option Text) (scope line : Text) (registry : ProblemMatcherRegistry Regex)
      → Reachable root folder registry
      → (next : ProblemMatcherRegistry Regex) × (annotation : Option CheckAnnotation) × (scan p
            matcher_path scope line registry
          ≡ some (next, annotation))
        × IsRegistry next
  scan_total root folder scope line registry reached =
      scan-IsRegistry scope line registry (Reachable-IsRegistry root folder registry reached)
