-- ===== src/Commands/LineSound.antt =====
-- What processing a line or a chunk keeps (crates/gitzero-agent/src/executor.rs).
use gitzero.Commands.AnnotationBounds.{parse_workflow_annotation_total}
use gitzero.Commands.Annotation.{parse_workflow_annotation}
use gitzero.Matcher.Steps.{scan-IsRegistry}
use gitzero.Commands.Counted.{record_annotation-IsProcessor}
use gitzero.Matcher.Invariant.{
  remove_from_file-IsRegistry, remove_owner-IsRegistry, add_from_file-IsRegistry,
}
use gitzero.Protocol.{CheckAnnotation}
use gitzero.Matcher.Scan.{scan}
use gitzero.Matcher.Active.{IsRegistry}
use gitzero.Commands.Syntax.{
  file_removal, file_removal, owner_removal, decode_workflow_command_data, ProblemMatcherRemoval,
  workflow_command_scope, CommandError,
}
use gitzero.Commands.Line.{
  annotation_line, of_command, removal_line, set_matchers, save_state_line, set_output_line,
  stop_line, stop_token_of, suppressed, add_mask_line, add_matcher_line, after_scan, process_line,
  stop_commands_line, stop_with, stopped_line,
}
use gitzero.Matcher.Registry.{ProblemMatcherRegistry}
use gitzero.Prelude.Map.{get, Map}
use gitzero.Commands.Bounded.{
  set_matchers-IsProcessor, register_scope_mask-Completes, set_stop_token-IsProcessor, Completes,
  IsProcessor,
}
use gitzero.Prelude.Result.{err, ok, Result}
use gitzero.Commands.State.{
  no_values, no_values, or_else, LegacyCommandValues, ProcessError, WorkflowCommandProcessor,
}
use gitzero.Matcher.Patterns.{ProblemMatcherConfig, MatcherError, Regexes}
use gitzero.Commands.Legacy.{counted_values, is_over_limit, is_bad_name, record_legacy_value}
use gitzero.Prelude.{
  Bool, Bool-cases, List, Option, Text, [], any, false, inl, inr, nat_beq, nat_key, none, refl,
  some, subst, sym, text_key, true, ◌==◌, ◌||◌, ◌∷◌,
}

record_legacy_value-Completes :
    {Regex : Type 0} (step_id name value : Text) (is_state : Bool)
    (s : WorkflowCommandProcessor Regex)
    → IsProcessor s
    → Completes (record_legacy_value step_id name value is_state s)
unfolding record_legacy_value
record_legacy_value-Completes step_id name value is_state s k =
    elim (Bool-cases (is_bad_name name || any (λ c. nat_beq c 0) value)) [
      | inl bad ↦ rw (bad, record_legacy_value) (k, refl)
      | inr good ↦
          elim (Bool-cases (
            is_over_limit
              (counted_values name value (or_else no_values (get step_id s.legacy_values))))) [
                | inl over ↦ rw (good, over, record_legacy_value) (same_kept _ k, refl)
                | inr within ↦ rw (good, within, record_legacy_value) (same_kept _ k, refl)
              ]
    ]
  where
    same_kept :
        (values : Map Text LegacyCommandValues)
        → IsProcessor s
        → IsProcessor (record s { legacy_values = values })
    same_kept values k = record {
      masks_full = k.masks_full;
      scopes_good = k.scopes_good;
      annotations_capped = k.annotations_capped;
      counts_capped = k.counts_capped;
      matchers_good = k.matchers_good;
    }

module _ {Regex Captures : Type 0} (p : Regexes Regex Captures)
    (load : Text → Text → Text → Result MatcherError (List ProblemMatcherConfig))
    (matcher_path : Option Text → Option Text → Option Text → Option Text) where
  suppressed-Completes :
      (r : WorkflowCommandProcessor Regex × Result ProcessError (Unit {0}))
      → Completes r
      → Completes (suppressed p load matcher_path r)
  suppressed-Completes (s, ok u) k = k
  suppressed-Completes (s, err e) k = (k.0, k.1)

  set_matchers-Completes :
      (s : WorkflowCommandProcessor Regex)
      (r : ProblemMatcherRegistry Regex × Result MatcherError (Unit {0}))
      → IsRegistry r.0
      → IsProcessor s
      → Completes (set_matchers p load matcher_path s r)
  set_matchers-Completes s (registry, ok u) good k =
      (set_matchers-IsProcessor registry s good k, refl)
  set_matchers-Completes s (registry, err e) good k =
      (set_matchers-IsProcessor registry s good k, refl)

  scanned-Completes :
      (step_id line : Text) (s : WorkflowCommandProcessor Regex)
      → IsProcessor s
      → Completes (
          after_scan p load matcher_path step_id s
            (scan p matcher_path (workflow_command_scope step_id) line s.problem_matchers))
  scanned-Completes step_id line s k =
      let (registry, annotation, done, good) =
        scan-IsRegistry p load matcher_path (workflow_command_scope step_id) line s.problem_matchers
          k.matchers_good in
      subst (λ o. Completes (after_scan p load matcher_path step_id s o)) (sym done)
        (go registry annotation good)
    where
      go :
          (registry : ProblemMatcherRegistry Regex) (annotation : Option CheckAnnotation)
          → IsRegistry registry
          → Completes (after_scan p load matcher_path step_id s (some (registry, annotation)))
      go registry none good = (set_matchers-IsProcessor registry s good k, refl)
      go registry (some annotation) good = (
        record_annotation-IsProcessor step_id annotation _
            (set_matchers-IsProcessor registry s good k),
        refl,
      )

  save_state_line-Completes :
      (step_id line : Text) (s : WorkflowCommandProcessor Regex)
      (r : Result CommandError (Option (Text × Text)))
      → IsProcessor s
      → Completes (save_state_line p load matcher_path step_id line s (of_command r))
  save_state_line-Completes step_id line s (err e) k = (k, refl)
  save_state_line-Completes step_id line s (ok (some (name, value))) k =
      suppressed-Completes _ (record_legacy_value-Completes step_id name value true s k)
  save_state_line-Completes step_id line s (ok none) k = scanned-Completes step_id line s k

  set_output_line-Completes :
      (step_id line : Text) (s : WorkflowCommandProcessor Regex)
      (r : Result CommandError (Option (Text × Text)))
      → IsProcessor s
      → Completes (set_output_line p load matcher_path step_id line s (of_command r))
  set_output_line-Completes step_id line s (err e) k = (k, refl)
  set_output_line-Completes step_id line s (ok (some (name, value))) k =
      suppressed-Completes _ (record_legacy_value-Completes step_id name value false s k)
  set_output_line-Completes step_id line s (ok none) k =
      save_state_line-Completes step_id line s _ k

  read_line-Completes :
      (step_id line : Text) (s : WorkflowCommandProcessor Regex)
      (r : Result CommandError (Option CheckAnnotation))
      → IsProcessor s
      → Completes (annotation_line p load matcher_path step_id line s (some r))
  read_line-Completes step_id line s (err e) k = (k, refl)
  read_line-Completes step_id line s (ok (some annotation)) k =
      (record_annotation-IsProcessor step_id annotation s k, refl)
  read_line-Completes step_id line s (ok none) k = set_output_line-Completes step_id line s _ k

  annotation_line-Completes :
      (step_id line : Text) (folder : Option Text) (s : WorkflowCommandProcessor Regex)
      → IsProcessor s
      → Completes (
          annotation_line p load matcher_path step_id line s
            (parse_workflow_annotation line folder))
  annotation_line-Completes step_id line folder s k =
      let (r, parsed) = parse_workflow_annotation_total line folder in
      subst (λ o. Completes (annotation_line p load matcher_path step_id line s o)) (sym parsed)
        (read_line-Completes step_id line s r k)

  removal_line-Completes :
      (step_id line : Text) (s : WorkflowCommandProcessor Regex)
      (r : Result CommandError (Option ProblemMatcherRemoval))
      → IsProcessor s
      → Completes (removal_line p load matcher_path step_id line s (of_command r))
  removal_line-Completes step_id line s (err e) k = (k, refl)
  removal_line-Completes step_id line s (ok (some (owner_removal owner))) k =
      suppressed-Completes _
        (set_matchers-Completes s _ (remove_owner-IsRegistry p load _ owner _ k.matchers_good) k)
  removal_line-Completes step_id line s (ok (some (file_removal path))) k =
      suppressed-Completes _
        (set_matchers-Completes s _ (remove_from_file-IsRegistry p load _ path _ k.matchers_good) k)
  removal_line-Completes step_id line s (ok none) k = annotation_line-Completes step_id line _ s k

  add_matcher_line-Completes :
      (step_id line : Text) (s : WorkflowCommandProcessor Regex) (o : Option Text)
      → IsProcessor s
      → Completes (add_matcher_line p load matcher_path step_id line s o)
  add_matcher_line-Completes step_id line s (some path) k =
      suppressed-Completes _
        (set_matchers-Completes s _ (add_from_file-IsRegistry p load _ _ _ k.matchers_good) k)
  add_matcher_line-Completes step_id line s none k = removal_line-Completes step_id line s _ k

  stop_with-IsProcessor :
      (scope_id token : Text) (s : WorkflowCommandProcessor Regex)
      → IsProcessor s
      → IsProcessor (stop_with p load matcher_path scope_id token s)
  stop_with-IsProcessor scope_id [] s k = k
  stop_with-IsProcessor scope_id (c ∷ token) s k =
      set_stop_token-IsProcessor scope_id (some (c ∷ token)) s k

  stop_commands_line-Completes :
      (step_id line : Text) (s : WorkflowCommandProcessor Regex) (o : Option Text)
      → IsProcessor s
      → Completes (stop_commands_line p load matcher_path step_id line s o)
  stop_commands_line-Completes step_id line s (some token) k = (
    stop_with-IsProcessor (workflow_command_scope step_id) (decode_workflow_command_data token) s k,
    refl,
  )
  stop_commands_line-Completes step_id line s none k = add_matcher_line-Completes step_id line s _ k

  add_mask_line-Completes :
      (step_id line : Text) (s : WorkflowCommandProcessor Regex) (o : Option Text)
      → IsProcessor s
      → Completes (add_mask_line p load matcher_path step_id line s o)
  add_mask_line-Completes step_id line s (some value) k = suppressed-Completes _ (
      register_scope_mask-Completes (workflow_command_scope step_id)
        (decode_workflow_command_data value) s k)
  add_mask_line-Completes step_id line s none k = stop_commands_line-Completes step_id line s _ k

  stopped_line-Completes :
      (step_id line : Text) (s : WorkflowCommandProcessor Regex) (o : Option Text)
      → IsProcessor s
      → Completes (stopped_line p load matcher_path step_id line s o)
  stopped_line-Completes step_id line s (some token) k =
      elim (Bool-cases (line == stop_line p load matcher_path token)) [
        | inl last ↦ rw (last, stopped_line) (set_stop_token-IsProcessor _ none s k, refl)
        | inr other ↦ rw (other, stopped_line) (k, refl)
      ]
  stopped_line-Completes step_id line s none k = add_mask_line-Completes step_id line s _ k

  -- Whatever a line of a well-formed processor is, it is processed without a panic, and leaves the
  -- processor well-formed, also where it is refused.
  pub process_line-Completes :
      (step_id line : Text) (s : WorkflowCommandProcessor Regex)
      → IsProcessor s
      → Completes (process_line p load matcher_path step_id line s)
  unfolding process_line
  process_line-Completes step_id line s k =
      stopped_line-Completes step_id line s (stop_token_of p load matcher_path step_id s) k
