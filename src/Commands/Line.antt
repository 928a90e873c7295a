-- ===== src/Commands/Line.antt =====
-- `WorkflowCommandProcessor::process_line` of crates/gitzero-agent/src/executor.rs, from the last
-- command it looks for to the first. The processor afterwards comes with the result in any case.
use gitzero.Commands.Annotation.{parse_workflow_annotation, annotation_log_line}
use gitzero.Matcher.Scan.{scan}
use gitzero.Commands.Legacy.{record_legacy_value}
use gitzero.Protocol.{CheckAnnotation}
use gitzero.Matcher.Registry.{
  workspace, remove_from_file, remove_owner, ProblemMatcherRegistry, add_from_file,
}
use gitzero.Prelude.Map.{get}
use gitzero.Commands.State.{
  bad_command, bad_matcher, panicked, record_annotation, register_scope_mask, scope_of,
  set_stop_token, WorkflowCommandProcessor, ProcessError,
}
use gitzero.Commands.Syntax.{
  file_removal, parse_named_workflow_command, parse_remove_matcher_command,
  decode_workflow_command_data, owner_removal, ProblemMatcherRemoval,
  strip_prefix_ignore_ascii_case, workflow_command_scope, CommandError,
}
use gitzero.Matcher.Patterns.{ProblemMatcherConfig, MatcherError, Regexes}
use gitzero.Prelude.Result.{err, ok, Result}
use gitzero.Prelude.{
  List, Option, Text, [], codes, false, if◌then◌else◌, nat_key, none, some, text_key, true, ◌++◌,
  ◌==◌, ◌∷◌,
}

pub data WorkflowLineDisposition : Type 0 where
  original suppress : WorkflowLineDisposition
  replaced : Text → WorkflowLineDisposition

abbrev pub of_command {ℓ} : {A : Type ℓ} → Result CommandError A → Result ProcessError A
of_command (ok a) = ok a
of_command (err e) = err (bad_command e)

abbrev pub of_matcher {ℓ} : {A : Type ℓ} → Result MatcherError A → Result ProcessError A
of_matcher (ok a) = ok a
of_matcher (err e) = err (bad_matcher e)

module _ {Regex Captures : Type 0} (p : Regexes Regex Captures)
    (load : Text → Text → Text → Result MatcherError (List ProblemMatcherConfig))
    (matcher_path : Option Text → Option Text → Option Text → Option Text) where
  abbrev pub Processed : Type 0 → Type 0
  Processed A = WorkflowCommandProcessor Regex × Result ProcessError A

  -- A command that is done is not shown.
  abbrev pub suppressed :
      WorkflowCommandProcessor Regex × Result ProcessError (Unit {0})
      → Processed WorkflowLineDisposition
  suppressed (s, err e) = (s, err e)
  suppressed (s, ok u) = (s, ok suppress)

  abbrev pub set_matchers :
      WorkflowCommandProcessor Regex
      → ProblemMatcherRegistry Regex × Result MatcherError (Unit {0})
      → WorkflowCommandProcessor Regex × Result ProcessError (Unit {0})
  set_matchers s (registry, r) = (record s { problem_matchers = registry }, of_matcher r)

  -- The log itself, which the problem matchers read.
  abbrev pub after_scan :
      Text
      → WorkflowCommandProcessor Regex
      → Option (ProblemMatcherRegistry Regex × Option CheckAnnotation)
      → Processed WorkflowLineDisposition
  after_scan step_id s none = (s, err panicked)
  after_scan step_id s (some (registry, none)) =
      (record s { problem_matchers = registry }, ok original)
  after_scan step_id s (some (registry, some annotation)) =
      (record_annotation step_id annotation (record s { problem_matchers = registry }), ok original)

  abbrev pub save_state_line :
      Text
      → Text
      → WorkflowCommandProcessor Regex
      → Result ProcessError (Option (Text × Text))
      → Processed WorkflowLineDisposition
  save_state_line step_id line s (err e) = (s, err e)
  save_state_line step_id line s (ok (some (name, value))) =
      suppressed (record_legacy_value step_id name value true s)
  save_state_line step_id line s (ok none) =
      after_scan step_id s
        (scan p matcher_path (workflow_command_scope step_id) line s.problem_matchers)

  abbrev pub set_output_line :
      Text
      → Text
      → WorkflowCommandProcessor Regex
      → Result ProcessError (Option (Text × Text))
      → Processed WorkflowLineDisposition
  set_output_line step_id line s (err e) = (s, err e)
  set_output_line step_id line s (ok (some (name, value))) =
      suppressed (record_legacy_value step_id name value false s)
  set_output_line step_id line s (ok none) =
      save_state_line step_id line s
        (of_command (parse_named_workflow_command line (codes "save-state")))

  abbrev pub annotation_line :
      Text
      → Text
      → WorkflowCommandProcessor Regex
      → Option (Result CommandError (Option CheckAnnotation))
      → Processed WorkflowLineDisposition
  annotation_line step_id line s none = (s, err panicked)
  annotation_line step_id line s (some (err e)) = (s, err (bad_command e))
  annotation_line step_id line s (some (ok (some annotation))) =
      (record_annotation step_id annotation s, ok (replaced (annotation_log_line annotation)))
  annotation_line step_id line s (some (ok none)) =
      set_output_line step_id line s
        (of_command (parse_named_workflow_command line (codes "set-output")))

  abbrev pub removal_line :
      Text
      → Text
      → WorkflowCommandProcessor Regex
      → Result ProcessError (Option ProblemMatcherRemoval)
      → Processed WorkflowLineDisposition
  removal_line step_id line s (err e) = (s, err e)
  removal_line step_id line s (ok (some (owner_removal owner))) = suppressed (
      set_matchers s
        (remove_owner p load (workflow_command_scope step_id) owner s.problem_matchers))
  removal_line step_id line s (ok (some (file_removal path))) = suppressed (
      set_matchers s
        (remove_from_file p load (workflow_command_scope step_id) path s.problem_matchers))
  removal_line step_id line s (ok none) = annotation_line step_id line s (
      parse_workflow_annotation line
        (workspace p (workflow_command_scope step_id) s.problem_matchers))

  abbrev pub add_matcher_line :
      Text → Text → WorkflowCommandProcessor Regex → Option Text → Processed WorkflowLineDisposition
  add_matcher_line step_id line s (some path) = suppressed (
      set_matchers s (
        add_from_file p load (workflow_command_scope step_id) (decode_workflow_command_data path)
          s.problem_matchers))
  add_matcher_line step_id line s none =
      removal_line step_id line s (of_command (parse_remove_matcher_command line))

  abbrev pub stop_with :
      Text → Text → WorkflowCommandProcessor Regex → WorkflowCommandProcessor Regex
  stop_with scope_id [] s = s
  stop_with scope_id (c ∷ token) s = set_stop_token scope_id (some (c ∷ token)) s

  abbrev pub stop_commands_line :
      Text → Text → WorkflowCommandProcessor Regex → Option Text → Processed WorkflowLineDisposition
  stop_commands_line step_id line s (some token) = (
    stop_with (workflow_command_scope step_id) (decode_workflow_command_data token) s,
    ok suppress,
  )
  stop_commands_line step_id line s none =
      add_matcher_line step_id line s
        (strip_prefix_ignore_ascii_case line (codes "::add-matcher::"))

  abbrev pub add_mask_line :
      Text → Text → WorkflowCommandProcessor Regex → Option Text → Processed WorkflowLineDisposition
  add_mask_line step_id line s (some value) =
      suppressed (
        register_scope_mask (workflow_command_scope step_id) (decode_workflow_command_data value) s)
  add_mask_line step_id line s none =
      stop_commands_line step_id line s
        (strip_prefix_ignore_ascii_case line (codes "::stop-commands::"))

  abbrev pub stop_line : Text → Text
  stop_line token = codes "::" ++ token ++ codes "::"

  -- While commands are stopped, only the line that resumes them is one.
  abbrev pub stopped_line :
      Text → Text → WorkflowCommandProcessor Regex → Option Text → Processed WorkflowLineDisposition
  stopped_line step_id line s (some token) =
      if line == stop_line token
      then (set_stop_token (workflow_command_scope step_id) none s, ok suppress)
      else (s, ok original)
  stopped_line step_id line s none =
      add_mask_line step_id line s (strip_prefix_ignore_ascii_case line (codes "::add-mask::"))

  abbrev pub stop_token_of : Text → WorkflowCommandProcessor Regex → Option Text
  stop_token_of step_id s = (scope_of (workflow_command_scope step_id) s).stop_token

  unfoldable pub process_line :
      Text → Text → WorkflowCommandProcessor Regex → Processed WorkflowLineDisposition
  unfolding get strip_prefix_ignore_ascii_case workflow_command_scope set_stop_token
      register_scope_mask decode_workflow_command_data add_from_file parse_remove_matcher_command
      remove_owner remove_from_file parse_workflow_annotation workspace record_annotation
      annotation_log_line parse_named_workflow_command record_legacy_value scan
  process_line step_id line s = stopped_line step_id line s (stop_token_of step_id s)
