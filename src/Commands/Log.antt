-- ===== src/Commands/Log.antt =====
-- What `WorkflowCommandProcessor` makes of the chunks of a log, and the masking
-- (crates/gitzero-agent/src/executor.rs).
use gitzero.Matcher.Registry.{register_workspace}
use gitzero.Matcher.Scan.{reset_scope}
use gitzero.Prelude.Utf8.{byte_len}
use gitzero.Commands.Masks.{max_mask_bytes}
use gitzero.Commands.Annotation.{is_annotation_workflow_command}
use gitzero.Protocol.{LogStream}
use gitzero.Commands.Syntax.{
  is_problem_matcher_workflow_command, strip_prefix_ignore_ascii_case, begins_ignoring_case,
  workflow_command_scope,
}
use gitzero.Prelude.Map.{insert, Map, get, remove}
use gitzero.Prelude.Split.{filter, trim_end, split_lines}
use gitzero.Commands.State.{
  command_over_limit, log_stream_key, max_log_chunk_bytes, ProcessError, set_scope,
  WorkflowCommandProcessor,
}
use gitzero.Prelude.Strings.{ends_with}
use gitzero.Prelude.Result.{err, ok, Result}
use gitzero.Matcher.Patterns.{ProblemMatcherConfig, MatcherError, Regexes}
use gitzero.Commands.Line.{
  stop_token_of, process_line, stop_line, suppress, original, replaced, WorkflowLineDisposition,
}
use gitzero.Prelude.{
  pair_key, Bool, List, Option, Text, [], codes, if◌then◌else◌, leb, ltb, nat_beq, nat_key, none,
  not, some, text_key, ℕ, ◌&&◌, ◌++◌, ◌==◌, ◌||◌, ◌∷◌,
}

abbrev pub is_line_end : ℕ → Bool
is_line_end c = nat_beq c b'\r' || nat_beq c b'\n'

-- What a line shows of its segment, which may end in a line feed.
abbrev pub visible : Text → WorkflowLineDisposition → Text
visible segment original = segment
visible segment suppress = []
visible segment (replaced replacement) =
    replacement ++ (if ends_with segment (codes "\n") then codes "\n" else [])

module _ {Regex Captures : Type 0} (p : Regexes Regex Captures)
    (load : Text → Text → Text → Result MatcherError (List ProblemMatcherConfig))
    (matcher_path : Option Text → Option Text → Option Text → Option Text) where
  abbrev pub prepend :
      Text
      → WorkflowCommandProcessor Regex × Result ProcessError Text
      → WorkflowCommandProcessor Regex × Result ProcessError Text
  prepend shown (s, err e) = (s, err e)
  prepend shown (s, ok rest) = (s, ok (shown ++ rest))

  -- The lines after one that was processed.
  abbrev pub after_line :
      Text
      → (WorkflowCommandProcessor Regex → WorkflowCommandProcessor Regex × Result ProcessError Text)
      → WorkflowCommandProcessor Regex × Result ProcessError WorkflowLineDisposition
      → WorkflowCommandProcessor Regex × Result ProcessError Text
  after_line segment next (s, err e) = (s, err e)
  after_line segment next (s, ok disposition) = prepend (visible segment disposition) (next s)

  unfoldable pub process_segments :
      Text
      → List Text
      → WorkflowCommandProcessor Regex
      → WorkflowCommandProcessor Regex × Result ProcessError Text
  unfolding process_line trim_end ends_with
  process_segments step_id [] s = (s, ok [])
  process_segments step_id (segment ∷ segments) s =
      after_line segment (process_segments step_id segments)
        (process_line p load matcher_path step_id (trim_end is_line_end segment) s)

  -- The data that is left to be shown is the result.
  unfoldable pub process_complete_log :
      Text
      → Text
      → WorkflowCommandProcessor Regex
      → WorkflowCommandProcessor Regex × Result ProcessError Text
  unfolding process_segments split_lines
  process_complete_log step_id data' s = process_segments step_id (split_lines data') s

  -- What a stopped log lets through, or a log that is not.
  abbrev pub is_command_of : Option Text → Text → Bool
  is_command_of (some token) line = line == stop_line p load matcher_path token
  is_command_of none line =
      begins_ignoring_case line (codes "::add-mask::")
      || begins_ignoring_case line (codes "::stop-commands::")
      || begins_ignoring_case line (codes "::set-output ")
      || begins_ignoring_case line (codes "::save-state ")
      || is_annotation_workflow_command line
      || is_problem_matcher_workflow_command line

  unfoldable pub is_suppressible_command : Text → Text → WorkflowCommandProcessor Regex → Bool
  unfolding get workflow_command_scope strip_prefix_ignore_ascii_case is_annotation_workflow_command
      is_problem_matcher_workflow_command
  is_suppressible_command step_id line s =
      is_command_of (stop_token_of p load matcher_path step_id s) line

  abbrev pub set_partials :
      Map (Text × ℕ) Text → WorkflowCommandProcessor Regex → WorkflowCommandProcessor Regex
  set_partials partials s = record s { partial_commands = partials }

  -- A chunk that follows a command without its end.
  abbrev pub continue_partial :
      Text
      → Text × ℕ
      → Text
      → Text
      → WorkflowCommandProcessor Regex
      → WorkflowCommandProcessor Regex × Result ProcessError Text
  continue_partial step_id key data' whole s =
      if ltb max_mask_bytes (byte_len whole)
      then (set_partials (insert key whole s.partial_commands) s, err command_over_limit)
      else if ends_with data' (codes "\n") || ltb (byte_len data') max_log_chunk_bytes
      then process_complete_log step_id whole (set_partials (remove key s.partial_commands) s)
      else (set_partials (insert key whole s.partial_commands) s, ok [])

  abbrev pub start_chunk :
      Text
      → Text × ℕ
      → Text
      → WorkflowCommandProcessor Regex
      → WorkflowCommandProcessor Regex × Result ProcessError Text
  start_chunk step_id key data' s =
      if leb max_log_chunk_bytes (byte_len data')
        && not (ends_with data' (codes "\n"))
        && is_suppressible_command step_id (trim_end is_line_end data') s
      then (set_partials (insert key data' s.partial_commands) s, ok [])
      else process_complete_log step_id data' s

  unfoldable pub process_log :
      Text
      → LogStream
      → Text
      → WorkflowCommandProcessor Regex
      → WorkflowCommandProcessor Regex × Result ProcessError Text
  unfolding get insert remove process_complete_log is_suppressible_command ends_with trim_end
  process_log step_id stream data' s =
      let key : Text × ℕ = (step_id, log_stream_key stream) in
      elim (get key s.partial_commands) [
        | none ↦ start_chunk step_id key data' s
        | some partial ↦ continue_partial step_id key data' (partial ++ data') s
      ]

  abbrev pub forget {ℓ} :
      {A : Type ℓ}
      → WorkflowCommandProcessor Regex × Result ProcessError A
      → WorkflowCommandProcessor Regex × Result ProcessError (Unit {0})
  forget (s, err e) = (s, err e)
  forget (s, ok a) = (s, ok tt)

  -- `and_then` on what has a state in any case.
  abbrev pub then_do :
      WorkflowCommandProcessor Regex × Result ProcessError (Unit {0})
      → (WorkflowCommandProcessor Regex
          → WorkflowCommandProcessor Regex × Result ProcessError (Unit {0}))
      → WorkflowCommandProcessor Regex × Result ProcessError (Unit {0})
  then_do (s, err e) next = (s, err e)
  then_do (s, ok u) next = next s

  -- The commands without their ends, one after another, removed and processed.
  unfoldable pub finish_partials :
      Text
      → Map (Text × ℕ) Text
      → WorkflowCommandProcessor Regex
      → WorkflowCommandProcessor Regex × Result ProcessError (Unit {0})
  unfolding remove process_complete_log
  finish_partials step_id [] s = (s, ok tt)
  finish_partials step_id ((key, complete) ∷ rest) s =
      then_do
        (forget
          (process_complete_log step_id complete (set_partials (remove key s.partial_commands) s)))
        (finish_partials step_id rest)

  abbrev pub resume : Text → WorkflowCommandProcessor Regex → WorkflowCommandProcessor Regex
  resume scope_id s = elim (get scope_id s.scopes) [
    | none ↦ s
    | some scope ↦ set_scope scope_id (record scope { stop_token = none }) s
  ]

  abbrev pub partials_of : Text → WorkflowCommandProcessor Regex → Map (Text × ℕ) Text
  partials_of step_id s = filter (λ e. e.0.0 == step_id) s.partial_commands

  -- What is reset of a step once its commands are processed.
  abbrev pub close_step :
      Text
      → WorkflowCommandProcessor Regex
      → WorkflowCommandProcessor Regex × Result ProcessError (Unit {0})
  close_step step_id s =
      let resumed = resume (workflow_command_scope step_id) s in
      (
        record resumed {
          problem_matchers =
              reset_scope p matcher_path (workflow_command_scope step_id) resumed.problem_matchers;
          legacy_values = remove step_id resumed.legacy_values;
        },
        ok tt,
      )

  unfoldable pub finish_step :
      Text
      → WorkflowCommandProcessor Regex
      → WorkflowCommandProcessor Regex × Result ProcessError (Unit {0})
  unfolding finish_partials get insert filter remove workflow_command_scope reset_scope
  finish_step step_id s =
      then_do (finish_partials step_id (partials_of step_id s) s) (close_step step_id)

  unfoldable pub finish_stream :
      Text
      → LogStream
      → WorkflowCommandProcessor Regex
      → WorkflowCommandProcessor Regex × Result ProcessError (Unit {0})
  unfolding get remove process_complete_log
  finish_stream step_id stream s =
      let key : Text × ℕ = (step_id, log_stream_key stream) in
      elim (get key s.partial_commands) [
        | none ↦ (s, ok tt)
        | some complete ↦
            forget (
              process_complete_log step_id complete
                (set_partials (remove key s.partial_commands) s))
      ]

  unfoldable pub register_step_workspace :
      Text → Text → WorkflowCommandProcessor Regex → WorkflowCommandProcessor Regex
  unfolding register_workspace
  register_step_workspace scope folder s = record s {
    problem_matchers = register_workspace p scope folder s.problem_matchers;
  }
