-- ===== src/Commands/Stopped.antt =====
-- Stopped workflow commands (crates/gitzero-agent/src/executor.rs).
use gitzero.Commands.Syntax.{workflow_command_scope}
use gitzero.Commands.State.{set_stop_token, WorkflowCommandProcessor}
use gitzero.Commands.Line.{
  suppress, WorkflowLineDisposition, Processed, stopped_line, original, stop_line, stop_token_of,
  process_line,
}
use gitzero.Commands.Log.{prepend, after_line, is_line_end, process_complete_log, process_segments}
use gitzero.Prelude.Split.{concat, concat-split_lines, split_lines, trim_end}
use gitzero.Prelude.Result.{ok, Result}
use gitzero.Matcher.Patterns.{ProblemMatcherConfig, MatcherError, Regexes}
use gitzero.Prelude.{
  &&-true, Bool, List, Option, Text, [], all, ap, false, if◌then◌else◌, nat_key, none, not, refl,
  some, text_key, true, ◌==◌, ◌∙◌, ◌∷◌, ◌≡◌,
}

module _ {Regex Captures : Type 0} (p : Regexes Regex Captures)
    (load : Text → Text → Text → Result MatcherError (List ProblemMatcherConfig))
    (matcher_path : Option Text → Option Text → Option Text → Option Text) where
  -- No line of a log is the one that resumes the commands.
  abbrev pub never_resumes : Text → List Text → Bool
  never_resumes token segments =
      all (λ segment. not (trim_end is_line_end segment == stop_line p load matcher_path token))
        segments

  stopped_segments :
      (step_id token : Text) (segments : List Text) (s : WorkflowCommandProcessor Regex)
      → stop_token_of p load matcher_path step_id s ≡ some token
      → never_resumes token segments ≡ true
      → process_segments p load matcher_path step_id segments s ≡ (s, ok (concat segments))
  unfolding process_segments process_line
  stopped_segments step_id token [] s stopped never = refl
  stopped_segments step_id token (segment ∷ segments) s stopped never =
      let (other, rest) = &&-true _ _ never in
      ap
        (after_line p load matcher_path segment
          (process_segments p load matcher_path step_id segments))
        (stopped_here other)
      ∙ ap (prepend p load matcher_path segment)
          (stopped_segments step_id token segments s stopped rest)
    where
      passed :
          (last : Bool)
          → not last ≡ true
          → ◌≡◌ {A = Processed p load matcher_path WorkflowLineDisposition}
              (if last
                then (set_stop_token (workflow_command_scope step_id) none s, ok suppress)
                else (s, ok original))
              (s, ok original)
      passed false h = refl
      passed true h = cc

      stopped_here :
          not (trim_end is_line_end segment == stop_line p load matcher_path token) ≡ true
          → process_line p load matcher_path step_id (trim_end is_line_end segment) s
            ≡ (s, ok original)
      stopped_here other =
          ap (stopped_line p load matcher_path step_id (trim_end is_line_end segment) s) stopped
          ∙ passed _ other

  -- While the commands of a scope are stopped, a log without the line that resumes them is shown as
  -- it is, whatever commands it has, and nothing of the processor changes.
  pub process_complete_log_stopped :
      (step_id token data' : Text) (s : WorkflowCommandProcessor Regex)
      → stop_token_of p load matcher_path step_id s ≡ some token
      → never_resumes token (split_lines data') ≡ true
      → process_complete_log p load matcher_path step_id data' s ≡ (s, ok data')
  unfolding process_complete_log
  process_complete_log_stopped step_id token data' s stopped never =
      stopped_segments step_id token (split_lines data') s stopped never
      ∙ ap (λ t. (s, ok t)) (concat-split_lines data')
