-- ===== src/Commands/LogSound.antt =====
-- What processing the chunks of a log keeps (crates/gitzero-agent/src/executor.rs).
use gitzero.Commands.MaskLists.{IsScope}
use gitzero.Prelude.Strings.{ends_with}
use gitzero.Prelude.Utf8.{byte_len}
use gitzero.Matcher.Steps.{reset_scope-IsRegistry}
use gitzero.Commands.Masks.{max_mask_bytes}
use gitzero.Commands.Syntax.{workflow_command_scope}
use gitzero.Prelude.Split.{trim_end, split_lines}
use gitzero.Commands.LineSound.{process_line-Completes}
use gitzero.Commands.Line.{WorkflowLineDisposition}
use gitzero.Protocol.{LogStream}
use gitzero.Commands.Bounded.{stop_token-IsScope, set_scope-IsProcessor, Completes, IsProcessor}
use gitzero.Prelude.Map.{remove, get-All, get-All, get, Map}
use gitzero.Commands.Log.{
  is_line_end, close_step, is_suppressible_command, partials_of, visible, after_line,
  continue_partial, forget, prepend, start_chunk, then_do, resume, set_partials, finish_partials,
  finish_step, finish_stream, process_complete_log, process_log, process_segments,
}
use gitzero.Commands.State.{
  max_log_chunk_bytes, log_stream_key, ProcessError, WorkflowCommandProcessor,
}
use gitzero.Prelude.Result.{err, ok, Result}
use gitzero.Matcher.Patterns.{ProblemMatcherConfig, MatcherError, Regexes}
use gitzero.Prelude.Strings.{ends_with}
use gitzero.Prelude.{
  pair_key, Bool-cases, List, Option, Option-cases, Text, [], codes, inl, inr, leb, ltb, nat_key,
  none, not, refl, text_key, ℕ, ◌&&◌, ◌++◌, ◌||◌, ◌∷◌,
}

module _ {Regex Captures : Type 0} (p : Regexes Regex Captures)
    (load : Text → Text → Text → Result MatcherError (List ProblemMatcherConfig))
    (matcher_path : Option Text → Option Text → Option Text → Option Text) where
  prepend-Completes :
      (shown : Text) (r : WorkflowCommandProcessor Regex × Result ProcessError Text)
      → Completes r
      → Completes (prepend p load matcher_path shown r)
  prepend-Completes shown (s, ok rest) k = k
  prepend-Completes shown (s, err e) k = (k.0, k.1)

  after_line-Completes :
      (segment : Text)
      (next : WorkflowCommandProcessor Regex
        → WorkflowCommandProcessor Regex × Result ProcessError Text)
      (r : WorkflowCommandProcessor Regex × Result ProcessError WorkflowLineDisposition)
      → Completes r
      → ((s : WorkflowCommandProcessor Regex) → IsProcessor s → Completes (next s))
      → Completes (after_line p load matcher_path segment next r)
  after_line-Completes segment next (s, ok disposition) k later =
      prepend-Completes (visible segment disposition) (next s) (later s k.0)
  after_line-Completes segment next (s, err e) k later = (k.0, k.1)

  process_segments-Completes :
      (step_id : Text) (segments : List Text) (s : WorkflowCommandProcessor Regex)
      → IsProcessor s
      → Completes (process_segments p load matcher_path step_id segments s)
  unfolding process_segments
  process_segments-Completes step_id [] s k = (k, refl)
  process_segments-Completes step_id (segment ∷ segments) s k =
      after_line-Completes segment (process_segments p load matcher_path step_id segments) _
        (process_line-Completes p load matcher_path step_id _ s k)
        (process_segments-Completes step_id segments)

  pub process_complete_log-Completes :
      (step_id data' : Text) (s : WorkflowCommandProcessor Regex)
      → IsProcessor s
      → Completes (process_complete_log p load matcher_path step_id data' s)
  unfolding process_complete_log
  process_complete_log-Completes step_id data' s k =
      process_segments-Completes step_id (split_lines data') s k

  set_partials-IsProcessor :
      (partials : Map (Text × ℕ) Text) (s : WorkflowCommandProcessor Regex)
      → IsProcessor s
      → IsProcessor (set_partials p load matcher_path partials s)
  set_partials-IsProcessor partials s k = record {
    masks_full = k.masks_full;
    scopes_good = k.scopes_good;
    annotations_capped = k.annotations_capped;
    counts_capped = k.counts_capped;
    matchers_good = k.matchers_good;
  }

  continue_partial-Completes :
      (step_id : Text) (key : Text × ℕ) (data' whole : Text) (s : WorkflowCommandProcessor Regex)
      → IsProcessor s
      → Completes (continue_partial p load matcher_path step_id key data' whole s)
  continue_partial-Completes step_id key data' whole s k =
      elim (Bool-cases (ltb max_mask_bytes (byte_len whole))) [
        | inl over ↦ rw (over, continue_partial) (set_partials-IsProcessor _ s k, refl)
        | inr within ↦
            elim (Bool-cases
              (ends_with data' (codes "\n") || ltb (byte_len data') max_log_chunk_bytes)) [
                | inl complete ↦
                    rw (within, complete, continue_partial)
                      (process_complete_log-Completes step_id whole _
                        (set_partials-IsProcessor (remove key s.partial_commands) s k))
                | inr partial ↦
                    rw (within, partial, continue_partial) (set_partials-IsProcessor _ s k, refl)
              ]
      ]

  start_chunk-Completes :
      (step_id : Text) (key : Text × ℕ) (data' : Text) (s : WorkflowCommandProcessor Regex)
      → IsProcessor s
      → Completes (start_chunk p load matcher_path step_id key data' s)
  start_chunk-Completes step_id key data' s k =
      elim (Bool-cases (
        leb max_log_chunk_bytes (byte_len data')
        && not (ends_with data' (codes "\n"))
        && is_suppressible_command p load matcher_path step_id (trim_end is_line_end data') s)) [
          | inl held ↦ rw (held, start_chunk) (set_partials-IsProcessor _ s k, refl)
          | inr shown ↦ rw (shown, start_chunk) (process_complete_log-Completes step_id data' s k)
        ]

  pub process_log-Completes :
      (step_id : Text) (stream : LogStream) (data' : Text) (s : WorkflowCommandProcessor Regex)
      → IsProcessor s
      → Completes (process_log p load matcher_path step_id stream data' s)
  unfolding process_log
  process_log-Completes step_id stream data' s k =
      elim (Option-cases (get key s.partial_commands)) [
        | inl absent ↦ rw (absent, process_log) (start_chunk-Completes step_id key data' s k)
        | inr (partial, present) ↦
            rw (present, process_log)
              (continue_partial-Completes step_id key data' (partial ++ data') s k)
      ]
    where
      key : Text × ℕ
      key = (step_id, log_stream_key stream)

  forget-Completes :
      (r : WorkflowCommandProcessor Regex × Result ProcessError Text)
      → Completes r
      → Completes (forget p load matcher_path r)
  forget-Completes (s, ok data') k = k
  forget-Completes (s, err e) k = (k.0, k.1)

  then_do-Completes :
      (r : WorkflowCommandProcessor Regex × Result ProcessError (Unit {0}))
      (next : WorkflowCommandProcessor Regex
        → WorkflowCommandProcessor Regex × Result ProcessError (Unit {0}))
      → Completes r
      → ((s : WorkflowCommandProcessor Regex) → IsProcessor s → Completes (next s))
      → Completes (then_do p load matcher_path r next)
  then_do-Completes (s, ok u) next k later = later s k.0
  then_do-Completes (s, err e) next k later = k

  finish_partials-Completes :
      (step_id : Text) (partials : Map (Text × ℕ) Text) (s : WorkflowCommandProcessor Regex)
      → IsProcessor s
      → Completes (finish_partials p load matcher_path step_id partials s)
  unfolding finish_partials
  finish_partials-Completes step_id [] s k = (k, refl)
  finish_partials-Completes step_id ((key, complete) ∷ rest) s k =
      then_do-Completes _ (finish_partials p load matcher_path step_id rest)
        (forget-Completes _
          (process_complete_log-Completes step_id complete _ (set_partials-IsProcessor _ s k)))
        (finish_partials-Completes step_id rest)

  resume-IsProcessor :
      (scope_id : Text) (s : WorkflowCommandProcessor Regex)
      → IsProcessor s
      → IsProcessor (resume p load matcher_path scope_id s)
  resume-IsProcessor scope_id s k = elim (Option-cases (get scope_id s.scopes)) [
    | inl absent ↦ rw (absent, resume) k
    | inr (scope, present) ↦
        rw (present, resume)
          (set_scope-IsProcessor scope_id _ s
            (stop_token-IsScope scope none
              (get-All IsScope scope_id s.scopes scope present k.scopes_good))
            k)
  ]

  close_step-Completes :
      (step_id : Text) (s : WorkflowCommandProcessor Regex)
      → IsProcessor s
      → Completes (close_step p load matcher_path step_id s)
  close_step-Completes step_id s k =
      let r = resume-IsProcessor (workflow_command_scope step_id) s k in
      (
        record {
          masks_full = r.masks_full;
          scopes_good = r.scopes_good;
          annotations_capped = r.annotations_capped;
          counts_capped = r.counts_capped;
          matchers_good =
              reset_scope-IsRegistry p load matcher_path (workflow_command_scope step_id) _
                r.matchers_good;
        },
        refl,
      )

  pub finish_step-Completes :
      (step_id : Text) (s : WorkflowCommandProcessor Regex)
      → IsProcessor s
      → Completes (finish_step p load matcher_path step_id s)
  unfolding finish_step
  finish_step-Completes step_id s k =
      then_do-Completes (finish_partials p load matcher_path step_id partials s)
        (close_step p load matcher_path step_id) (finish_partials-Completes step_id partials s k)
        (close_step-Completes step_id)
    where
      partials : Map (Text × ℕ) Text
      partials = partials_of p load matcher_path step_id s

  pub finish_stream-Completes :
      (step_id : Text) (stream : LogStream) (s : WorkflowCommandProcessor Regex)
      → IsProcessor s
      → Completes (finish_stream p load matcher_path step_id stream s)
  unfolding finish_stream
  finish_stream-Completes step_id stream s k = elim (Option-cases (get key s.partial_commands)) [
    | inl absent ↦ rw (absent, finish_stream) (k, refl)
    | inr (complete, present) ↦
        rw (present, finish_stream)
          (forget-Completes _
            (process_complete_log-Completes step_id complete _ (set_partials-IsProcessor _ s k)))
  ]
    where
      key : Text × ℕ
      key = (step_id, log_stream_key stream)
