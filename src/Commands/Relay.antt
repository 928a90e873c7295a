-- ===== src/Commands/Relay.antt =====
-- `relay_masked_events`, one message at a time, `prepare_workflow_log` and the masking of what is
-- sent (crates/gitzero-agent/src/executor.rs).
use gitzero.Commands.Log.{finish_step, process_log}
use gitzero.Protocol.{
  other_message, other_message, job_rejected, step_finished, step_started, system, log_chunk,
  stderr, job_finished, stdout, AgentMessage, LogStream, CheckAnnotation,
}
use gitzero.Commands.Syntax.{workflow_command_scope}
use gitzero.Prelude.Result.{err, ok, Result}
use gitzero.Commands.Annotation.{bound_masked_annotation}
use gitzero.Prelude.Map.{Map, get}
use gitzero.Matcher.Patterns.{ProblemMatcherConfig, MatcherError, Regexes}
use gitzero.Prelude.Strings.{contains_text}
use gitzero.Commands.Masks.{WorkflowCommandScope, mask_text}
use gitzero.Commands.State.{
  take_annotations, fail, ProcessError, ensure_healthy, take_preprocessed_log, scope_of,
  WorkflowCommandProcessor,
}
use gitzero.Prelude.{
  Bool, List, Option, Text, [], any, false, if◌then◌else◌, map, nat_key, none, not, some, text_key,
  true, ◌&&◌, ◌||◌, ◌∷◌,
}

-- The masks of all scopes, in the order of their names.
unfoldable pub mask_scopes : Text → Map Text WorkflowCommandScope → Text
unfolding mask_text
mask_scopes value [] = value
mask_scopes value ((scope_id, scope) ∷ scopes) = mask_scopes (mask_text value scope.masks) scopes

module _ {Regex : Type 0} where
  abbrev pub masks_of : Text → WorkflowCommandProcessor Regex → List Text
  masks_of step_id s = (scope_of (workflow_command_scope step_id) s).masks

  unfoldable pub mask_for_step : Text → Text → WorkflowCommandProcessor Regex → Text
  unfolding mask_text get workflow_command_scope
  mask_for_step step_id value s = mask_text (mask_text value s.global_masks) (masks_of step_id s)

  unfoldable pub mask_all : Text → WorkflowCommandProcessor Regex → Text
  unfolding mask_text mask_scopes
  mask_all value s = mask_scopes (mask_text value s.global_masks) s.scopes

  unfoldable pub value_is_masked_for_step : Text → Text → WorkflowCommandProcessor Regex → Bool
  unfolding contains_text get workflow_command_scope
  value_is_masked_for_step step_id value s =
      any (contains_text value) s.global_masks || any (contains_text value) (masks_of step_id s)

  -- The text of a finished job under the secrets of the run and all masks.
  abbrev pub mask_finished : List Text → WorkflowCommandProcessor Regex → Text → Text
  mask_finished secrets s value = mask_all (mask_text value secrets) s

  abbrev pub mask_title : List Text → WorkflowCommandProcessor Regex → Option Text → Option Text
  mask_title secrets s none = none
  mask_title secrets s (some title) = some (mask_finished secrets s title)

  unfoldable pub mask_annotation :
      List Text → WorkflowCommandProcessor Regex → CheckAnnotation → CheckAnnotation
  unfolding mask_text mask_all bound_masked_annotation
  mask_annotation secrets s annotation = bound_masked_annotation (record annotation {
    path = mask_finished secrets s annotation.path;
    message = mask_finished secrets s annotation.message;
    title = mask_title secrets s annotation.title;
  })

module _ {Regex Captures : Type 0} (p : Regexes Regex Captures)
    (load : Text → Text → Text → Result MatcherError (List ProblemMatcherConfig))
    (matcher_path : Option Text → Option Text → Option Text → Option Text) where
  -- A message to be sent, or none where the relay goes on with the next one.
  abbrev pub Relayed : Type 0
  Relayed = WorkflowCommandProcessor Regex × Result ProcessError (Option AgentMessage)

  -- The data that is left of a chunk, masked.
  abbrev pub send_log :
      List Text
      → Text
      → Text
      → LogStream
      → WorkflowCommandProcessor Regex × Result ProcessError Text
      → Relayed
  send_log secrets message_id step_id stream (s, err e) = (s, err e)
  send_log secrets message_id step_id stream (s, ok []) = (s, ok none)
  send_log secrets message_id step_id stream (s, ok (c ∷ data')) = (
    s,
    ok (
        some (
          log_chunk message_id step_id stream
            (mask_for_step step_id (mask_text (c ∷ data') secrets) s))),
  )

  abbrev pub is_output : LogStream → Bool
  is_output stdout = true
  is_output stderr = true
  is_output system = false

  abbrev pub relay_log :
      List Text → Text → Text → LogStream → Text → WorkflowCommandProcessor Regex × Bool → Relayed
  relay_log secrets message_id step_id stream data' (s, preprocessed) =
      send_log secrets message_id step_id stream (
        if not preprocessed && is_output stream
        then process_log p load matcher_path step_id stream data' s
        else (s, ok data'))

  abbrev pub send_finished :
      AgentMessage → WorkflowCommandProcessor Regex × Result ProcessError (Unit {0}) → Relayed
  send_finished message (s, err e) = (s, err e)
  send_finished message (s, ok u) = (s, ok (some message))

  abbrev pub send_job :
      List Text → Text → WorkflowCommandProcessor Regex × List CheckAnnotation → Relayed
  send_job secrets summary (s, annotations) = (
    s,
    ok (
        some (
          job_finished (mask_finished secrets s summary)
            (map (mask_annotation secrets s) annotations))),
  )

  -- The message of a healthy processor.
  unfoldable pub relay_healthy : List Text → AgentMessage → WorkflowCommandProcessor Regex → Relayed
  unfolding mask_text mask_for_step take_preprocessed_log process_log finish_step mask_all
      take_annotations mask_annotation
  relay_healthy secrets (step_started step_id name) s =
      (s, ok (some (step_started step_id (mask_for_step step_id (mask_text name secrets) s))))
  relay_healthy secrets (log_chunk message_id step_id stream data') s =
      relay_log secrets message_id step_id stream data' (take_preprocessed_log message_id s)
  relay_healthy secrets (step_finished step_id) s =
      send_finished (step_finished step_id) (finish_step p load matcher_path step_id s)
  relay_healthy secrets (job_finished summary annotations) s =
      send_job secrets summary (take_annotations s)
  relay_healthy secrets (job_rejected reason) s =
      (s, ok (some (job_rejected (mask_finished secrets s reason))))
  relay_healthy secrets (other_message text) s = (s, ok (some (other_message text)))

  abbrev pub when_healthy :
      List Text
      → AgentMessage
      → WorkflowCommandProcessor Regex
      → Result ProcessError (Unit {0})
      → Relayed
  when_healthy secrets message s (err e) = (s, err e)
  when_healthy secrets message s (ok healthy) = relay_healthy secrets message s

  unfoldable pub relay_message : List Text → AgentMessage → WorkflowCommandProcessor Regex → Relayed
  unfolding ensure_healthy relay_healthy
  relay_message secrets message s = when_healthy secrets message s (ensure_healthy s)

  -- A chunk before it is sent: what is left of it, or none after an error. The parameter is the
  -- message of an error.
  abbrev pub prepared :
      (ProcessError → Text)
      → Text
      → WorkflowCommandProcessor Regex × Result ProcessError Text
      → WorkflowCommandProcessor Regex × Option Text
  prepared message step_id (s, err e) = (fail (message e) s, none)
  prepared message step_id (s, ok data') = (s, some (mask_for_step step_id data' s))

  unfoldable pub prepare_workflow_log :
      (ProcessError → Text)
      → Text
      → LogStream
      → Text
      → WorkflowCommandProcessor Regex
      → WorkflowCommandProcessor Regex × Option Text
  unfolding process_log fail mask_for_step
  prepare_workflow_log message step_id stream data' s =
      prepared message step_id (process_log p load matcher_path step_id stream data' s)

  -- Where the relay stands: the processor, what was sent, and what stopped it.
  abbrev pub Sent : Type 0
  Sent = WorkflowCommandProcessor Regex × List AgentMessage × Result ProcessError (Unit {0})

  abbrev pub also_sent : AgentMessage → Sent → Sent
  also_sent message (s, sent, r) = (s, message ∷ sent, r)

  abbrev pub then_relay : Relayed → (WorkflowCommandProcessor Regex → Sent) → Sent
  then_relay (s, err e) next = (s, [], err e)
  then_relay (s, ok none) next = next s
  then_relay (s, ok (some message)) next = also_sent message (next s)

  -- The messages until the channel is closed, while what is sent is taken.
  unfoldable pub relay_masked_events :
      List Text → List AgentMessage → WorkflowCommandProcessor Regex → Sent
  unfolding relay_message
  relay_masked_events secrets [] s = (s, [], ok tt)
  relay_masked_events secrets (message ∷ messages) s =
      then_relay (relay_message secrets message s) (relay_masked_events secrets messages)
