-- ===== src/Commands/Steps.antt =====
-- The operations of the workflow command processor as steps
-- (crates/gitzero-agent/src/executor.rs).
use gitzero.Commands.LogSound.{
  finish_step-Completes, finish_stream-Completes, process_log-Completes, process_log-Completes,
}
use gitzero.Matcher.Registry.{register_workspace}
use gitzero.Matcher.Active.{IsRegistry}
use gitzero.Prelude.Map.{get, Map}
use gitzero.Commands.MaskLists.{IsScope, none_empty}
use gitzero.Commands.Bounded.{
  set_matchers-IsProcessor, register_global_mask-IsProcessor, with_global_masks-IsProcessor,
  IsProcessor,
}
use gitzero.Protocol.{max_annotations, LogStream}
use gitzero.Commands.Log.{finish_step, finish_stream, process_log, register_step_workspace}
use gitzero.Commands.Legacy.{taken_outputs, taken_state, take_legacy_state, take_legacy_outputs}
use gitzero.Commands.State.{
  LegacyCommandValues, ensure_healthy, register_global_mask, take_annotations,
  take_preprocessed_log, mark_preprocessed_log, with_global_masks, WorkflowCommandProcessor, fail,
}
use gitzero.Prelude.Result.{ok-injective, >>=-eq-ok, ◌>>=◌, ok, Result}
use gitzero.Matcher.Patterns.{ProblemMatcherConfig, MatcherError, Regexes}
use gitzero.Prelude.{
  All, List, Option, Option-cases, Text, ap, arith, inl, inr, length, nat_key, none, refl, some,
  subst, text_key, true, ◌≡◌, ◌≤◌,
}

module _ {Regex Captures : Type 0} (p : Regexes Regex Captures)
    (load : Text → Text → Text → Result MatcherError (List ProblemMatcherConfig))
    (matcher_path : Option Text → Option Text → Option Text → Option Text) where
  -- Each operation that changes the processor, whether it succeeds or not.
  pub data ProcessorStep
      : WorkflowCommandProcessor Regex → WorkflowCommandProcessor Regex → Type 0 where
    log_processed :
        (step_id : Text) (stream : LogStream) (data' : Text) (s : WorkflowCommandProcessor Regex)
        → ProcessorStep s (process_log p load matcher_path step_id stream data' s).0
    stream_finished :
        (step_id : Text) (stream : LogStream) (s : WorkflowCommandProcessor Regex)
        → ProcessorStep s (finish_stream p load matcher_path step_id stream s).0
    step_completed :
        (step_id : Text) (s : WorkflowCommandProcessor Regex)
        → ProcessorStep s (finish_step p load matcher_path step_id s).0
    mask_registered :
        (value : Text) (s : WorkflowCommandProcessor Regex)
        → ProcessorStep s (register_global_mask value s)
    workspace_set :
        (scope folder : Text) (s : WorkflowCommandProcessor Regex)
        → ProcessorStep s (register_step_workspace p load matcher_path scope folder s)
    failed : (e : Text) (s : WorkflowCommandProcessor Regex) → ProcessorStep s (fail e s)
    log_marked :
        (message_id : Text) (s : WorkflowCommandProcessor Regex)
        → ProcessorStep s (mark_preprocessed_log message_id s)
    log_taken :
        (message_id : Text) (s : WorkflowCommandProcessor Regex)
        → ProcessorStep s (take_preprocessed_log message_id s).0
    annotations_taken :
        (s : WorkflowCommandProcessor Regex) → ProcessorStep s (take_annotations s).0
    outputs_taken :
        (step_id : Text) (s next : WorkflowCommandProcessor Regex) (outputs : Map Text Text)
        → take_legacy_outputs step_id s ≡ ok (next, outputs)
        → ProcessorStep s next
    state_taken :
        (step_id : Text) (s next : WorkflowCommandProcessor Regex) (state : Map Text Text)
        → take_legacy_state step_id s ≡ ok (next, state)
        → ProcessorStep s next

  pub data Runs (masks : List Text) (folder root : Text)
      : WorkflowCommandProcessor Regex → Type 0 where
    begun : Runs masks folder root (with_global_masks masks folder root)
    went :
        {s next : WorkflowCommandProcessor Regex}
        → Runs masks folder root s
        → ProcessorStep s next
        → Runs masks folder root next

  -- What holds of the processor does not depend on the values, the logs and the error.
  other_fields-IsProcessor :
      (s t : WorkflowCommandProcessor Regex)
      → s.global_masks ≡ t.global_masks
      → s.scopes ≡ t.scopes
      → s.annotations ≡ t.annotations
      → s.annotation_counts ≡ t.annotation_counts
      → s.problem_matchers ≡ t.problem_matchers
      → IsProcessor s
      → IsProcessor t
  other_fields-IsProcessor s t g c a n m k = record {
    masks_full = subst (λ masks. none_empty masks ≡ true) g k.masks_full;
    scopes_good = subst (All (λ e. IsScope e.1)) c k.scopes_good;
    annotations_capped =
        subst (λ annotations. length annotations ≤ max_annotations) a k.annotations_capped;
    counts_capped = subst (All (λ e. e.1 ≤ 10)) n k.counts_capped;
    matchers_good = subst IsRegistry m k.matchers_good;
  }

  fail-IsProcessor :
      (e : Text) (s : WorkflowCommandProcessor Regex) → IsProcessor s → IsProcessor (fail e s)
  unfolding fail
  fail-IsProcessor e s k = elim (Option-cases s.fatal_error) [
    | inl healthy ↦ rw (healthy, fail) (other_fields-IsProcessor s _ refl refl refl refl refl k)
    | inr (first, before) ↦ rw (before, fail) k
  ]

  taken_outputs-IsProcessor :
      (step_id : Text) (s : WorkflowCommandProcessor Regex) (o : Option LegacyCommandValues)
      → IsProcessor s
      → IsProcessor (taken_outputs step_id s o).0
  taken_outputs-IsProcessor step_id s none k = k
  taken_outputs-IsProcessor step_id s (some values) k =
      other_fields-IsProcessor s _ refl refl refl refl refl k

  taken_state-IsProcessor :
      (step_id : Text) (s : WorkflowCommandProcessor Regex) (o : Option LegacyCommandValues)
      → IsProcessor s
      → IsProcessor (taken_state step_id s o).0
  taken_state-IsProcessor step_id s none k = k
  taken_state-IsProcessor step_id s (some values) k =
      other_fields-IsProcessor s _ refl refl refl refl refl k

  -- What a healthy processor gave is well-formed if what it is made of is.
  healthy-IsProcessor :
      (s next : WorkflowCommandProcessor Regex) (taken : Map Text Text)
      (given : WorkflowCommandProcessor Regex × Map Text Text)
      → (ensure_healthy s >>= λ healthy. ok given) ≡ ok (next, taken)
      → IsProcessor given.0
      → IsProcessor next
  healthy-IsProcessor s next taken given e k =
      let (healthy, checked, done) = >>=-eq-ok (ensure_healthy s) (λ healthy. ok given) e in
      subst IsProcessor (ap (λ o. o.0) (ok-injective done)) k

  step-IsProcessor :
      (s next : WorkflowCommandProcessor Regex)
      → IsProcessor s
      → ProcessorStep s next
      → IsProcessor next
  unfolding take_legacy_outputs take_legacy_state register_step_workspace mark_preprocessed_log
      take_preprocessed_log take_annotations IsRegistry register_workspace
  step-IsProcessor s next k (log_processed step_id stream data' t) =
      (process_log-Completes p load matcher_path step_id stream data' t k).0
  step-IsProcessor s next k (stream_finished step_id stream t) =
      (finish_stream-Completes p load matcher_path step_id stream t k).0
  step-IsProcessor s next k (step_completed step_id t) =
      (finish_step-Completes p load matcher_path step_id t k).0
  step-IsProcessor s next k (mask_registered value t) = register_global_mask-IsProcessor value t k
  step-IsProcessor s next k (workspace_set scope folder t) =
      set_matchers-IsProcessor (register_workspace p scope folder t.problem_matchers) t
        k.matchers_good k
  step-IsProcessor s next k (failed e t) = fail-IsProcessor e t k
  step-IsProcessor s next k (log_marked message_id t) =
      other_fields-IsProcessor t _ refl refl refl refl refl k
  step-IsProcessor s next k (log_taken message_id t) =
      other_fields-IsProcessor t _ refl refl refl refl refl k
  step-IsProcessor s next k (annotations_taken t) = record {
    masks_full = k.masks_full;
    scopes_good = k.scopes_good;
    annotations_capped = omega arith;
    counts_capped = k.counts_capped;
    matchers_good = k.matchers_good;
  }
  step-IsProcessor s next k (outputs_taken step_id t n taken e) =
      healthy-IsProcessor t n taken (taken_outputs step_id t (get step_id t.legacy_values)) e
        (taken_outputs-IsProcessor step_id t (get step_id t.legacy_values) k)
  step-IsProcessor s next k (state_taken step_id t n taken e) =
      healthy-IsProcessor t n taken (taken_state step_id t (get step_id t.legacy_values)) e
        (taken_state-IsProcessor step_id t (get step_id t.legacy_values) k)

  -- From the start of a job whose masks are not empty, whatever operations follow, no mask is ever
  -- empty, every scope counts the bytes of its distinct masks within both limits, at most 50
  -- annotations wait and no level of a step counts more than 10, and the matchers are well-formed.
  pub Runs-IsProcessor :
      (masks : List Text) (folder root : Text) (s : WorkflowCommandProcessor Regex)
      → none_empty masks ≡ true
      → Runs masks folder root s
      → IsProcessor s
  Runs-IsProcessor masks folder root s full begun =
      with_global_masks-IsProcessor masks folder root full
  Runs-IsProcessor masks folder root s full (went {s = before} {next = next} run step) =
      step-IsProcessor before next (Runs-IsProcessor masks folder root before full run) step
