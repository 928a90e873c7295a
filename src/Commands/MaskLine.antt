-- ===== src/Commands/MaskLine.antt =====
-- The `add-mask` command (crates/gitzero-agent/src/executor.rs).
use gitzero.Commands.Hidden.{is_registered}
use gitzero.Commands.MaskLists.{has_mask}
use gitzero.Commands.Relay.{mask_for_step}
use gitzero.Prelude.Strings.{contains_text}
use gitzero.Prelude.Map.{get, get-insert}
use gitzero.Commands.Secrets.{mask_for_step-hides, is_hideable}
use gitzero.Commands.Bounded.{
  register_scope_mask-Completes, register_scope_mask-Completes, IsProcessor,
}
use gitzero.Commands.Line.{
  add_mask_line, stopped_line, suppress, stop_token_of, process_line, suppressed,
}
use gitzero.Prelude.Result.{err, ok, Result}
use gitzero.Commands.State.{
  too_many_masks, empty_scope, ProcessError, or_else, register_scope_mask, set_scope, scope_of,
  WorkflowCommandProcessor,
}
use gitzero.Matcher.Patterns.{ProblemMatcherConfig, MatcherError, Regexes}
use gitzero.Commands.Masks.{register_mask, WorkflowCommandScope}
use gitzero.Commands.Syntax.{workflow_command_scope, strip_prefix_ignore_ascii_case}
use gitzero.Commands.Escape.{decode_workflow_command_data-encode, escape, encode}
use gitzero.Prelude.{
  ==_refl, Bool, List, Option, Text, ap, arith, ascii_lower, codes, false, if◌then◌else◌, nat_key,
  none, refl, some, subst, sym, text_key, true, ◌++◌, ◌∙◌, ◌≡◌,
}

-- The line of a log that adds a mask.
abbrev pub mask_line : Text → Text
mask_line value = codes "::add-mask::" ++ encode escape value

strip_mask_line :
    (value : Text)
    → strip_prefix_ignore_ascii_case (mask_line value) (codes "::add-mask::")
      ≡ some (encode escape value)
unfolding strip_prefix_ignore_ascii_case ascii_lower
strip_mask_line value = refl

module _ {Regex : Type 0} where
  -- What is put in for a scope is what it has.
  scope_of-set_scope :
      (scope_id : Text) (scope : WorkflowCommandScope) (s : WorkflowCommandProcessor Regex)
      → scope_of scope_id (set_scope scope_id scope s) ≡ scope
  scope_of-set_scope scope_id scope s = ap (or_else empty_scope) (
      get-insert scope_id scope_id scope s.scopes
      ∙ ap (λ b. if b then some scope else get scope_id s.scopes) (==_refl scope_id))

module _ {Regex Captures : Type 0} (p : Regexes Regex Captures)
    (load : Text → Text → Text → Result MatcherError (List ProblemMatcherConfig))
    (matcher_path : Option Text → Option Text → Option Text → Option Text) where
  -- While commands are not stopped, the line registers the value it was written for.
  process_line-mask_line :
      (step_id value : Text) (s : WorkflowCommandProcessor Regex)
      → stop_token_of p load matcher_path step_id s ≡ none
      → process_line p load matcher_path step_id (mask_line value) s
        ≡ suppressed p load matcher_path
            (register_scope_mask (workflow_command_scope step_id) value s)
  unfolding process_line
  process_line-mask_line step_id value s going =
      ap (stopped_line p load matcher_path step_id (mask_line value) s) going
      ∙ ap (add_mask_line p load matcher_path step_id (mask_line value) s) (strip_mask_line value)
      ∙ ap
          (λ v.
            suppressed p load matcher_path
              (register_scope_mask (workflow_command_scope step_id) v s))
          (decode_workflow_command_data-encode value)

  suppressed-state :
      (r : WorkflowCommandProcessor Regex × Result ProcessError (Unit {0}))
      → (suppressed p load matcher_path r).0 ≡ r.0
  suppressed-state (s, ok u) = refl
  suppressed-state (s, err e) = refl

  suppressed-taken :
      (taken : Bool) (s : WorkflowCommandProcessor Regex)
      → (suppressed p load matcher_path (s, if taken then ok tt else err too_many_masks)).1
        ≡ ok suppress
      → taken ≡ true
  suppressed-taken true s h = refl
  suppressed-taken false s h = cc

  masked_after :
      (step_id value text : Text) (s : WorkflowCommandProcessor Regex)
      → IsProcessor s
      → is_hideable value ≡ true
      → (register_mask value (scope_of (workflow_command_scope step_id) s)).1 ≡ true
      → contains_text
          (mask_for_step step_id text
            (register_scope_mask (workflow_command_scope step_id) value s).0)
          value
        ≡ false
  unfolding register_scope_mask
  masked_after step_id value text s k good taken =
      mask_for_step-hides step_id value text _
        (register_scope_mask-Completes (workflow_command_scope step_id) value s k).0 good
        (ground (
          arith,
          ap (λ scope. has_mask value scope.masks)
              (scope_of-set_scope (workflow_command_scope step_id)
                (register_mask value (scope_of (workflow_command_scope step_id) s)).0 s),
          is_registered value (scope_of (workflow_command_scope step_id) s) (ground (arith, good))
              taken,
        ))

  -- Once the line that adds a value as a mask is processed and not refused, no text that is masked
  -- for the step shows the value, which may have any characters but stars.
  pub process_line-hides :
      (step_id value text : Text) (s : WorkflowCommandProcessor Regex)
      → IsProcessor s
      → stop_token_of p load matcher_path step_id s ≡ none
      → is_hideable value ≡ true
      → (process_line p load matcher_path step_id (mask_line value) s).1 ≡ ok suppress
      → contains_text
          (mask_for_step step_id text
            (process_line p load matcher_path step_id (mask_line value) s).0)
          value
        ≡ false
  unfolding register_scope_mask
  process_line-hides step_id value text s k going good done =
      subst (λ r. contains_text (mask_for_step step_id text r.0) value ≡ false)
        (sym (process_line-mask_line step_id value s going))
        (subst (λ t. contains_text (mask_for_step step_id text t) value ≡ false)
          (sym (suppressed-state (register_scope_mask (workflow_command_scope step_id) value s)))
          (masked_after step_id value text s k good taken))
    where
      taken : (register_mask value (scope_of (workflow_command_scope step_id) s)).1 ≡ true
      taken =
          suppressed-taken _ _
            (sym (ap (λ r. r.1) (process_line-mask_line step_id value s going)) ∙ done)
