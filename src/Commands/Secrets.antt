-- ===== src/Commands/Secrets.antt =====
-- What masking leaves of a secret (crates/gitzero-agent/src/executor.rs).
use gitzero.Commands.Syntax.{workflow_command_scope}
use gitzero.Commands.Hidden.{mask_text-hides, mask_text-keeps}
use gitzero.Commands.Masks.{WorkflowCommandScope, mask_text}
use gitzero.Prelude.Map.{Map}
use gitzero.Commands.Bounded.{scope_of-IsScope, IsProcessor}
use gitzero.Prelude.Strings.{contains_text}
use gitzero.Prelude.Replace.{avoids}
use gitzero.Commands.Relay.{masks_of, mask_all, mask_for_step, mask_scopes}
use gitzero.Commands.State.{WorkflowCommandProcessor}
use gitzero.Commands.MaskLists.{IsScope, has_mask, none_empty}
use gitzero.Prelude.Split.{is_empty}
use gitzero.Prelude.{
  &&-true, All, Bool, Bool-cases, List, Text, [], arith, false, inl, inr, nat_key, not, text_key,
  true, ◌&&◌, ◌||◌, ◌∷◌, ◌≡◌,
}

-- A secret that the masking can hide: it is not empty and has no star.
abbrev pub is_hideable : Text → Bool
is_hideable secret = not (is_empty secret) && avoids b'*' secret

pub mask_text-keeps_out :
    (masks : List Text) (secret value : Text)
    → none_empty masks ≡ true
    → is_hideable secret ≡ true
    → contains_text value secret ≡ false
    → contains_text (mask_text value masks) secret ≡ false
mask_text-keeps_out masks [] value full good out = cc
mask_text-keeps_out masks (b ∷ q) value full good out =
    mask_text-keeps masks b q value full good out

pub mask_text-leaves_out :
    (masks : List Text) (secret value : Text)
    → none_empty masks ≡ true
    → is_hideable secret ≡ true
    → has_mask secret masks ≡ true
    → contains_text (mask_text value masks) secret ≡ false
mask_text-leaves_out masks secret value full good there =
    mask_text-hides masks value secret full there (&&-true _ _ good).1

mask_scopes-keeps_out :
    (secret : Text) (scopes : Map Text WorkflowCommandScope) (value : Text)
    → All (λ e. IsScope e.1) scopes
    → is_hideable secret ≡ true
    → contains_text value secret ≡ false
    → contains_text (mask_scopes value scopes) secret ≡ false
unfolding mask_scopes
mask_scopes-keeps_out secret [] value k good out = out
mask_scopes-keeps_out secret ((scope_id, scope) ∷ scopes) value k good out =
    mask_scopes-keeps_out secret scopes (mask_text value scope.masks) k.1 good
      (mask_text-keeps_out scope.masks secret value k.0.not_empty good out)

module _ {Regex : Type 0} where
  masks_of-none_empty :
      (step_id : Text) (s : WorkflowCommandProcessor Regex)
      → IsProcessor s
      → none_empty (masks_of step_id s) ≡ true
  masks_of-none_empty step_id s k =
      (scope_of-IsScope (workflow_command_scope step_id) s k).not_empty

  pub mask_for_step-keeps_out :
      (step_id secret value : Text) (s : WorkflowCommandProcessor Regex)
      → IsProcessor s
      → is_hideable secret ≡ true
      → contains_text value secret ≡ false
      → contains_text (mask_for_step step_id value s) secret ≡ false
  unfolding mask_for_step
  mask_for_step-keeps_out step_id secret value s k good out =
      mask_text-keeps_out (masks_of step_id s) secret _ (masks_of-none_empty step_id s k) good
        (mask_text-keeps_out s.global_masks secret value k.masks_full good out)

  -- No text that is masked for a step shows a mask of the job or of the step's scope that has no
  -- star, whatever the text and the other masks are.
  pub mask_for_step-hides :
      (step_id secret value : Text) (s : WorkflowCommandProcessor Regex)
      → IsProcessor s
      → is_hideable secret ≡ true
      → (has_mask secret s.global_masks || has_mask secret (masks_of step_id s)) ≡ true
      → contains_text (mask_for_step step_id value s) secret ≡ false
  unfolding mask_for_step
  mask_for_step-hides step_id secret value s k good there =
      elim (Bool-cases (has_mask secret s.global_masks)) [
        | inl global ↦
            mask_text-keeps_out (masks_of step_id s) secret _ (masks_of-none_empty step_id s k) good
              (mask_text-leaves_out s.global_masks secret value k.masks_full good global)
        | inr other ↦
            mask_text-leaves_out (masks_of step_id s) secret _ (masks_of-none_empty step_id s k)
              good (ground (arith, there, other))
      ]

  pub mask_all-keeps_out :
      (secret value : Text) (s : WorkflowCommandProcessor Regex)
      → IsProcessor s
      → is_hideable secret ≡ true
      → contains_text value secret ≡ false
      → contains_text (mask_all value s) secret ≡ false
  unfolding mask_all
  mask_all-keeps_out secret value s k good out =
      mask_scopes-keeps_out secret s.scopes (mask_text value s.global_masks) k.scopes_good good
        (mask_text-keeps_out s.global_masks secret value k.masks_full good out)
