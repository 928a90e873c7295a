-- ===== src/Commands/Guarded.antt =====
-- What is left of a secret of the run in a finished job (crates/gitzero-agent/src/executor.rs).
use gitzero.Prelude.Utf8.{byte_len}
use gitzero.Commands.Secrets.{is_hideable, mask_all-keeps_out, mask_text-leaves_out}
use gitzero.Commands.Masks.{mask_text}
use gitzero.Commands.MaskLists.{has_mask, none_empty}
use gitzero.Commands.Annotation.{bound_title, bound_masked_annotation}
use gitzero.Commands.Texts.{
  is_hidden, truncate_utf8_bytes-keeps_out, hides-append, hides_more, all_annotation_texts,
  annotation_texts, optional_text, hides,
}
use gitzero.Prelude.Strings.{contains_text}
use gitzero.Commands.Bounded.{IsProcessor}
use gitzero.Protocol.{max_title_bytes, max_message_bytes, max_path_bytes, CheckAnnotation}
use gitzero.Commands.Relay.{mask_title, mask_finished, mask_annotation}
use gitzero.Commands.State.{WorkflowCommandProcessor}
use gitzero.Prelude.{
  Bool-cases, List, Option, Text, [], codes, false, if◌then◌else◌, inl, inr, ltb, map, nat_key,
  none, refl, some, text_key, true, ◌∷◌, ◌≡◌,
}

module _ {Regex : Type 0} where
  -- Everything that holds where the secrets of a run are masked.
  pub record Guards (secrets : List Text) (secret : Text) (s : WorkflowCommandProcessor Regex)
      : Type 0 where
    pub well_formed : IsProcessor s
    pub secrets_full : none_empty secrets ≡ true
    pub hideable : is_hideable secret ≡ true
    pub among : has_mask secret secrets ≡ true
    pub not_in_path : contains_text (codes ".github") secret ≡ false

  pub masked_first :
      (secrets : List Text) (secret value : Text) (s : WorkflowCommandProcessor Regex)
      → Guards secrets secret s
      → contains_text (mask_text value secrets) secret ≡ false
  masked_first secrets secret value s g =
      mask_text-leaves_out secrets secret value g.secrets_full g.hideable g.among

  pub mask_finished-hides :
      (secrets : List Text) (secret value : Text) (s : WorkflowCommandProcessor Regex)
      → Guards secrets secret s
      → contains_text (mask_finished secrets s value) secret ≡ false
  mask_finished-hides secrets secret value s g =
      mask_all-keeps_out secret _ s g.well_formed g.hideable (masked_first secrets secret value s g)

  title-hides :
      (secrets : List Text) (secret : Text) (title : Option Text)
      (s : WorkflowCommandProcessor Regex)
      → Guards secrets secret s
      → hides secret (optional_text (bound_title (mask_title secrets s title))) ≡ true
  title-hides secrets secret none s g = refl
  title-hides secrets secret (some title) s g = is_hidden _ secret (
      truncate_utf8_bytes-keeps_out secret _ max_title_bytes g.hideable
        (mask_finished-hides secrets secret title s g))

  path-hides :
      (secrets : List Text) (secret path : Text) (s : WorkflowCommandProcessor Regex)
      → Guards secrets secret s
      → contains_text path secret ≡ false
      → contains_text (if ltb max_path_bytes (byte_len path) then codes ".github" else path) secret
        ≡ false
  path-hides secrets secret path s g out = elim (Bool-cases (ltb max_path_bytes (byte_len path))) [
    | inl long ↦ rw long g.not_in_path
    | inr fits ↦ rw fits out
  ]

  mask_annotation-hides :
      (secrets : List Text) (secret : Text) (annotation : CheckAnnotation)
      (s : WorkflowCommandProcessor Regex)
      → Guards secrets secret s
      → hides secret (annotation_texts (mask_annotation secrets s annotation)) ≡ true
  unfolding mask_annotation bound_masked_annotation
  mask_annotation-hides secrets secret annotation s g =
      let masked = mask_annotation secrets s annotation in
      hides_more secret masked.path (masked.message ∷ optional_text masked.title)
        (path-hides secrets secret _ s g (mask_finished-hides secrets secret annotation.path s g))
        (hides_more secret masked.message (optional_text masked.title)
          (truncate_utf8_bytes-keeps_out secret _ max_message_bytes g.hideable
            (mask_finished-hides secrets secret annotation.message s g))
          (title-hides secrets secret annotation.title s g))

  pub annotations-hide :
      (secrets : List Text) (secret : Text) (annotations : List CheckAnnotation)
      (s : WorkflowCommandProcessor Regex)
      → Guards secrets secret s
      → hides secret (all_annotation_texts (map (mask_annotation secrets s) annotations)) ≡ true
  annotations-hide secrets secret [] s g = refl
  annotations-hide secrets secret (annotation ∷ annotations) s g =
      hides-append secret (annotation_texts (mask_annotation secrets s annotation)) _
        (mask_annotation-hides secrets secret annotation s g)
        (annotations-hide secrets secret annotations s g)
