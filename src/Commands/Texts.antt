-- ===== src/Commands/Texts.antt =====
-- The texts of messages, and what cutting them keeps out (crates/gitzero-agent/src/executor.rs).
use gitzero.Commands.Annotation.{truncate_utf8_bytes}
use gitzero.Prelude.Utf8.{floor_boundary, len_utf8, truncate}
use gitzero.Protocol.{
  other_message, job_rejected, job_finished, step_finished, log_chunk, step_started, AgentMessage,
  CheckAnnotation,
}
use gitzero.Commands.Secrets.{is_hideable}
use gitzero.Prelude.Strings.{contains_text, starts_with}
use gitzero.Prelude.{
  Bool, List, Option, Text, [], all, arith, false, nat_key, none, not, refl, some, text_key, true,
  ℕ, ◌++◌, ◌-◌, ◌∷◌, ◌≡◌,
}

starts_with-truncate :
    (q s : Text) (index : ℕ) → starts_with (truncate s index) q ≡ true → starts_with s q ≡ true
unfolding starts_with truncate
starts_with-truncate [] s index h = refl
starts_with-truncate (b ∷ q) [] index h = h
starts_with-truncate (b ∷ q) (c ∷ s) index h =
    ground (arith, h, starts_with-truncate q s (index - len_utf8 c))

-- What a text does not contain, no part of it at its start does.
contains_text-truncate :
    (b : ℕ) (q s : Text) (index : ℕ)
    → contains_text s (b ∷ q) ≡ false
    → contains_text (truncate s index) (b ∷ q) ≡ false
unfolding contains_text truncate starts_with
contains_text-truncate b q [] index out = refl
contains_text-truncate b q (c ∷ s) index out = ground (
  arith,
  out,
  contains_text-truncate b q s (index - len_utf8 c),
  starts_with-truncate q s (index - len_utf8 c),
)

pub truncate_utf8_bytes-keeps_out :
    (secret value : Text) (maximum : ℕ)
    → is_hideable secret ≡ true
    → contains_text value secret ≡ false
    → contains_text (truncate_utf8_bytes value maximum) secret ≡ false
truncate_utf8_bytes-keeps_out [] value maximum good out = cc
truncate_utf8_bytes-keeps_out (b ∷ q) value maximum good out =
    ground (arith, out, contains_text-truncate b q value (floor_boundary value maximum))

abbrev pub optional_text : Option Text → List Text
optional_text none = []
optional_text (some text) = text ∷ []

abbrev pub annotation_texts : CheckAnnotation → List Text
annotation_texts annotation = annotation.path ∷ annotation.message ∷ optional_text annotation.title

abbrev pub all_annotation_texts : List CheckAnnotation → List Text
all_annotation_texts [] = []
all_annotation_texts (annotation ∷ annotations) =
    annotation_texts annotation ++ all_annotation_texts annotations

-- The texts of a message that the relay masks. The others go as they are, `environment_url` of
-- DeploymentFinished among them, and no theorem is about them.
abbrev pub masked_texts : AgentMessage → List Text
masked_texts (step_started step_id name) = name ∷ []
masked_texts (log_chunk message_id step_id stream data') = data' ∷ []
masked_texts (step_finished step_id) = []
masked_texts (job_finished summary annotations) = summary ∷ all_annotation_texts annotations
masked_texts (job_rejected reason) = reason ∷ []
masked_texts (other_message text) = []

abbrev pub hides : Text → List Text → Bool
hides secret texts = all (λ text. not (contains_text text secret)) texts

pub hides-append :
    (secret : Text) (texts more : List Text)
    → hides secret texts ≡ true
    → hides secret more ≡ true
    → hides secret (texts ++ more) ≡ true
hides-append secret [] more h k = k
hides-append secret (text ∷ texts) more h k = ground (arith, h, k, hides-append secret texts more)

pub hides_more :
    (secret text : Text) (texts : List Text)
    → contains_text text secret ≡ false
    → hides secret texts ≡ true
    → hides secret (text ∷ texts) ≡ true
hides_more secret text texts out h = ground (arith, out, h)

pub is_hidden :
    (text secret : Text) → contains_text text secret ≡ false → hides secret (text ∷ []) ≡ true
is_hidden text secret out = ground (arith, out)
