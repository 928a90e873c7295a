-- ===== src/Protocol.antt =====
-- `CheckAnnotation` and its limits of crates/gitzero-protocol/src/lib.rs.
use gitzero.Prelude.Map.{Map}
use gitzero.Prelude.{
  nat_beq_iff, Key, List, Option, Text, ap, arith, ltb, nat_beq, nat_key, refl, text_key, true, ℕ,
  ◌↔◌, ◌≡◌,
}

pub data CheckAnnotationLevel : Type 0 where
  notice warning failed_check : CheckAnnotationLevel

-- The derived order is that of the constructors.
abbrev level_order : CheckAnnotationLevel → ℕ
level_order notice = 0
level_order warning = 1
level_order failed_check = 2

level_order-injective : (a b : CheckAnnotationLevel) → level_order a ≡ level_order b → a ≡ b
level_order-injective notice notice h = refl
level_order-injective warning warning h = refl
level_order-injective failed_check failed_check h = refl
level_order-injective notice warning h = absurd (omega (arith, h))
level_order-injective notice failed_check h = absurd (omega (arith, h))
level_order-injective warning notice h = absurd (omega (arith, h))
level_order-injective warning failed_check h = absurd (omega (arith, h))
level_order-injective failed_check notice h = absurd (omega (arith, h))
level_order-injective failed_check warning h = absurd (omega (arith, h))

pub level_beq_iff :
    (a b : CheckAnnotationLevel) → (nat_beq (level_order a) (level_order b) ≡ true) ↔ (a ≡ b)
level_beq_iff a b = (
  λ h. level_order-injective a b ((nat_beq_iff (level_order a) (level_order b)).0 h),
  λ e. (nat_beq_iff (level_order a) (level_order b)).1 (ap level_order e),
)

instance abbrev pub level_key : Key CheckAnnotationLevel
level_key = record {
  beq = λ a b. nat_beq (level_order a) (level_order b);
  less = λ a b. ltb (level_order a) (level_order b);
  beq_iff = level_beq_iff;
}

pub data LogStream : Type 0 where
  stdout stderr system : LogStream

pub record CheckAnnotation : Type 0 where
  pub path : Text
  pub start_line : ℕ
  pub end_line : ℕ
  pub start_column : Option ℕ
  pub end_column : Option ℕ
  pub annotation_level : CheckAnnotationLevel
  pub message : Text
  pub title : Option Text

abbrev pub max_message_bytes : ℕ
max_message_bytes = 65536

abbrev pub max_title_bytes : ℕ
max_title_bytes = 255

abbrev pub max_path_bytes : ℕ
max_path_bytes = 4096

abbrev pub max_annotations : ℕ
max_annotations = 50

-- What an agent tells of a job. Only what the relay reads or rewrites is kept; the other messages
-- are their text.
pub data AgentMessage : Type 0 where
  step_started : (step_id name : Text) → AgentMessage
  log_chunk : (message_id step_id : Text) (stream : LogStream) (data' : Text) → AgentMessage
  step_finished : (step_id : Text) → AgentMessage
  job_finished : (summary : Text) (annotations : List CheckAnnotation) → AgentMessage
  job_rejected : (reason : Text) → AgentMessage
  other_message : Text → AgentMessage

-- What is read of a run for its secrets.
pub record RunSpec : Type 0 where
  pub checkout_token : Text
  pub environment : Map Text Text
