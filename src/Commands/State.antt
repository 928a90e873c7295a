-- ===== src/Commands/State.antt =====
-- `WorkflowCommandProcessor` of crates/gitzero-agent/src/executor.rs: its state, and what its
-- operations do to the masks, the annotations and the legacy values. Those that can fail give the
-- state afterwards in any case.
use gitzero.Matcher.Patterns.{MatcherError}
use gitzero.Matcher.Registry.{ProblemMatcherRegistry}
use gitzero.Prelude.Result.{err, ok, Result}
use gitzero.Prelude.Sets.{member, insert_element, keep}
use gitzero.Prelude.Split.{is_empty}
use gitzero.Prelude.Strings.{usize_max}
use gitzero.Commands.Masks.{register_mask, WorkflowCommandScope}
use gitzero.Prelude.Utf8.{byte_len}
use gitzero.Protocol.{
  level_key, failed_check, system, stderr, warning, max_annotations, notice, stdout,
  CheckAnnotation, CheckAnnotationLevel, LogStream,
}
use gitzero.Commands.Syntax.{CommandError}
use gitzero.Prelude.Map.{Map, get, insert}
use gitzero.Prelude.{
  pair_key, Bool, List, Option, Text, [], any, if◌then◌else◌, leb, length, ltb, nat_beq, nat_key,
  none, not, some, text_key, text_less, ℕ, ◌&&◌, ◌*◌, ◌++◌, ◌+◌, ◌==◌, ◌||◌, ◌∷◌,
}

pub record LegacyCommandValues : Type 0 where
  pub outputs : Map Text Text
  pub state : Map Text Text
  pub command_count : ℕ
  pub command_bytes : ℕ

-- A UUID is its text.
pub record WorkflowCommandProcessor (Regex : Type 0) : Type 0 where
  pub global_masks : List Text
  pub scopes : Map Text WorkflowCommandScope
  pub legacy_values : Map Text LegacyCommandValues
  pub problem_matchers : ProblemMatcherRegistry Regex
  pub annotations : List CheckAnnotation
  pub annotation_counts : Map (Text × CheckAnnotationLevel) ℕ
  pub preprocessed_logs : List Text
  pub partial_commands : Map (Text × ℕ) Text
  pub fatal_error : Option Text

-- What stops the processing of a line.
pub data ProcessError : Type 0 where
  bad_command : CommandError → ProcessError
  bad_matcher : MatcherError → ProcessError
  too_many_masks bad_legacy_value legacy_over_limit command_over_limit unhealthy panicked :
      ProcessError

abbrev pub max_log_chunk_bytes : ℕ
max_log_chunk_bytes = 32 * 1024

abbrev pub max_legacy_values : ℕ
max_legacy_values = 1024

abbrev pub max_legacy_bytes : ℕ
max_legacy_bytes = 1024 * 1024

abbrev pub log_stream_key : LogStream → ℕ
log_stream_key stdout = 0
log_stream_key stderr = 1
log_stream_key system = 2

-- The order of the global masks: longer ones first, then by their bytes.
abbrev pub goes_before : Text → Text → Bool
goes_before a b =
    ltb (byte_len b) (byte_len a) || (nat_beq (byte_len a) (byte_len b) && text_less a b)

unfoldable pub insert_global : Text → List Text → List Text
insert_global x [] = x ∷ []
insert_global x (y ∷ masks) =
    let rest = insert_global x masks in if goes_before y x then y ∷ rest else x ∷ y ∷ masks

unfoldable pub sort_global : List Text → List Text
unfolding insert_global
sort_global [] = []
sort_global (x ∷ masks) = insert_global x (sort_global masks)

-- Vec::dedup
abbrev pub drop_repeated : Text → List Text → List Text
drop_repeated x [] = x ∷ []
drop_repeated x (y ∷ rest) = if x == y then y ∷ rest else x ∷ y ∷ rest

unfoldable pub dedup : List Text → List Text
dedup [] = []
dedup (x ∷ masks) = drop_repeated x (dedup masks)

abbrev pub empty_scope : WorkflowCommandScope
empty_scope = record { masks = []; mask_bytes = 0; stop_token = none }

abbrev pub no_values : LegacyCommandValues
no_values = record { outputs = []; state = []; command_count = 0; command_bytes = 0 }

-- `entry(key).or_default()`
abbrev pub or_else {ℓ} : {A : Type ℓ} → A → Option A → A
or_else default none = default
or_else default (some a) = a

-- Addition of two machine words that stops at the largest.
abbrev pub saturating_add : ℕ → ℕ → ℕ
saturating_add a b = if leb (a + b) usize_max then a + b else usize_max

abbrev pub step_limit : CheckAnnotationLevel → ℕ
step_limit notice = 10
step_limit warning = 10
step_limit failed_check = 10

module _ {Regex : Type 0} where
  unfoldable pub with_global_masks : List Text → Text → Text → WorkflowCommandProcessor Regex
  unfolding sort_global dedup
  with_global_masks masks folder matcher_root = record {
    global_masks = dedup (sort_global masks);
    scopes = [];
    legacy_values = [];
    problem_matchers = record {
      fallback_workspace = some folder;
      workspaces = [];
      matcher_root = some matcher_root;
      scopes = [];
    };
    annotations = [];
    annotation_counts = [];
    preprocessed_logs = [];
    partial_commands = [];
    fatal_error = none;
  }

  unfoldable pub mark_preprocessed_log :
      Text → WorkflowCommandProcessor Regex → WorkflowCommandProcessor Regex
  unfolding insert_element
  mark_preprocessed_log message_id s = record s {
    preprocessed_logs = insert_element message_id s.preprocessed_logs;
  }

  unfoldable pub take_preprocessed_log :
      Text → WorkflowCommandProcessor Regex → WorkflowCommandProcessor Regex × Bool
  unfolding keep
  take_preprocessed_log message_id s = (
    record s { preprocessed_logs = keep (λ m. not (m == message_id)) s.preprocessed_logs },
    member message_id s.preprocessed_logs,
  )

  unfoldable pub ensure_healthy : WorkflowCommandProcessor Regex → Result ProcessError (Unit {0})
  ensure_healthy s = elim s.fatal_error [ none ↦ ok tt | some e ↦ err unhealthy ]

  unfoldable pub register_global_mask :
      Text → WorkflowCommandProcessor Regex → WorkflowCommandProcessor Regex
  unfolding sort_global
  register_global_mask value s =
      if is_empty value || any (λ mask. mask == value) s.global_masks
      then s
      else record s { global_masks = sort_global (s.global_masks ++ value ∷ []) }

  -- Only the first error is kept.
  unfoldable pub fail : Text → WorkflowCommandProcessor Regex → WorkflowCommandProcessor Regex
  fail e s = elim s.fatal_error [ none ↦ record s { fatal_error = some e } | some first ↦ s ]

  -- The scope of a step, and what is put in its place.
  abbrev pub scope_of : Text → WorkflowCommandProcessor Regex → WorkflowCommandScope
  scope_of scope_id s = or_else empty_scope (get scope_id s.scopes)

  abbrev pub set_scope :
      Text → WorkflowCommandScope → WorkflowCommandProcessor Regex → WorkflowCommandProcessor Regex
  set_scope scope_id scope s = record s { scopes = insert scope_id scope s.scopes }

  -- `register_mask` on the scope's entry.
  unfoldable pub register_scope_mask :
      Text
      → Text
      → WorkflowCommandProcessor Regex
      → WorkflowCommandProcessor Regex × Result ProcessError (Unit {0})
  unfolding get insert register_mask
  register_scope_mask scope_id value s =
      let (scope, taken) = register_mask value (scope_of scope_id s) in
      (set_scope scope_id scope s, if taken then ok tt else err too_many_masks)

  unfoldable pub set_stop_token :
      Text → Option Text → WorkflowCommandProcessor Regex → WorkflowCommandProcessor Regex
  unfolding get insert
  set_stop_token scope_id token s =
      set_scope scope_id (record (scope_of scope_id s) { stop_token = token }) s

  -- An annotation counts for its step and level, and is dropped beyond the limits.
  unfoldable pub record_annotation :
      Text → CheckAnnotation → WorkflowCommandProcessor Regex → WorkflowCommandProcessor Regex
  unfolding get insert
  record_annotation step_id annotation s =
      let key : Text × CheckAnnotationLevel = (step_id, annotation.annotation_level) in
      let count = or_else 0 (get key s.annotation_counts) in
      if leb (step_limit annotation.annotation_level) count
      then record s { annotation_counts = insert key count s.annotation_counts }
      else record s {
        annotation_counts = insert key (count + 1) s.annotation_counts;
        annotations =
            if ltb (length s.annotations) max_annotations
            then s.annotations ++ annotation ∷ []
            else s.annotations;
      }

  unfoldable pub take_annotations :
      WorkflowCommandProcessor Regex → WorkflowCommandProcessor Regex × List CheckAnnotation
  take_annotations s = (record s { annotations = [] }, s.annotations)
