-- ===== src/Commands/Tests.antt =====
-- A processor without matchers, and the theorems at it.
use gitzero.Commands.RunSecrets.{
  found_values, relay_masked_events-hides_run, environment_values, run_secrets,
}
use gitzero.Commands.Kept.{record_all-admitted, admitted, take, record_all}
use gitzero.Commands.Masks.{
  insert_by_length, split_whitespace, sort_by_length, register_candidates, register_mask,
}
use gitzero.Commands.Paths.{
  components_of, strip_components, slashes, normalized, components, normalize_annotation_path,
}
use gitzero.Prelude.Replace.{replace_from, replace_empty, replace, replace}
use gitzero.Expression.Template.{is_whitespace, trim}
use gitzero.Commands.MaskLine.{process_line-hides, mask_line}
use gitzero.Commands.Stopped.{never_resumes, process_complete_log_stopped}
use gitzero.Prelude.Map.{insert, get}
use gitzero.Commands.Escape.{decode_workflow_command_data-encode, escape, encode}
use gitzero.Commands.Relayed.{relay_masked_events-hides, sent_texts}
use gitzero.Commands.Relay.{relay_masked_events, mask_for_step}
use gitzero.Commands.LineSound.{process_line-Completes}
use gitzero.Commands.Steps.{log_processed, begun, went, Runs-IsProcessor}
use gitzero.Commands.AnnotationBounds.{parse_workflow_annotation-IsBounded, IsBounded}
use gitzero.Commands.Annotation.{
  annotation_coordinate, read_properties, read_annotation, is_annotation_workflow_command,
  parse_workflow_annotation,
}
use gitzero.Commands.Syntax.{
  decode_workflow_command_property, strip_prefix_ignore_ascii_case, workflow_command_scope,
  decode_workflow_command_data,
}
use gitzero.Commands.Texts.{hides}
use gitzero.Commands.MaskLists.{has_mask}
use gitzero.Protocol.{
  RunSpec, max_annotations, job_rejected, log_chunk, stdout, warning, AgentMessage, CheckAnnotation,
}
use gitzero.Prelude.Strings.{join_text, parse_usize, ends_with, starts_with, contains_text}
use gitzero.Commands.Line.{suppress, stop_token_of, process_line}
use gitzero.Commands.Secrets.{is_hideable}
use gitzero.Prelude.Split.{
  is_empty, split_at, filter, strip_prefix, split_once, trim_end, split_lines,
}
use gitzero.Commands.Log.{
  process_segments, is_suppressible_command, process_complete_log, process_log,
}
use gitzero.Commands.Bounded.{with_global_masks-IsProcessor, Completes, IsProcessor}
use gitzero.Commands.State.{
  set_stop_token, set_stop_token, register_scope_mask, insert_global, sort_global, dedup,
  WorkflowCommandProcessor, with_global_masks,
}
use gitzero.Prelude.Result.{ok, Result}
use gitzero.Matcher.Patterns.{ProblemMatcherConfig, MatcherError, Regexes}
use gitzero.Prelude.{
  ◌++◌, List, Option, Text, [], ascii_lower, codes, false, nat_key, none, refl, some, text_beq,
  text_key, text_less, true, ◌∷◌, ◌≡◌,
}

-- A regex package that knows no pattern.
abbrev no_regexes : Regexes (Unit {0}) (Unit {0})
no_regexes = record {
  build = λ t. none;
  captures_len = λ t. 0;
  captures = λ t line. none;
  group = λ t i. none;
}

abbrev no_configs : Text → Text → Text → Result MatcherError (List ProblemMatcherConfig)
no_configs folder root path = ok []

abbrev no_path : Option Text → Option Text → Option Text → Option Text
no_path from_path folder file = none

abbrev fresh_processor : WorkflowCommandProcessor (Unit {0})
fresh_processor = with_global_masks (codes "token" ∷ []) (codes "/w") (codes "/m")

abbrev step : Text
step = codes "p/j/s"

-- A step writes a mask, stops the commands, and writes another one.
abbrev stopped_processor : WorkflowCommandProcessor (Unit {0})
stopped_processor =
    (process_log no_regexes no_configs no_path step stdout (codes "::stop-commands::t\n")
      fresh_processor).0

fresh-IsProcessor : IsProcessor fresh_processor
fresh-IsProcessor =
    with_global_masks-IsProcessor (codes "token" ∷ []) (codes "/w") (codes "/m") refl

Runs-IsProcessor_example : IsProcessor stopped_processor
Runs-IsProcessor_example =
    Runs-IsProcessor no_regexes no_configs no_path (codes "token" ∷ []) (codes "/w") (codes "/m")
      stopped_processor refl
      (went begun (log_processed step stdout (codes "::stop-commands::t\n") fresh_processor))

process_line-Completes_example :
    Completes
      (process_line no_regexes no_configs no_path step (codes "::add-mask::a b") fresh_processor)
process_line-Completes_example =
    process_line-Completes no_regexes no_configs no_path step (codes "::add-mask::a b")
      fresh_processor
      (with_global_masks-IsProcessor (codes "token" ∷ []) (codes "/w") (codes "/m") refl)

stopped_token :
    stop_token_of no_regexes no_configs no_path step stopped_processor ≡ some (codes "t")
unfolding process_log process_complete_log process_segments process_line get insert
    strip_prefix_ignore_ascii_case decode_workflow_command_data replace replace_from starts_with
    split_lines trim_end ends_with set_stop_token workflow_command_scope split_once strip_prefix
    with_global_masks text_beq ascii_lower text_less register_scope_mask register_mask
    register_candidates split_whitespace split_at is_whitespace filter sort_by_length
    insert_by_length is_suppressible_command
stopped_token = refl

still_stopped :
    never_resumes no_regexes no_configs no_path
      (codes "t")
      (split_lines (codes "::add-mask::hunter2\nhunter2\n"))
    ≡ true
unfolding split_lines trim_end text_beq
still_stopped = refl

process_complete_log_stopped_example :
    process_complete_log no_regexes no_configs no_path step
      (codes "::add-mask::hunter2\nhunter2\n")
      stopped_processor
    ≡ (stopped_processor, ok (codes "::add-mask::hunter2\nhunter2\n"))
process_complete_log_stopped_example =
    process_complete_log_stopped no_regexes no_configs no_path step (codes "t")
      (codes "::add-mask::hunter2\nhunter2\n") stopped_processor stopped_token still_stopped

not_stopped : stop_token_of no_regexes no_configs no_path step fresh_processor ≡ none
unfolding with_global_masks workflow_command_scope text_beq get dedup sort_global split_once
    insert_global strip_prefix
not_stopped = refl

hideable : is_hideable (codes "100%\nsure") ≡ true
hideable = refl

added :
    (process_line no_regexes no_configs no_path step
      (mask_line (codes "100%\nsure"))
      fresh_processor).1
    ≡ ok suppress
unfolding process_log process_complete_log process_segments process_line get insert
    strip_prefix_ignore_ascii_case decode_workflow_command_data replace replace_from starts_with
    split_lines trim_end ends_with set_stop_token workflow_command_scope split_once strip_prefix
    with_global_masks text_beq ascii_lower text_less register_scope_mask register_mask
    register_candidates split_whitespace split_at is_whitespace filter sort_by_length
    insert_by_length is_suppressible_command
added = refl

process_line-hides_example :
    contains_text
      (mask_for_step step
        (codes "it is 100%\nsure")
        (process_line no_regexes no_configs no_path step
          (mask_line (codes "100%\nsure"))
          fresh_processor).0)
      (codes "100%\nsure")
    ≡ false
process_line-hides_example =
    process_line-hides no_regexes no_configs no_path step (codes "100%\nsure")
      (codes "it is 100%\nsure") fresh_processor fresh-IsProcessor not_stopped hideable added

abbrev messages : List AgentMessage
messages =
    log_chunk (codes "1") step stdout (codes "my password\n")
    ∷ job_rejected (codes "password refused")
    ∷ []

found : has_mask (codes "password") (codes "password" ∷ []) ≡ true
unfolding text_beq
found = refl

elsewhere : contains_text (codes ".github") (codes "password") ≡ false
unfolding contains_text starts_with
elsewhere = refl

relay_masked_events-hides_example :
    hides (codes "password") (
      sent_texts no_regexes no_configs no_path
        (relay_masked_events no_regexes no_configs no_path
          (codes "password" ∷ [])
          messages
          fresh_processor).1)
    ≡ true
relay_masked_events-hides_example =
    relay_masked_events-hides no_regexes no_configs no_path (codes "password" ∷ [])
      (codes "password") messages fresh_processor fresh-IsProcessor refl refl found elsewhere

decode_workflow_command_data-encode_example :
    decode_workflow_command_data (encode escape (codes "50%\r\n")) ≡ codes "50%\r\n"
decode_workflow_command_data-encode_example = decode_workflow_command_data-encode (codes "50%\r\n")

abbrev warned : CheckAnnotation
warned = record {
  path = codes "src/a.rs";
  start_line = 7;
  end_line = 7;
  start_column = none;
  end_column = none;
  annotation_level = warning;
  message = codes "unused";
  title = none;
}

read :
    parse_workflow_annotation (codes "::warning file=src/a.rs,line=7::unused") none
    ≡ some (ok (some warned))
unfolding parse_workflow_annotation text_beq text_less ascii_lower get insert parse_usize join_text
    trim decode_workflow_command_data filter is_annotation_workflow_command read_annotation
    read_properties split_at split_once strip_prefix is_whitespace replace annotation_coordinate
    normalize_annotation_path decode_workflow_command_property replace_empty replace_from components
    normalized slashes strip_components starts_with components_of
read = refl

parse_workflow_annotation-IsBounded_example : IsBounded warned
parse_workflow_annotation-IsBounded_example =
    parse_workflow_annotation-IsBounded (codes "::warning file=src/a.rs,line=7::unused") none warned
      read

record_all-admitted_example :
    (record_all ((step, warned) ∷ (step, warned) ∷ []) fresh_processor).annotations
    ≡ take max_annotations (admitted [] ((step, warned) ∷ (step, warned) ∷ []))
record_all-admitted_example =
    record_all-admitted (Unit {0}) (codes "token" ∷ []) (codes "/w") (codes "/m")
      ((step, warned) ∷ (step, warned) ∷ []) refl

-- Two letters before the text, in place of its base64.
abbrev lettered : Text → Text
lettered text = codes "Zz" ++ text

lettered_full : (text : Text) → is_empty text ≡ false → is_empty (lettered text) ≡ false
lettered_full text full = refl

abbrev run : RunSpec
run = record {
  checkout_token = codes "ghs-1";
  environment = (codes "api_key", codes "password") ∷ [];
}

hideable_key : is_hideable (codes "password") ≡ true
hideable_key = refl

api_key_found : has_mask (codes "password") (found_values lettered run) ≡ true
unfolding environment_values contains_text starts_with text_beq
api_key_found = refl

relay_masked_events-hides_run_example :
    hides (codes "password") (
      sent_texts no_regexes no_configs no_path
        (relay_masked_events no_regexes no_configs no_path
          (run_secrets lettered run (codes "r"))
          messages
          (with_global_masks (run_secrets lettered run (codes "r")) (codes "/w") (codes "/m"))).1)
    ≡ true
relay_masked_events-hides_run_example =
    relay_masked_events-hides_run no_regexes no_configs no_path lettered run (codes "r")
      (codes "password") (codes "/w") (codes "/m") messages lettered_full refl api_key_found
      hideable_key elsewhere
