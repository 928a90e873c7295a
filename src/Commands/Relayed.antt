-- ===== src/Commands/Relayed.antt =====
-- What the relay sends (crates/gitzero-agent/src/executor.rs).
use gitzero.Commands.MaskLists.{has_mask, none_empty}
use gitzero.Commands.Secrets.{is_hideable, mask_for_step-keeps_out}
use gitzero.Commands.LogSound.{finish_step-Completes, process_log-Completes}
use gitzero.Commands.Masks.{mask_text}
use gitzero.Commands.Log.{process_log}
use gitzero.Prelude.Strings.{contains_text}
use gitzero.Commands.Texts.{hides_more, hides_more, hides-append, is_hidden, hides, masked_texts}
use gitzero.Commands.Bounded.{IsProcessor}
use gitzero.Commands.Guarded.{annotations-hide, mask_finished-hides, masked_first, Guards}
use gitzero.Protocol.{
  other_message, job_rejected, job_finished, log_chunk, step_finished, step_started, AgentMessage,
  LogStream,
}
use gitzero.Commands.State.{
  ensure_healthy, ProcessError, WorkflowCommandProcessor, take_annotations, take_preprocessed_log,
}
use gitzero.Commands.Relay.{
  is_output, mask_for_step, then_relay, relay_log, send_finished, send_log, when_healthy, Sent,
  Relayed, relay_healthy, relay_masked_events, relay_message,
}
use gitzero.Prelude.Result.{ok, err, Result}
use gitzero.Matcher.Patterns.{ProblemMatcherConfig, MatcherError, Regexes}
use gitzero.Prelude.{
  Bool, List, Option, Text, [], arith, codes, false, if◌then◌else◌, nat_key, none, not, refl, some,
  text_key, true, ◌&&◌, ◌++◌, ◌∷◌, ◌≡◌,
}

module _ {Regex Captures : Type 0} (p : Regexes Regex Captures)
    (load : Text → Text → Text → Result MatcherError (List ProblemMatcherConfig))
    (matcher_path : Option Text → Option Text → Option Text → Option Text) where
  -- A message that is sent hides the secret, if any is.
  abbrev SendsHidden : Text → Relayed p load matcher_path → Type 0
  SendsHidden secret (s, err e) = IsProcessor s
  SendsHidden secret (s, ok none) = IsProcessor s
  SendsHidden secret (s, ok (some message)) =
      IsProcessor s × (hides secret (masked_texts message) ≡ true)

  mask_log-hides :
      (secrets : List Text) (secret step_id value : Text) (s : WorkflowCommandProcessor Regex)
      → Guards secrets secret s
      → contains_text (mask_for_step step_id (mask_text value secrets) s) secret ≡ false
  mask_log-hides secrets secret step_id value s g =
      mask_for_step-keeps_out step_id secret _ s g.well_formed g.hideable
        (masked_first secrets secret value s g)

  moved :
      (secrets : List Text) (secret : Text) (s t : WorkflowCommandProcessor Regex)
      → Guards secrets secret s
      → IsProcessor t
      → Guards secrets secret t
  moved secrets secret s t g k = record {
    well_formed = k;
    secrets_full = g.secrets_full;
    hideable = g.hideable;
    among = g.among;
    not_in_path = g.not_in_path;
  }

  send_log-hides :
      (secrets : List Text) (secret message_id step_id : Text) (stream : LogStream)
      (s : WorkflowCommandProcessor Regex)
      (r : WorkflowCommandProcessor Regex × Result ProcessError Text)
      → Guards secrets secret s
      → IsProcessor r.0
      → SendsHidden secret (send_log p load matcher_path secrets message_id step_id stream r)
  send_log-hides secrets secret message_id step_id stream s (t, err e) g k = k
  send_log-hides secrets secret message_id step_id stream s (t, ok []) g k = k
  send_log-hides secrets secret message_id step_id stream s (t, ok (c ∷ data')) g k = (
    k,
    is_hidden _ secret
        (mask_log-hides secrets secret step_id (c ∷ data') t (moved secrets secret s t g k)),
  )

  relay_log-hides :
      (secrets : List Text) (secret message_id step_id : Text) (stream : LogStream) (data' : Text)
      (s : WorkflowCommandProcessor Regex) (preprocessed : Bool)
      → Guards secrets secret s
      → SendsHidden secret
          (relay_log p load matcher_path secrets message_id step_id stream data' (s, preprocessed))
  relay_log-hides secrets secret message_id step_id stream data' s preprocessed g =
      send_log-hides secrets secret message_id step_id stream s _ g
        (read (not preprocessed && is_output p load matcher_path stream))
    where
      read :
          (processed : Bool)
          → IsProcessor
              (if processed
                then process_log p load matcher_path step_id stream data' s
                else (s, ok data')).0
      read true = (process_log-Completes p load matcher_path step_id stream data' s g.well_formed).0
      read false = g.well_formed

  send_finished-hides :
      (secret step_id : Text) (r : WorkflowCommandProcessor Regex × Result ProcessError (Unit {0}))
      → IsProcessor r.0
      → SendsHidden secret (send_finished p load matcher_path (step_finished step_id) r)
  send_finished-hides secret step_id (s, ok u) k = (k, refl)
  send_finished-hides secret step_id (s, err e) k = k

  taken_log-IsProcessor :
      (message_id : Text) (s : WorkflowCommandProcessor Regex)
      → IsProcessor s
      → IsProcessor (take_preprocessed_log message_id s).0
  unfolding take_preprocessed_log
  taken_log-IsProcessor message_id s k = record {
    masks_full = k.masks_full;
    scopes_good = k.scopes_good;
    annotations_capped = k.annotations_capped;
    counts_capped = k.counts_capped;
    matchers_good = k.matchers_good;
  }

  taken_annotations-IsProcessor :
      (s : WorkflowCommandProcessor Regex) → IsProcessor s → IsProcessor (take_annotations s).0
  unfolding take_annotations
  taken_annotations-IsProcessor s k = record {
    masks_full = k.masks_full;
    scopes_good = k.scopes_good;
    annotations_capped = omega arith;
    counts_capped = k.counts_capped;
    matchers_good = k.matchers_good;
  }

  relay_healthy-hides :
      (secrets : List Text) (secret : Text) (message : AgentMessage)
      (s : WorkflowCommandProcessor Regex)
      → Guards secrets secret s
      → SendsHidden secret (relay_healthy p load matcher_path secrets message s)
  unfolding relay_healthy
  relay_healthy-hides secrets secret (step_started step_id name) s g =
      (g.well_formed, is_hidden _ secret (mask_log-hides secrets secret step_id name s g))
  relay_healthy-hides secrets secret (log_chunk message_id step_id stream data') s g =
      relay_log-hides secrets secret message_id step_id stream data' _ _ (
        moved secrets secret s (take_preprocessed_log message_id s).0 g
          (taken_log-IsProcessor message_id s g.well_formed))
  relay_healthy-hides secrets secret (step_finished step_id) s g =
      send_finished-hides secret step_id _
        (finish_step-Completes p load matcher_path step_id s g.well_formed).0
  relay_healthy-hides secrets secret (job_finished summary annotations) s g =
      let h =
        moved secrets secret s (take_annotations s).0 g
          (taken_annotations-IsProcessor s g.well_formed) in
      (
        h.well_formed,
        hides_more secret _ _ (mask_finished-hides secrets secret summary (take_annotations s).0 h)
            (annotations-hide secrets secret (take_annotations s).1 (take_annotations s).0 h),
      )
  relay_healthy-hides secrets secret (job_rejected reason) s g =
      (g.well_formed, is_hidden _ secret (mask_finished-hides secrets secret reason s g))
  relay_healthy-hides secrets secret (other_message text) s g = (g.well_formed, refl)

  relay_message-hides :
      (secrets : List Text) (secret : Text) (message : AgentMessage)
      (s : WorkflowCommandProcessor Regex)
      → Guards secrets secret s
      → SendsHidden secret (relay_message p load matcher_path secrets message s)
  unfolding relay_message
  relay_message-hides secrets secret message s g = when_checked (ensure_healthy s)
    where
      when_checked :
          (healthy : Result ProcessError (Unit {0}))
          → SendsHidden secret (when_healthy p load matcher_path secrets message s healthy)
      when_checked (ok u) = relay_healthy-hides secrets secret message s g
      when_checked (err e) = g.well_formed

  -- The masked texts of all messages that were sent.
  abbrev pub sent_texts : List AgentMessage → List Text
  sent_texts [] = []
  sent_texts (message ∷ messages) = masked_texts message ++ sent_texts messages

  then_relay-hides :
      (secrets : List Text) (secret : Text) (s : WorkflowCommandProcessor Regex)
      (r : Relayed p load matcher_path)
      (next : WorkflowCommandProcessor Regex → Sent p load matcher_path)
      → Guards secrets secret s
      → SendsHidden secret r
      → ((t : WorkflowCommandProcessor Regex)
          → Guards secrets secret t
          → hides secret (sent_texts (next t).1) ≡ true)
      → hides secret (sent_texts (then_relay p load matcher_path r next).1) ≡ true
  then_relay-hides secrets secret s (t, err e) next g h later = refl
  then_relay-hides secrets secret s (t, ok none) next g h later =
      later t (moved secrets secret s t g h)
  then_relay-hides secrets secret s (t, ok (some message)) next g (k, h) later =
      hides-append secret (masked_texts message) _ h (later t (moved secrets secret s t g k))

  relayed-hides :
      (secrets : List Text) (secret : Text) (messages : List AgentMessage)
      (s : WorkflowCommandProcessor Regex)
      → Guards secrets secret s
      → hides secret (sent_texts (relay_masked_events p load matcher_path secrets messages s).1)
        ≡ true
  unfolding relay_masked_events
  relayed-hides secrets secret [] s g = refl
  relayed-hides secrets secret (message ∷ messages) s g =
      then_relay-hides secrets secret s (relay_message p load matcher_path secrets message s)
        (relay_masked_events p load matcher_path secrets messages) g
        (relay_message-hides secrets secret message s g) (relayed-hides secrets secret messages)

  -- Of the messages that a well-formed processor relays, none that is sent shows a secret of the run
  -- in a step's name, a log, a summary, an annotation or a reason, whatever the job writes and
  -- whatever masks it adds: for a secret that is not empty, has no star and does not occur in
  -- `.github`, where no secret is empty.
  pub relay_masked_events-hides :
      (secrets : List Text) (secret : Text) (messages : List AgentMessage)
      (s : WorkflowCommandProcessor Regex)
      → IsProcessor s
      → none_empty secrets ≡ true
      → is_hideable secret ≡ true
      → has_mask secret secrets ≡ true
      → contains_text (codes ".github") secret ≡ false
      → hides secret (sent_texts (relay_masked_events p load matcher_path secrets messages s).1)
        ≡ true
  relay_masked_events-hides secrets secret messages s k full good there path =
      relayed-hides secrets secret messages s (record {
        well_formed = k;
        secrets_full = full;
        hideable = good;
        among = there;
        not_in_path = path;
      })
