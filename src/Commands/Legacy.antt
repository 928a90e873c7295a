-- ===== src/Commands/Legacy.antt =====
-- The legacy outputs and states of steps (`WorkflowCommandProcessor` of
-- crates/gitzero-agent/src/executor.rs).
use gitzero.Prelude.Result.{ok, ◌>>=◌, ok, err, Result}
use gitzero.Prelude.Utf8.{byte_len}
use gitzero.Prelude.Map.{Map, insert, get}
use gitzero.Commands.State.{
  legacy_over_limit, bad_legacy_value, no_values, or_else, ProcessError, WorkflowCommandProcessor,
  ensure_healthy, max_legacy_bytes, max_legacy_values, saturating_add, LegacyCommandValues,
}
use gitzero.Prelude.Split.{is_empty}
use gitzero.Prelude.{
  Bool, Option, Text, [], any, false, if◌then◌else◌, ltb, nat_beq, nat_key, none, some, text_key,
  true, ◌||◌,
}

-- The limits of a name and a value.
abbrev pub is_bad_name : Text → Bool
is_bad_name name =
    is_empty name
    || ltb 1024 (byte_len name)
    || any (λ c. nat_beq c 0 || nat_beq c b'\n' || nat_beq c b'\r' || nat_beq c b'=') name

-- The values of a step once a command is counted.
abbrev pub counted_values : Text → Text → LegacyCommandValues → LegacyCommandValues
counted_values name value values = record values {
  command_count = saturating_add values.command_count 1;
  command_bytes =
      saturating_add (saturating_add values.command_bytes (byte_len name)) (byte_len value);
}

abbrev pub is_over_limit : LegacyCommandValues → Bool
is_over_limit values =
    ltb max_legacy_values values.command_count || ltb max_legacy_bytes values.command_bytes

abbrev pub add_value : Bool → Text → Text → LegacyCommandValues → LegacyCommandValues
add_value true name value values = record values { state = insert name value values.state }
add_value false name value values = record values { outputs = insert name value values.outputs }

module _ {Regex : Type 0} where
  -- The last argument tells a saved state from an output.
  unfoldable pub record_legacy_value :
      Text
      → Text
      → Text
      → Bool
      → WorkflowCommandProcessor Regex
      → WorkflowCommandProcessor Regex × Result ProcessError (Unit {0})
  unfolding get insert
  record_legacy_value step_id name value is_state s =
      let values = counted_values name value (or_else no_values (get step_id s.legacy_values)) in
      if is_bad_name name || any (λ c. nat_beq c 0) value
      then (s, err bad_legacy_value)
      else if is_over_limit values
      then (
        record s { legacy_values = insert step_id values s.legacy_values },
        err legacy_over_limit,
      )
      else (
        record s {
          legacy_values = insert step_id (add_value is_state name value values) s.legacy_values;
        },
        ok tt,
      )

  -- `take` on the outputs or the state of a step that has values.
  abbrev pub taken_outputs :
      Text
      → WorkflowCommandProcessor Regex
      → Option LegacyCommandValues
      → WorkflowCommandProcessor Regex × Map Text Text
  taken_outputs step_id s none = (s, [])
  taken_outputs step_id s (some values) = (
    record s { legacy_values = insert step_id (record values { outputs = [] }) s.legacy_values },
    values.outputs,
  )

  abbrev pub taken_state :
      Text
      → WorkflowCommandProcessor Regex
      → Option LegacyCommandValues
      → WorkflowCommandProcessor Regex × Map Text Text
  taken_state step_id s none = (s, [])
  taken_state step_id s (some values) = (
    record s { legacy_values = insert step_id (record values { state = [] }) s.legacy_values },
    values.state,
  )

  unfoldable pub take_legacy_outputs :
      Text
      → WorkflowCommandProcessor Regex
      → Result ProcessError (WorkflowCommandProcessor Regex × Map Text Text)
  unfolding get insert ensure_healthy
  take_legacy_outputs step_id s = do
    healthy ← ensure_healthy s
    ok (taken_outputs step_id s (get step_id s.legacy_values))

  unfoldable pub take_legacy_state :
      Text
      → WorkflowCommandProcessor Regex
      → Result ProcessError (WorkflowCommandProcessor Regex × Map Text Text)
  unfolding get insert ensure_healthy
  take_legacy_state step_id s = do
    healthy ← ensure_healthy s
    ok (taken_state step_id s (get step_id s.legacy_values))
