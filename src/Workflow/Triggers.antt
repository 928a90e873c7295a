-- ===== src/Workflow/Triggers.antt =====
-- The pull_request trigger (`matches_pull_request` and
-- `requires_pull_request_changed_paths` of crates/gitzero-workflow/src/lib.rs).
use gitzero.Prelude.Result.{◌>>=◌, err, ok, Result}
use gitzero.Workflow.Globs.{
  matches_compiled_ordered_patterns, compile_ignored_patterns, compile_ordered_patterns, both_paths,
  both_branches, no_changed_paths, not_a_mapping, unsupported_filter, TriggerError, Patterns,
}
use gitzero.Prelude.{
  Bool, List, Option, Text, [], all, any, codes, false, if◌then◌else◌, nat_key, none, not, some,
  text_key, true, ◌&&◌, ◌==◌, ◌||◌, ◌∷◌,
}
use gitzero.Workflow.Yaml.{
  Value, Values, Entries, null, string, sequence, mapping, no_values, value, no_entries, entry,
}

abbrev pub is_default_action : Text → Bool
is_default_action action =
    action == codes "opened" || action == codes "synchronize" || action == codes "reopened"

-- `Mapping::get` of a string.
unfoldable pub find_entry : {N : Type 0} → Text → Entries N → Option (Value N)
find_entry name no_entries = none
find_entry name (entry (string k) v es) =
    let rest = find_entry name es in if k == name then some v else rest
find_entry name (entry _ v es) = find_entry name es

abbrev pub has_entry : {N : Type 0} → Text → Entries N → Bool
has_entry name es = elim (find_entry name es) [ none ↦ false | some v ↦ true ]

abbrev pub is_filter : Option Text → Bool
is_filter none = false
is_filter (some key) =
    any (λ name. name == key)
      (codes "types"
        ∷ codes "branches"
        ∷ codes "branches-ignore"
        ∷ codes "paths"
        ∷ codes "paths-ignore"
        ∷ [])

module _ {Regex N : Type 0} (p : Patterns Regex) (as_str : Value N → Option Text)
    (as_mapping : Value N → Option (Entries N)) where
  unfoldable pub contains_entry : Text → Values N → Bool
  contains_entry expected no_values = false
  contains_entry expected (value v vs) =
      elim (as_str v) [ none ↦ false | some s ↦ s == expected ] || contains_entry expected vs

  abbrev pub value_contains_string : Value N → Text → Bool
  value_contains_string (string s) expected = s == expected
  value_contains_string (sequence vs) expected = contains_entry expected vs
  value_contains_string _ expected = false

  unfoldable pub keys_supported : Entries N → Bool
  keys_supported no_entries = true
  keys_supported (entry k v es) = is_filter (as_str k) && keys_supported es

  abbrev pub action_matches : Text → Option (Value N) → Bool
  action_matches action none = is_default_action action
  action_matches action (some types) = value_contains_string types action

  abbrev pub branch_included : Text → Option (Value N) → Result TriggerError Bool
  branch_included base_ref none = ok true
  branch_included base_ref (some branches) = do
    patterns ← compile_ordered_patterns p as_str branches
    ok (matches_compiled_ordered_patterns p as_str false patterns base_ref)

  abbrev pub branch_ignored : Text → Option (Value N) → Result TriggerError Bool
  branch_ignored base_ref none = ok false
  branch_ignored base_ref (some ignored) = do
    patterns ← compile_ignored_patterns p as_str ignored
    ok (any (λ regex. p.is_match regex base_ref) patterns)

  abbrev pub path_included : List Text → Option (Value N) → Result TriggerError Bool
  path_included paths none = ok true
  path_included paths (some included) = do
    patterns ← compile_ordered_patterns p as_str included
    ok (any (matches_compiled_ordered_patterns p as_str false patterns) paths)

  abbrev pub all_ignored : List Text → Option (Value N) → Result TriggerError Bool
  all_ignored paths none = ok false
  all_ignored paths (some ignored) = do
    patterns ← compile_ignored_patterns p as_str ignored
    ok (all (λ path. any (λ regex. p.is_match regex path) patterns) paths)

  abbrev pub has_path_filter : Entries N → Bool
  has_path_filter options =
      has_entry (codes "paths") options || has_entry (codes "paths-ignore") options

  abbrev pub match_changed : Entries N → Option (List Text) → Result TriggerError Bool
  match_changed options none = err no_changed_paths
  match_changed options (some []) = ok false
  match_changed options (some (path ∷ paths)) = do
    included ← path_included (path ∷ paths) (find_entry (codes "paths") options)
    if not included then ok false else do
      ignored ← all_ignored (path ∷ paths) (find_entry (codes "paths-ignore") options)
      ok (not ignored)

  abbrev pub match_paths : Entries N → Option (List Text) → Result TriggerError Bool
  match_paths options changed_paths =
      if has_path_filter options then match_changed options changed_paths else ok true

  -- The options before the path filters, whose result is the last argument.
  abbrev pub match_options :
      Text → Text → Entries N → Result TriggerError Bool → Result TriggerError Bool
  match_options action base_ref options by_path =
      if not (keys_supported options)
      then err unsupported_filter
      else if has_entry (codes "branches") options && has_entry (codes "branches-ignore") options
      then err both_branches
      else if has_entry (codes "paths") options && has_entry (codes "paths-ignore") options
      then err both_paths
      else if not (action_matches action (find_entry (codes "types") options))
      then ok false
      else do
        included ← branch_included base_ref (find_entry (codes "branches") options)
        if not included then ok false else do
          ignored ← branch_ignored base_ref (find_entry (codes "branches-ignore") options)
          if ignored then ok false else by_path

  abbrev pub match_configuration :
      Text → Text → Option (List Text) → Value N → Result TriggerError Bool
  match_configuration action base_ref changed_paths null = ok (is_default_action action)
  match_configuration action base_ref changed_paths (mapping options) =
      match_options action base_ref options (match_paths options changed_paths)
  match_configuration action base_ref changed_paths _ = err not_a_mapping

  abbrev pub match_found :
      Text → Text → Option (List Text) → Option (Value N) → Result TriggerError Bool
  match_found action base_ref changed_paths none = ok false
  match_found action base_ref changed_paths (some configuration) =
      match_configuration action base_ref changed_paths configuration

  -- A trigger that matches ends the search.
  abbrev pub or_later :
      Result TriggerError Bool → Result TriggerError Bool → Result TriggerError Bool
  or_later (err e) later = err e
  or_later (ok true) later = ok true
  or_later (ok false) later = later

  unfoldable mutual
    unfolding find_entry keys_supported contains_entry compile_ordered_patterns
        compile_ignored_patterns matches_compiled_ordered_patterns

    pub matches_pull_request_trigger :
        Text → Text → Option (List Text) → Value N → Result TriggerError Bool
    matches_pull_request_trigger action base_ref changed_paths (string s) =
        ok (s == codes "pull_request" && is_default_action action)
    matches_pull_request_trigger action base_ref changed_paths (sequence vs) =
        matches_some_trigger action base_ref changed_paths vs
    matches_pull_request_trigger action base_ref changed_paths (mapping es) =
        match_found action base_ref changed_paths (find_entry (codes "pull_request") es)
    matches_pull_request_trigger action base_ref changed_paths _ = ok false

    pub matches_some_trigger :
        Text → Text → Option (List Text) → Values N → Result TriggerError Bool
    matches_some_trigger action base_ref changed_paths no_values = ok false
    matches_some_trigger action base_ref changed_paths (value v vs) =
        or_later (matches_pull_request_trigger action base_ref changed_paths v)
          (matches_some_trigger action base_ref changed_paths vs)

  abbrev pub filters_paths : Option (Value N) → Bool
  filters_paths none = false
  filters_paths (some configuration) = elim (as_mapping configuration) [
    | none ↦ false
    | some options ↦ has_path_filter options
  ]

  unfoldable mutual
    unfolding find_entry

    pub trigger_has_pull_request_path_filter : Value N → Bool
    trigger_has_pull_request_path_filter (sequence vs) = some_trigger_has_path_filter vs
    trigger_has_pull_request_path_filter (mapping es) =
        filters_paths (find_entry (codes "pull_request") es)
    trigger_has_pull_request_path_filter _ = false

    pub some_trigger_has_path_filter : Values N → Bool
    some_trigger_has_path_filter no_values = false
    some_trigger_has_path_filter (value v vs) =
        trigger_has_pull_request_path_filter v || some_trigger_has_path_filter vs
