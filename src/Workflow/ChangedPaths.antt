-- ===== src/Workflow/ChangedPaths.antt =====
-- When a trigger reads the changed files (crates/gitzero-workflow/src/lib.rs).
use gitzero.Prelude.Replace.{||-false}
use gitzero.Workflow.Triggers.{
  or_later, find_entry, some_trigger_has_path_filter, match_options,
  trigger_has_pull_request_path_filter, match_configuration, match_found, match_paths,
  matches_some_trigger, filters_paths, has_path_filter, matches_pull_request_trigger,
}
use gitzero.Workflow.Globs.{Patterns}
use gitzero.Prelude.{
  List, Option, Text, ap, codes, false, nat_key, none, refl, some, sym, text_key, ◌∙◌, ◌≡◌,
}
use gitzero.Workflow.Yaml.{
  Value, Values, Entries, null, bool, number, tagged, string, sequence, mapping, no_values, value,
}

module _ {Regex N : Type 0} (p : Patterns Regex) (as_str : Value N → Option Text)
    (as_mapping : Value N → Option (Entries N))
    (as_mapping_mapping : (es : Entries N) → as_mapping (mapping es) ≡ some es)
    (action base_ref : Text) (first second : Option (List Text)) where
  match_paths_unfiltered :
      (options : Entries N)
      → has_path_filter p as_str as_mapping options ≡ false
      → match_paths p as_str as_mapping options first
        ≡ match_paths p as_str as_mapping options second
  match_paths_unfiltered options h = rw h refl

  configuration_unfiltered :
      (configuration : Value N)
      → filters_paths p as_str as_mapping (some configuration) ≡ false
      → match_configuration p as_str as_mapping action base_ref first configuration
        ≡ match_configuration p as_str as_mapping action base_ref second configuration
  configuration_unfiltered (mapping options) h =
      ap (match_options p as_str as_mapping action base_ref options) (
        match_paths_unfiltered options (
          sym (
            ap
              (λ o. elim o [
                | none ↦ false
                | some options ↦ has_path_filter p as_str as_mapping options
              ])
              (as_mapping_mapping options))
          ∙ h))
  configuration_unfiltered null h = refl
  configuration_unfiltered (bool b) h = refl
  configuration_unfiltered (number n) h = refl
  configuration_unfiltered (string s) h = refl
  configuration_unfiltered (sequence vs) h = refl
  configuration_unfiltered (tagged tag v) h = refl

  found_unfiltered :
      (found : Option (Value N))
      → filters_paths p as_str as_mapping found ≡ false
      → match_found p as_str as_mapping action base_ref first found
        ≡ match_found p as_str as_mapping action base_ref second found
  found_unfiltered none h = refl
  found_unfiltered (some configuration) h = configuration_unfiltered configuration h

  mutual
    unfolding matches_pull_request_trigger matches_some_trigger trigger_has_pull_request_path_filter
        some_trigger_has_path_filter

    trigger_unread :
        (trigger : Value N)
        → trigger_has_pull_request_path_filter p as_str as_mapping trigger ≡ false
        → matches_pull_request_trigger p as_str as_mapping action base_ref first trigger
          ≡ matches_pull_request_trigger p as_str as_mapping action base_ref second trigger
    trigger_unread (sequence vs) h = some_unread vs h
    trigger_unread (mapping es) h = found_unfiltered (find_entry (codes "pull_request") es) h
    trigger_unread null h = refl
    trigger_unread (bool b) h = refl
    trigger_unread (number n) h = refl
    trigger_unread (string s) h = refl
    trigger_unread (tagged tag v) h = refl

    some_unread :
        (triggers : Values N)
        → some_trigger_has_path_filter p as_str as_mapping triggers ≡ false
        → matches_some_trigger p as_str as_mapping action base_ref first triggers
          ≡ matches_some_trigger p as_str as_mapping action base_ref second triggers
    some_unread no_values h = refl
    some_unread (value v vs) h =
        let (here, rest) =
          ||-false (trigger_has_pull_request_path_filter p as_str as_mapping v) _ h in
        λ i. or_later p as_str as_mapping (trigger_unread v here i) (some_unread vs rest i)

  -- A trigger without a path filter, as `requires_pull_request_changed_paths` says it, matches a
  -- pull request alike whatever files have changed, and also where they are not known: the same
  -- answer, or the same error.
  pub changed_paths_unread :
      (trigger : Value N)
      → trigger_has_pull_request_path_filter p as_str as_mapping trigger ≡ false
      → matches_pull_request_trigger p as_str as_mapping action base_ref first trigger
        ≡ matches_pull_request_trigger p as_str as_mapping action base_ref second trigger
  changed_paths_unread trigger h = trigger_unread trigger h
