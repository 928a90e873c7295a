-- ===== src/Workflow/Tests.antt =====
-- Plans, and the theorems at concrete ones.
use gitzero.Workflow.ChangedPaths.{changed_paths_unread}
use gitzero.Prelude.Strings.{contains_text}
use gitzero.Workflow.Triggers.{
  find_entry, matches_pull_request_trigger, trigger_has_pull_request_path_filter,
}
use gitzero.Workflow.Globs.{Patterns}
use gitzero.Prelude.Sets.{insert_element}
use gitzero.Workflow.MatrixBounds.{expand_le, volume}
use Prim.Native.Nat.{min}
use gitzero.Workflow.Depth.{validate_dependencies_total}
use gitzero.Workflow.MatrixInclude.{add_includes_keep}
use gitzero.Prelude.Map.{insert, Map, get}
use gitzero.Workflow.Matrix.{
  matrix_object_matches, extend, retain, is_compatible, push_values, augment, push_combinations,
  add_include, cartesian_product, first_combinations, Definition, add_includes, expand, limit,
}
use gitzero.Workflow.Yaml.{Entries, no_entries, string, entry, mapping, Value}
use gitzero.Workflow.Access.{level-intersect, planned_permissions-level, highest_level, level}
use gitzero.Workflow.Permissions.{
  add_access, add_entry, default_permissions, add_entries, intersect, PlannedPermissions,
  planned_permissions,
}
use gitzero.Prelude.Result.{err, ok, Result}
use gitzero.Workflow.Faults.{validate_dependencies-IsFault, IsFault}
use gitzero.Workflow.Accepted.{validate_dependencies-IsTopological, IsTopological}
use gitzero.Workflow.Dependencies.{
  check_needs, check_graph, build_from, visit, cycle, visit_each, DependencyError, build_graph,
  visit_graph, PlannedJob, validate_dependencies,
}
use gitzero.Prelude.{
  false, none, Option, List, Text, [], arith, codes, get_elem?, length, nat_beq, nat_key, refl,
  some, text_beq, text_key, text_less, true, ℕ, ◌*◌, ◌∷◌, ◌≡◌, ◌≤◌,
}

abbrev compile : PlannedJob
compile = record { base_id = codes "b"; needs = codes "a" ∷ [] }

abbrev prepare : PlannedJob
prepare = record { base_id = codes "a"; needs = [] }

-- A job that needs the one that needs it.
abbrev circular : PlannedJob
circular = record { base_id = codes "a"; needs = codes "b" ∷ [] }

accepted : validate_dependencies (compile ∷ prepare ∷ []) ≡ some (ok tt)
unfolding validate_dependencies visit_graph visit_each visit build_graph build_from check_graph
    check_needs get insert text_beq text_less
accepted = refl

rejected : validate_dependencies (compile ∷ circular ∷ []) ≡ some (err (cycle (codes "a")))
unfolding validate_dependencies visit_graph visit_each visit build_graph build_from check_graph
    check_needs get insert text_beq text_less
rejected = refl

validate_dependencies-IsTopological_example :
    (rank : Text → ℕ) × IsTopological rank (build_graph (compile ∷ prepare ∷ []))
validate_dependencies-IsTopological_example =
    validate_dependencies-IsTopological (compile ∷ prepare ∷ []) accepted

validate_dependencies-IsFault_example :
    IsFault (build_graph (compile ∷ circular ∷ [])) (cycle (codes "a"))
validate_dependencies-IsFault_example =
    validate_dependencies-IsFault (compile ∷ circular ∷ []) (cycle (codes "a")) rejected

validate_dependencies_total_example :
    (r : Result DependencyError (Unit {0})) × (validate_dependencies (compile ∷ circular ∷ [])
      ≡ some r)
validate_dependencies_total_example = validate_dependencies_total (compile ∷ circular ∷ [])

abbrev caller : PlannedPermissions
caller = record { read = codes "issues" ∷ []; write = codes "contents" ∷ [] }

level-intersect_example :
    level (intersect caller default_permissions) (codes "contents")
    ≡ min (level caller (codes "contents")) (level default_permissions (codes "contents"))
level-intersect_example = level-intersect caller default_permissions (codes "contents")

-- The string of a value without a tag.
abbrev plain_str : Value ℕ → Option Text
plain_str (string s) = some s
plain_str _ = none

-- `contents: write`
abbrev declared : Value ℕ
declared = mapping (entry (string (codes "contents")) (string (codes "write")) no_entries)

abbrev granted : PlannedPermissions
granted = record { read = []; write = codes "contents" ∷ [] }

declared_accepted : planned_permissions plain_str (some declared) default_permissions ≡ ok granted
unfolding planned_permissions add_entries add_entry add_access insert_element text_beq
declared_accepted = refl

planned_permissions-level_example :
    level granted (codes "contents") ≤ highest_level (codes "contents")
planned_permissions-level_example =
    planned_permissions-level plain_str declared default_permissions granted (codes "contents")
      declared_accepted

-- `os: [1, 2]`, with an include entry that adds to the second.
abbrev systems : Definition ℕ
systems = record {
  dimensions = (codes "os", 1 ∷ 2 ∷ []) ∷ [];
  includes = ((codes "os", 2) ∷ (codes "x", 3) ∷ []) ∷ [];
  excludes = [];
}

abbrev first_system : Map Text ℕ
first_system = (codes "os", 1) ∷ []

abbrev second_system : Map Text ℕ
second_system = (codes "os", 2) ∷ []

abbrev expanded : List (Map Text ℕ)
expanded = first_system ∷ ((codes "os", 2) ∷ (codes "x", 3) ∷ []) ∷ []

systems_result : expand nat_beq systems ≡ ok expanded
unfolding expand cartesian_product push_combinations push_values retain matrix_object_matches
    add_includes add_include augment is_compatible extend get insert text_beq text_less
systems_result = refl

expand_le_example :
    (length expanded ≤ limit)
    × (length (first_combinations systems) * volume systems.dimensions ≤ limit)
expand_le_example = expand_le nat_beq systems expanded systems_result

nat_beq-exact : (v w : ℕ) → nat_beq v w ≡ true → v ≡ w
nat_beq-exact v w h = ground arith

systems_included :
    add_includes nat_beq
      (first_system ∷ second_system ∷ [])
      systems.includes
      (first_system ∷ second_system ∷ [])
    ≡ ok expanded
unfolding add_includes add_include augment is_compatible extend get insert text_beq text_less
systems_included = refl

has_os : get (codes "os") second_system ≡ some 2
unfolding get text_beq text_less
has_os = refl

add_includes_keep_example :
    (c : Map Text ℕ) × (get_elem? expanded 1 ≡ some c) × (get (codes "os") c ≡ some 2)
add_includes_keep_example =
    add_includes_keep nat_beq nat_beq-exact (first_system ∷ second_system ∷ []) systems.includes
      expanded 1 second_system (codes "os") 2 systems_included refl has_os

-- The letters of a pattern match themselves.
abbrev exact_patterns : Patterns Text
exact_patterns = record {
  escape_char = λ c. c ∷ [];
  build = λ t. some t;
  is_match = λ regex t. contains_text regex t;
}

abbrev plain_mapping : Value ℕ → Option (Entries ℕ)
plain_mapping (mapping es) = some es
plain_mapping _ = none

plain_mapping_mapping : (es : Entries ℕ) → plain_mapping (mapping es) ≡ some es
plain_mapping_mapping es = refl

-- on: { pull_request: { branches: main } }
abbrev on_main : Value ℕ
on_main = mapping (
    entry (string (codes "pull_request"))
      (mapping (entry (string (codes "branches")) (string (codes "main")) no_entries)) no_entries)

unfiltered :
    trigger_has_pull_request_path_filter exact_patterns plain_str plain_mapping on_main ≡ false
unfolding trigger_has_pull_request_path_filter find_entry text_beq
unfiltered = refl

changed_paths_unread_example :
    matches_pull_request_trigger exact_patterns plain_str plain_mapping
      (codes "opened")
      (codes "main")
      none
      on_main
    ≡ matches_pull_request_trigger exact_patterns plain_str plain_mapping
        (codes "opened")
        (codes "main")
        (some (codes "a.rs" ∷ []))
        on_main
changed_paths_unread_example =
    changed_paths_unread exact_patterns plain_str plain_mapping plain_mapping_mapping
      (codes "opened") (codes "main") none (some (codes "a.rs" ∷ [])) on_main unfiltered
