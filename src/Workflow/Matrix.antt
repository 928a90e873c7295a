-- ===== src/Workflow/Matrix.antt =====
-- `expand_matrix_definition`, `matrix_objects` and `matrix_object_matches` of
-- crates/gitzero-workflow/src/lib.rs. `Value::as_str`, the conversion
-- `serde_json::to_value` behind `yaml_to_json` and the equality of JSON values are parameters.
use gitzero.Prelude.Result.{err, ok, ok_or, ◌>>=◌, Result}
use gitzero.Prelude.Map.{Map, get, insert}
use gitzero.Workflow.Yaml.{
  no_entries, no_values, entry, value, Entries, Values, mapping, sequence, Value,
}
use gitzero.Prelude.{
  Bool, List, Option, Text, [], all, any, codes, false, if◌then◌else◌, length, ltb, nat_key, none,
  not, some, text_key, true, ℕ, ◌++◌, ◌==◌, ◌∷◌,
}

-- The refusals, without their texts.
pub data MatrixError : Type 0 where
  not_a_mapping key_not_string not_a_list empty_dimension not_json entry_not_mapping : MatrixError
  over_limit : MatrixError

abbrev pub limit : ℕ
limit = 256

module _ {N J : Type 0} (as_str : Value N → Option Text) (to_json : Value N → Option J) where
  abbrev pub yaml_to_json : Value N → Result MatrixError J
  yaml_to_json v = ok_or (to_json v) not_json

  -- The entries of a mapping, collected into a `BTreeMap`.
  unfoldable pub matrix_object : Entries N → Map Text J → Result MatrixError (Map Text J)
  matrix_object no_entries object = ok object
  matrix_object (entry k v es) object = do
    key ← ok_or (as_str k) key_not_string
    json ← yaml_to_json v
    matrix_object es (insert key json object)

  unfoldable pub collect_objects : Values N → Result MatrixError (List (Map Text J))
  unfolding matrix_object
  collect_objects no_values = ok []
  collect_objects (value (mapping es) vs) = do
    object ← matrix_object es []
    objects ← collect_objects vs
    ok (object ∷ objects)
  collect_objects (value _ vs) = err entry_not_mapping

  unfoldable pub matrix_objects : Value N → Result MatrixError (List (Map Text J))
  unfolding collect_objects
  matrix_objects (sequence vs) = collect_objects vs
  matrix_objects _ = err not_a_list

  unfoldable pub collect_values : Values N → Result MatrixError (List J)
  collect_values no_values = ok []
  collect_values (value v vs) = do json ← yaml_to_json v; rest ← collect_values vs; ok (json ∷ rest)

  -- The values of a dimension that is not empty.
  unfoldable pub dimension_values : Value N → Result MatrixError (List J)
  unfolding collect_values
  dimension_values (sequence no_values) = err empty_dimension
  dimension_values (sequence vs) = collect_values vs
  dimension_values _ = err not_a_list

pub record Definition (J : Type 0) : Type 0 where
  pub dimensions : List (Text × List J)
  pub includes : List (Map Text J)
  pub excludes : List (Map Text J)

module _ {N J : Type 0} (as_str : Value N → Option Text) (to_json : Value N → Option J) where
  unfoldable pub read_key : Text → Value N → Definition J → Result MatrixError (Definition J)
  unfolding matrix_objects dimension_values
  read_key key v d =
      if key == codes "include"
      then matrix_objects as_str to_json v >>= (λ objects. ok (record d { includes = objects }))
      else if key == codes "exclude"
      then matrix_objects as_str to_json v >>= (λ objects. ok (record d { excludes = objects }))
      else dimension_values as_str to_json v
        >>= (λ values. ok (record d { dimensions = d.dimensions ++ (key, values) ∷ [] }))

  unfoldable pub read_definition : Entries N → Definition J → Result MatrixError (Definition J)
  unfolding read_key
  read_definition no_entries d = ok d
  read_definition (entry k v es) d = do
    key ← ok_or (as_str k) key_not_string
    next ← read_key key v d
    read_definition es next

module _ {J : Type 0} where
  -- The inner loop of the product, over the values of a dimension for one combination.
  unfoldable pub push_values :
      Text → List J → Map Text J → List (Map Text J) → Result MatrixError (List (Map Text J))
  push_values key [] combination product = ok product
  push_values key (v ∷ values) combination product =
      let next = product ++ insert key v combination ∷ [] in
      let rest = push_values key values combination next in
      if ltb limit (length next) then err over_limit else rest

  unfoldable pub push_combinations :
      Text → List J → List (Map Text J) → List (Map Text J) → Result MatrixError (List (Map Text J))
  unfolding push_values
  push_combinations key values [] product = ok product
  push_combinations key values (combination ∷ combinations) product = do
    next ← push_values key values combination product
    push_combinations key values combinations next

  unfoldable pub cartesian_product :
      List (Text × List J) → List (Map Text J) → Result MatrixError (List (Map Text J))
  unfolding push_combinations
  cartesian_product [] combinations = ok combinations
  cartesian_product ((key, values) ∷ dimensions) combinations = do
    product ← push_combinations key values combinations []
    cartesian_product dimensions product

  abbrev pub first_combinations : Definition J → List (Map Text J)
  first_combinations d = elim d.dimensions [
    | [] ↦ elim d.includes [ [] ↦ [] ∷ [] | _ ∷ _ ↦ [] ]
    | _ ∷ _ ↦ [] ∷ []
  ]

  module _ (same : J → J → Bool) where
    abbrev pub is_value : Option J → J → Bool
    is_value none v = false
    is_value (some w) v = same w v

    abbrev pub is_absent_or : Option J → J → Bool
    is_absent_or none v = true
    is_absent_or (some w) v = same w v

    unfoldable pub matrix_object_matches : Map Text J → Map Text J → Bool
    unfolding get
    matrix_object_matches combination filter = all (λ e. is_value (get e.0 combination) e.1) filter

    unfoldable pub retain : List (Map Text J) → List (Map Text J) → List (Map Text J)
    unfolding matrix_object_matches
    retain excludes [] = []
    retain excludes (c ∷ combinations) =
        let rest = retain excludes combinations in
        if not (any (λ exclude. matrix_object_matches c exclude) excludes) then c ∷ rest else rest

    unfoldable pub is_compatible : Map Text J → Map Text J → Bool
    unfolding get
    is_compatible original include = all (λ e. is_absent_or (get e.0 original) e.1) include

  -- `combination.extend(include)`
  unfoldable pub extend : Map Text J → Map Text J → Map Text J
  unfolding insert
  extend combination [] = combination
  extend combination ((k, v) ∷ include) = extend (insert k v combination) include

  module _ (same : J → J → Bool) where
    -- The inner loop over the original combinations: the combinations so far, and whether one of
    -- them took the entry.
    unfoldable pub augment :
        Map Text J → List (Map Text J) → List (Map Text J) → List (Map Text J) × Bool
    unfolding is_compatible extend
    augment include [] combinations = (combinations, false)
    augment include (_ ∷ originals) [] = ([], false)
    augment include (original ∷ originals) (c ∷ combinations) =
        let rest = augment include originals combinations in
        if is_compatible same original include
        then (extend c include ∷ rest.0, true)
        else (c ∷ rest.0, rest.1)

    unfoldable pub add_include :
        List (Map Text J) → Map Text J → List (Map Text J) → List (Map Text J)
    unfolding augment
    add_include original include combinations =
        let augmented = augment include original combinations in
        if augmented.1 then augmented.0 else augmented.0 ++ include ∷ []

    unfoldable pub add_includes :
        List (Map Text J)
        → List (Map Text J)
        → List (Map Text J)
        → Result MatrixError (List (Map Text J))
    unfolding add_include
    add_includes original [] combinations = ok combinations
    add_includes original (include ∷ includes) combinations =
        let next = add_include original include combinations in
        let rest = add_includes original includes next in
        if ltb limit (length next) then err over_limit else rest

    unfoldable pub expand : Definition J → Result MatrixError (List (Map Text J))
    unfolding cartesian_product retain add_includes
    expand d = do
      product ← cartesian_product d.dimensions (first_combinations d)
      let original = retain same d.excludes product
      add_includes original d.includes original

module _ {N J : Type 0} (as_str : Value N → Option Text) (to_json : Value N → Option J)
    (same : J → J → Bool) where
  unfoldable pub expand_matrix_definition : Value N → Result MatrixError (List (Map Text J))
  unfolding read_definition expand
  expand_matrix_definition (mapping es) =
      read_definition as_str to_json es (record { dimensions = []; includes = []; excludes = [] })
      >>= expand same
  expand_matrix_definition _ = err not_a_mapping
