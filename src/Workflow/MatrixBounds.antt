-- ===== src/Workflow/MatrixBounds.antt =====
-- The number of combinations of `expand_matrix_definition` (crates/gitzero-workflow/src/lib.rs).
use native.Mathlib.Nat.{mul_assoc}
use gitzero.Prelude.Result.{>>=-eq-ok, guard-eq-ok, ok-injective, ok}
use gitzero.Prelude.Map.{insert, Map}
use gitzero.Workflow.Matrix.{
  add_include, first_combinations, Definition, add_includes, cartesian_product, expand, retain,
  over_limit, push_combinations, limit, push_values,
}
use gitzero.Prelude.{
  length-append, Bool, List, Text, [], ap, arith, length, ltb, nat_key, subst, text_key, ℕ, ◌*◌,
  ◌++◌, ◌+◌, ◌∙◌, ◌∷◌, ◌≡◌, ◌≤◌,
}

-- The product of the lengths of the dimensions.
unfoldable pub volume : {J : Type 0} → List (Text × List J) → ℕ
volume [] = 1
volume ((key, values) ∷ dimensions) = length values * volume dimensions

module _ {J : Type 0} where
  push_values-length :
      (key : Text) (values : List J) (combination : Map Text J) (product result : List (Map Text J))
      → length product ≤ limit
      → push_values key values combination product ≡ ok result
      → (length result ≤ limit) × (length result ≡ length product + length values)
  unfolding push_values
  push_values-length key [] combination product result le h =
      subst (λ r. (length r ≤ limit) × (length r ≡ length product + 0)) (ok-injective h)
        (le, omega arith)
  push_values-length key (v ∷ values) combination product result le h =
      let next = product ++ insert key v combination ∷ [] in
      let (fits, rest) =
        guard-eq-ok (ltb limit (length next)) over_limit (push_values key values combination next)
          h in
      let (bound, exact) =
        push_values-length key values combination next result (ground (arith, fits)) rest in
      (bound, omega (arith, exact, length-append product (insert key v combination ∷ [])))

  push_combinations-length :
      (key : Text) (values : List J) (combinations product result : List (Map Text J))
      → length product ≤ limit
      → push_combinations key values combinations product ≡ ok result
      → (length result ≤ limit)
        × (length result ≡ length product + length combinations * length values)
  unfolding push_combinations
  push_combinations-length key values [] product result le h =
      subst (λ r. (length r ≤ limit) × (length r ≡ length product + 0 * length values))
        (ok-injective h) (le, omega arith)
  push_combinations-length key values (c ∷ combinations) product result le h =
      let (next, first, rest) =
        >>=-eq-ok (push_values key values c product) (push_combinations key values combinations)
          h in
      let (fits, exact) = push_values-length key values c product next le first in
      let (bound, total) = push_combinations-length key values combinations next result fits rest in
      (bound, grind (arith, exact, total))

  cartesian_product-length :
      (dimensions : List (Text × List J)) (combinations result : List (Map Text J))
      → length combinations ≤ limit
      → cartesian_product dimensions combinations ≡ ok result
      → (length result ≤ limit) × (length result ≡ length combinations * volume dimensions)
  unfolding cartesian_product volume
  cartesian_product-length [] combinations result le h =
      subst (λ r. (length r ≤ limit) × (length r ≡ length combinations * 1)) (ok-injective h)
        (le, omega arith)
  cartesian_product-length ((key, values) ∷ dimensions) combinations result le h =
      let (product, first, rest) =
        >>=-eq-ok (push_combinations key values combinations []) (cartesian_product dimensions) h in
      let (fits, exact) =
        push_combinations-length key values combinations [] product (omega arith) first in
      let (bound, total) = cartesian_product-length dimensions product result fits rest in
      (
        bound,
        total
            ∙ ap (λ n. n * volume dimensions) (exact ∙ omega arith)
            ∙ mul_assoc (length combinations) (length values) (volume dimensions),
      )

  add_includes-length :
      (same : J → J → Bool) (original includes combinations result : List (Map Text J))
      → length combinations ≤ limit
      → add_includes same original includes combinations ≡ ok result
      → length result ≤ limit
  unfolding add_includes
  add_includes-length same original [] combinations result le h =
      subst (λ r. length r ≤ limit) (ok-injective h) le
  add_includes-length same original (include ∷ includes) combinations result le h =
      let next = add_include same original include combinations in
      let (fits, rest) =
        guard-eq-ok (ltb limit (length next)) over_limit (add_includes same original includes next)
          h in
      add_includes-length same original includes next result (ground (arith, fits)) rest

  retain-length :
      (same : J → J → Bool) (excludes combinations : List (Map Text J))
      → length (retain same excludes combinations) ≤ length combinations
  unfolding retain
  retain-length same excludes [] = omega arith
  retain-length same excludes (c ∷ combinations) =
      ground (arith, retain-length same excludes combinations)

  first_le :
      (dimensions : List (Text × List J)) (includes : List (Map Text J))
      → length (
          first_combinations
            (record { dimensions = dimensions; includes = includes; excludes = [] }))
        ≤ 1
  first_le [] [] = omega arith
  first_le [] (i ∷ includes) = omega arith
  first_le (e ∷ dimensions) includes = omega arith

  first_combinations-length : (d : Definition J) → length (first_combinations d) ≤ 1
  first_combinations-length d = first_le d.dimensions d.includes

  -- Whatever a matrix declares, if it expands, then to at most 256 combinations, and the product
  -- of the dimensions has at most 256 combinations before the excludes.
  pub expand_le :
      (same : J → J → Bool) (d : Definition J) (result : List (Map Text J))
      → expand same d ≡ ok result
      → (length result ≤ limit) × (length (first_combinations d) * volume d.dimensions ≤ limit)
  unfolding expand
  expand_le same d result h =
      let (product, first, rest) =
        >>=-eq-ok (cartesian_product d.dimensions (first_combinations d))
          (λ product.
            add_includes same (retain same d.excludes product) d.includes
              (retain same d.excludes product))
          h in
      let (fits, exact) =
        cartesian_product-length d.dimensions (first_combinations d) product
          (omega (arith, first_combinations-length d)) first in
      (
        add_includes-length same (retain same d.excludes product) d.includes
            (retain same d.excludes product) result
            (omega (arith, fits, retain-length same d.excludes product)) rest,
        omega (arith, fits, exact),
      )
